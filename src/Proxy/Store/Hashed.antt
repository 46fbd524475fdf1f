-- ===== src/Proxy/Store/Hashed.antt =====
-- The blob that taking the key of a request leaves, in a storage that is reliable.
use httplock.Base.{
  ℕ, ◌≡◌, refl, sym, ◌∙◌, ap, Option, none, some, [], Str, ok, err, Result-cases, inl, inr, arith,
}
use httplock.Hasher.{Bytes}
use httplock.Storage.Errors.{Error, Res}
use httplock.Storage.Backend.{Backend, Codec, IsReliable, push}
use httplock.Storage.Backend.Steps.{steps-push}
use httplock.Proxy.Request.{Body, stream, stored, Request, Formats}
use package.httplock.Proxy.Store.{
  opened, closed, copied, copy_into, source, hash_request, with_body, hash_copied, gen_req_hash,
}

module _ (B : Backend) (J : Codec) (F : Formats) (digest : Bytes → Str) where
  opened-ok :
      (s s' : B.State) (x : Res Str) (h : Str)
      → opened B J F digest s x ≡ (ok h, s')
      → (s ≡ s') × (x ≡ ok h)
  unfolding opened
  opened-ok s s' (err e) h done = absurd (ground arith)
  opened-ok s s' (ok k) h done = elim (Result-cases (B.blob_open s k)) [
    | inr (e, failed) ↦ absurd (ground arith)
    | inl (b, there) ↦
        let e : opened B J F digest s (ok k) ≡ (ok k, s) = rw (there, opened) in
        (ap (λ x. x.1) (sym e ∙ done), ap (λ x. x.0) (sym e ∙ done))
  ]

  closed-ok :
      (w : ℕ) (s' : B.State) (x : Option Error × B.State) (h : Str)
      → closed B J F digest w x ≡ (ok h, s')
      → (x.1 ≡ s') × (B.blob_hash x.1 w ≡ ok h)
  unfolding closed
  closed-ok w s' (some e, s) h done = absurd (ground arith)
  closed-ok w s' (none, s) h done = opened-ok s s' (B.blob_hash s w) h done

  -- The writer was closed and has the hash.
  abbrev Closed : ℕ → B.State → Str → B.State → Type 0
  Closed w s h s' = ((B.blob_close s w).1 ≡ s') × (B.blob_hash (B.blob_close s w).1 w ≡ ok h)

  copied-ok :
      (w : ℕ) (s' : B.State) (x : Res ℕ × B.State) (h : Str)
      → copied B J F digest w x ≡ (ok h, s')
      → (n : ℕ) × (x ≡ (ok n, x.1)) × Closed w x.1 h s'
  unfolding copied
  copied-ok w s' (err e, s) h done = absurd (ground arith)
  copied-ok w s' (ok n, s) h done = (n, refl, closed-ok w s' (B.blob_close s w) h done)

  copy_into-ok :
      (c : Bytes) (s' : B.State) (x : Res ℕ × B.State) (h : Str)
      → copy_into B J F digest (ok c) x ≡ (ok h, s')
      → (w : ℕ) × (n : ℕ) × (x ≡ (ok w, x.1))
        × (B.blob_write x.1 w c ≡ (ok n, (B.blob_write x.1 w c).1))
        × Closed w (B.blob_write x.1 w c).1 h s'
  unfolding copy_into
  copy_into-ok c s' (err e, s) h done = absurd (ground arith)
  copy_into-ok c s' (ok w, s) h done =
      let (n, wrote, ended) = copied-ok w s' (B.blob_write s w c) h done in
      (w, n, refl, wrote, ended)

  abbrev str_of : Res Str → Str
  str_of (ok h) = h
  str_of (err e) = []

  copy_into-pushes :
      (R : IsReliable digest B) (c : Bytes) (s s' : B.State) (h : Str)
      → copy_into B J F digest (ok c) (B.blob_create s) ≡ (ok h, s')
      → (s' ≡ (push B s [] c).2) × (h ≡ digest c)
  copy_into-pushes R c s s' h done =
      let (w, n, created, wrote, (closed, hashed)) = copy_into-ok c s' (B.blob_create s) h done in
      let (pushed, named) =
        steps-push digest B R s (B.blob_create s).1 (B.blob_write (B.blob_create s).1 w c).1 c w n
          created wrote in
      (sym closed ∙ sym pushed, ap str_of (sym hashed ∙ named))

  -- A request whose body has been stored.
  abbrev pub Stored : Request → Bytes → B.State → Str × Str → Request → B.State → Type 0
  Stored req c s key req' s' =
      (s' ≡ (push B s [] c).2)
      × (req' ≡ with_body B J F digest req (digest c))
      × (hash_request B J F digest (with_body B J F digest req (digest c)) (digest c) ≡ ok key)

  hash_copied-Stored :
      (R : IsReliable digest B) (c : Bytes) (s s' : B.State) (req req' : Request) (key : Str × Str)
      (x : Res Str × B.State)
      → copy_into B J F digest (ok c) (B.blob_create s) ≡ x
      → hash_copied B J F digest req x ≡ (ok key, req', s')
      → Stored req c s key req' s'
  unfolding hash_copied
  hash_copied-Stored R c s s' req req' key (err e, u) copied done = absurd (ground arith)
  hash_copied-Stored R c s s' req req' key (ok h, u) copied done =
      let (pushed, named) = copy_into-pushes R c s u h copied in
      (
        sym (ap (λ x. x.2) done) ∙ pushed,
        sym (ap (λ x. x.1) done) ∙ ap (with_body B J F digest req) named,
        ap (λ z. hash_request B J F digest (with_body B J F digest req z) z) (sym named)
            ∙ ap (λ x. x.0) done,
      )

  abbrev by_body : Request → B.State → Body → Res (Str × Str) × Request × B.State
  by_body req s body = elim body [
    | stored hash ↦ (hash_request B J F digest req hash, req, s)
    | stream r again ↦
        hash_copied B J F digest req
          (copy_into B J F digest (source B J F digest r again) (B.blob_create s))
  ]

  -- A body that is read from a stream is pushed as a blob, and the request reads it from there.
  pub gen_req_hash-Stored :
      (R : IsReliable digest B) (r : Res Bytes) (again : Option (Res Bytes)) (c : Bytes)
      (s s' : B.State) (req req' : Request) (key : Str × Str)
      → req.body ≡ stream r again
      → source B J F digest r again ≡ ok c
      → gen_req_hash B J F digest s req ≡ (ok key, req', s')
      → Stored req c s key req' s'
  unfolding gen_req_hash
  gen_req_hash-Stored R r again c s s' req req' key body read done =
      let e : gen_req_hash B J F digest s req
          ≡ hash_copied B J F digest req
              (copy_into B J F digest (source B J F digest r again) (B.blob_create s)) =
        ap (by_body req s) body in
      let e' =
        ap (λ b. hash_copied B J F digest req (copy_into B J F digest b (B.blob_create s)))
          (sym read) in
      hash_copied-Stored R c s s' req req' key (copy_into B J F digest (ok c) (B.blob_create s))
        refl (e' ∙ sym e ∙ done)
