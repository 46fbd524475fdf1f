-- ===== src/Proxy/Store/Recorded.antt =====
-- What a response that has been recorded left: the writer of its body, and the head that says what
-- it was.
use httplock.Base.{
  ℕ, ◌≡◌, text, refl, sym, ◌∙◌, ap, true, false, Option, none, some, List, [], ◌++◌, Str, ok, err,
  Bool-cases, Result-cases, inl, inr, arith,
}
use httplock.Hasher.{Bytes}
use httplock.Storage.Errors.{Error, Res, Status, wrapped, read_only}
use httplock.Storage.Backend.{Backend, Codec}
use httplock.Storage.Root.{Root, read, write, read_at, write_at, get_dir}
use httplock.Proxy.Header.{Header}
use httplock.Proxy.Request.{Request, Response, Formats}
use package.httplock.Proxy.Store.{
  Tee, Put, file_path, gen_dir_path, put_body, put_link, put_head, put_hashed, gen_req_hash,
  put_resp, encode, save_meta, save_head, tee_close, first_error, ext_resp_body, ext_req_head,
  ext_resp_head,
}

module _ (B : Backend) (J : Codec) (F : Formats) (digest : Bytes → Str) where
  -- `write` and `read` of a file of the request.
  pub write-writable :
      (path : List Str) (s : B.State) (r : Root) (w : ℕ)
      → (write B J path s r).0 ≡ ok w
      → r.readonly ≡ false
  unfolding write
  write-writable path s r w done = elim (Bool-cases r.readonly) [
    | inl frozen ↦ absurd (ground arith)
    | inr may ↦ may
  ]

  pub write-file :
      (req : Request) (hash ext : Str) (s : B.State) (r : Root)
      → r.readonly ≡ false
      → write B J (file_path B J F digest req hash ext) s r
        ≡ get_dir B J true (gen_dir_path B J F digest req) (write_at B J (hash ++ ext)) s r
  unfolding write gen_dir_path
  write-file req hash ext s r may = rw may

  pub read-file :
      (req : Request) (hash ext : Str) (s : B.State) (r : Root)
      → read B J (file_path B J F digest req hash ext) s r
        ≡ get_dir B J false (gen_dir_path B J F digest req) (read_at B J (hash ++ ext)) s r
  unfolding read gen_dir_path
  read-file req hash ext s r = refl

  module _ (req : Request) (resp : Response) (hash : Str) (tee : Tee B J F digest) (r₁ : Root)
      (s₁ : B.State) where
    -- The writer of the body was opened at its path, and the reader knows the head.
    abbrev pub Opened : Type 0
    Opened =
        (r₀ : Root) × (s₀ : B.State) × (write B J (file_path B J F digest req hash ext_resp_body) s₀
            r₀
          ≡ (ok tee.w, r₁, s₁))
        × (tee.path ≡ file_path B J F digest req hash ext_resp_head)
        × (tee.meta ≡ record {
          status_code = resp.status_code;
          headers = resp.header;
          content_len = resp.content_length;
          body_hash = [];
        })

    abbrev first_tee : ℕ → Tee B J F digest
    first_tee w = record {
      w = w;
      path = file_path B J F digest req hash ext_resp_head;
      meta = record {
        status_code = resp.status_code;
        headers = resp.header;
        content_len = resp.content_length;
        body_hash = [];
      };
    }

    abbrev tee_of : Put B J F digest → Tee B J F digest
    tee_of (ok t, r, s) = t
    tee_of (err e, r, s) = tee

    put_body-Opened :
        (x : Status × Root × B.State)
        → put_body B J F digest req resp hash x ≡ (ok tee, r₁, s₁)
        → Opened
    unfolding put_body
    put_body-Opened (err e, root, s) done = absurd (ground arith)
    put_body-Opened (ok _, root, s) done =
        let X = write B J (file_path B J F digest req hash ext_resp_body) s root in
        elim (Result-cases X.0) [
          | inr (e, failed) ↦ absurd (ground arith)
          | inl (w, wrote) ↦
              let e : put_body B J F digest req resp hash (ok tt, root, s)
                  ≡ (ok (first_tee w), X.1, X.2) =
                rw (wrote, put_body) in
              let same = ap tee_of (sym e ∙ done) in
              (
                root,
                s,
                (λ i. (
                  (wrote ∙ ap (λ t. ok t.w) same) i,
                  ((sym e ∙ done) i).1,
                  ((sym e ∙ done) i).2,
                )),
                ap (λ t. t.path) (sym same),
                ap (λ t. t.meta) (sym same),
              )
        ]

    put_link-Opened :
        (body_hash : Str) (root : Root) (x : Status × B.State)
        → put_link B J F digest req resp hash body_hash root x ≡ (ok tee, r₁, s₁)
        → Opened
    unfolding put_link
    put_link-Opened body_hash root (err e, s) done = absurd (ground arith)
    put_link-Opened body_hash root (ok _, s) done = put_body-Opened _ done

    put_head-Opened :
        (body_hash : Str) (x : Res ℕ × Root × B.State)
        → put_head B J F digest req resp hash body_hash x ≡ (ok tee, r₁, s₁)
        → Opened
    unfolding put_head
    put_head-Opened body_hash (err e, root, s) done = absurd (ground arith)
    put_head-Opened body_hash (ok w, root, s) done = put_link-Opened body_hash root _ done

    pub put_hashed-Opened :
        (root : Root) (body_hash : Str) (s : B.State)
        → put_hashed B J F digest resp root (ok (hash, body_hash), req, s) ≡ (ok tee, r₁, s₁)
        → Opened
    unfolding put_hashed
    put_hashed-Opened root body_hash s done = put_head-Opened body_hash _ done

  module _ (tee : Tee B J F digest) (headers : Header) (r₂ : Root) (s₅ : B.State) where
    -- The head was written, with the headers of that time, and its writer closed.
    abbrev pub Saved : B.State → Root → Type 0
    Saved s₃ r₁ =
        (w : ℕ) × (h : Str) × (b : Bytes) × (k : ℕ) × (s₄ : B.State) × (t : B.State) × (write B J
            tee.path s₃ r₁
          ≡ (ok w, r₂, s₄))
        × (F.encode_resp (record (tee.meta) { headers = headers; body_hash = h }) ≡ ok b)
        × (B.blob_write s₄ w b ≡ (ok k, t))
        × ((B.blob_close t w).1 ≡ s₅)

    -- The writer of a value that was encoded.
    encode-ok :
        (s : B.State) (w : ℕ) (x : Res Bytes)
        → (encode B J F digest s w x).0 ≡ ok tt
        → (b : Bytes) × (k : ℕ) × (t : B.State) × (x ≡ ok b)
          × (B.blob_write s w b ≡ (ok k, t))
          × ((B.blob_close t w).1 ≡ (encode B J F digest s w x).1)
    unfolding encode
    encode-ok s w (err e) done = absurd (ground arith)
    encode-ok s w (ok b) done = elim (Result-cases (B.blob_write s w b).0) [
      | inr (e, failed) ↦ absurd (ground arith)
      | inl (k, wrote) ↦
          (b, k, (B.blob_write s w b).1, refl, (λ i. (wrote i, (B.blob_write s w b).1)), refl)
    ]

    saved-ok :
        (st : Status)
        → let out : Status = elim st [
          | err e ↦ err (wrapped (text "json encode response head") e)
          | ok _ ↦ ok tt
        ] in
          out ≡ ok tt → st ≡ ok tt
    saved-ok (err e) done = absurd (ground arith)
    saved-ok (ok _) done = refl

    first_error-ok :
        (c : Option Error) (cb : Status) → first_error B J F digest none c cb ≡ ok tt → cb ≡ ok tt
    first_error-ok (some e) cb done = absurd (ground arith)
    first_error-ok none cb done = done

    save_meta-Saved :
        (hash : Res Str) (x : Res ℕ × Root × B.State)
        → save_meta B J F digest tee headers hash x ≡ (ok tt, r₂, s₅)
        → (w : ℕ) × (h : Str) × (x ≡ (ok w, r₂, x.2))
          × ((encode B J F digest x.2 w
                (F.encode_resp (record (tee.meta) { headers = headers; body_hash = h })))
              ≡ (ok tt, s₅))
    unfolding save_meta
    save_meta-Saved hash (err e, root, s) done = absurd (ground arith)
    save_meta-Saved (err e) (ok w, root, s) done = absurd (ground arith)
    save_meta-Saved (ok h) (ok w, root, s) done =
        let x =
          encode B J F digest s w
            (F.encode_resp (record (tee.meta) { headers = headers; body_hash = h })) in
        let fine : x.0 ≡ ok tt = saved-ok x.0 (ap (λ y. y.0) done) in
        (w, h, (λ i. (ok w, (done i).1, s)), λ i. (fine i, (done i).2))

    save_head-Saved :
        (s₃ : B.State) (r₁ : Root)
        → save_head B J F digest s₃ tee headers r₁ ≡ (ok tt, r₂, s₅)
        → Saved s₃ r₁
    unfolding save_head
    save_head-Saved s₃ r₁ done =
        let (w, h, wrote, e) = save_meta-Saved _ _ done in
        let (b, k, t, marshalled, put, closed) = encode-ok _ w _ (ap (λ x. x.0) e) in
        (
          w,
          h,
          b,
          k,
          (write B J tee.path s₃ r₁).2,
          t,
          wrote,
          marshalled,
          put,
          closed ∙ ap (λ x. x.1) e,
        )

    pub tee_close-Saved :
        (s₂ : B.State) (r₁ : Root)
        → tee_close B J F digest s₂ tee headers none r₁ ≡ (ok tt, r₂, s₅)
        → Saved (B.blob_close s₂ tee.w).1 r₁
    unfolding tee_close
    tee_close-Saved s₂ r₁ done =
        let (c, s₃) = B.blob_close s₂ tee.w in
        let x = save_head B J F digest s₃ tee headers r₁ in
        let fine = first_error-ok c x.0 (ap (λ y. y.0) done) in
        save_head-Saved s₃ r₁ (λ i. (fine i, (done i).1, (done i).2))

  write-frozen :
      (path : List Str) (s : B.State) (r : Root)
      → r.readonly ≡ true
      → write B J path s r ≡ (err read_only, r, s)
  unfolding write
  write-frozen path s r frozen = rw (frozen, write)

  -- A root that is read-only refuses the head of the request.
  put_hashed-writable :
      (req : Request) (resp : Response) (root r₁ : Root) (s s₁ : B.State) (hash body_hash : Str)
      (tee : Tee B J F digest)
      → put_hashed B J F digest resp root (ok (hash, body_hash), req, s) ≡ (ok tee, r₁, s₁)
      → root.readonly ≡ false
  unfolding put_hashed put_head write
  put_hashed-writable req resp root r₁ s s₁ hash body_hash tee done =
      elim (Bool-cases root.readonly) [
        | inr may ↦ may
        | inl frozen ↦
            let path = file_path B J F digest req hash ext_req_head in
            let e =
              ap (put_head B J F digest req resp hash body_hash)
                (write-frozen path s root frozen) in
            absurd (cc (ap (λ x. x.0) (sym e ∙ done)))
      ]

  pub put_resp-writable :
      (req req' : Request) (resp : Response) (root r₁ : Root) (s t s₁ : B.State)
      (hash body_hash : Str) (tee : Tee B J F digest)
      → gen_req_hash B J F digest s req ≡ (ok (hash, body_hash), req', t)
      → put_resp B J F digest s req resp root ≡ (ok tee, r₁, s₁)
      → root.readonly ≡ false
  unfolding put_resp
  put_resp-writable req req' resp root r₁ s t s₁ hash body_hash tee key put =
      put_hashed-writable req' resp root r₁ t s₁ hash body_hash tee
        (ap (put_hashed B J F digest resp root) (sym key) ∙ put)
