-- ===== src/Proxy/Store/Key.antt =====
-- The key that a request is stored under.
use httplock.Base.{
  ◌≡◌, refl, ◌∙◌, sym, ap, false, List, [], ◌∷◌, Str, text, str_eq, str_eq_iff, ok, err, arith,
}
use httplock.Base.Dict.{insert}
use httplock.Hasher.{Bytes}
use httplock.Storage.Errors.{Res, wrapped}
use httplock.Storage.Backend.{Backend, Codec}
use httplock.Proxy.Header.{
  Header, included, include_header, append_host_to_x_forward_header, canonical,
}
use httplock.Proxy.Request.{Body, stream, stored, Request, Formats}
use package.httplock.Proxy.Store.{gen_req_hash, hash_items, hash_request, hash_copied}

included-insert :
    (k : Str) (vv : List Str) (h : Header)
    → include_header k ≡ false
    → included (insert k vv h) ≡ included h
unfolding included insert
included-insert k vv [] out = rw (out)
included-insert k vv ((j, w) ∷ h) out =
    ground (arith, str_eq_iff j k, included-insert k vv h out, out)

included-forwarded :
    (h : Header) (host : Str) → included (append_host_to_x_forward_header h host) ≡ included h
unfolding append_host_to_x_forward_header include_header canonical str_eq
included-forwarded h host = included-insert (text "X-Forwarded-For") _ h refl

module _ (B : Backend) (J : Codec) (F : Formats) (digest : Bytes → Str) where
  abbrev keyed : Str → Res Bytes → Res (Str × Str)
  keyed hash (err e) = err (wrapped (text "json marshal") e)
  keyed hash (ok j) = ok (digest j, hash)

  hash_request-same :
      (req : Request) (h : Header) (hash : Str)
      → included h ≡ included req.header
      → hash_request B J F digest (record req { header = h }) hash
        ≡ hash_request B J F digest req hash
  unfolding hash_request
  hash_request-same req h hash same =
      ap
        (λ z.
          keyed hash (F.marshal_req (record (hash_items B J F digest req hash) { headers = z })))
        same

  hash_copied-same :
      (req : Request) (h : Header) (res : Res Str × B.State)
      → included h ≡ included req.header
      → (hash_copied B J F digest (record req { header = h }) res).0
        ≡ (hash_copied B J F digest req res).0
  unfolding hash_copied
  hash_copied-same req h (err e, s) same = refl
  hash_copied-same req h (ok hash, s) same =
      hash_request-same (record req { body = stored hash }) h hash same

  gen_req_hash-same :
      (s : B.State) (body : Body) (req : Request) (h : Header)
      → included h ≡ included req.header
      → (gen_req_hash B J F digest s (record req { header = h; body = body })).0
        ≡ (gen_req_hash B J F digest s (record req { body = body })).0
  unfolding gen_req_hash
  gen_req_hash-same s (stored hash) req h same =
      hash_request-same (record req { body = stored hash }) h hash same
  gen_req_hash-same s (stream r again) req h same =
      hash_copied-same (record req { body = stream r again }) h _ same

  -- The address of the client, appended to X-Forwarded-For, does not count for the key of a
  -- request.
  pub gen_req_hash-forwarded :
      (s : B.State) (req : Request) (host : Str)
      → (gen_req_hash B J F digest s
          (record req { header = append_host_to_x_forward_header req.header host })).0
        ≡ (gen_req_hash B J F digest s req).0
  gen_req_hash-forwarded s req host =
      gen_req_hash-same s req.body req (append_host_to_x_forward_header req.header host)
        (included-forwarded req.header host)

  hash_copied-again :
      (req req' : Request) (res : Res Str × B.State) (key : Str × Str) (s' t : B.State)
      → hash_copied B J F digest req res ≡ (ok key, req', s')
      → gen_req_hash B J F digest t req' ≡ (ok key, req', t)
  unfolding hash_copied gen_req_hash
  hash_copied-again req req' (err e, s) key s' t done = absurd (ground arith)
  hash_copied-again req req' (ok hash, s) key s' t done =
      let same : record req { body = stored hash } ≡ req' = λ i. (done i).1 in
      ap (λ z. gen_req_hash B J F digest t z) (sym same) ∙ λ i. ((done i).0, same i, t)

  gen_req_hash-body :
      (s t s' : B.State) (body : Body) (req req' : Request) (key : Str × Str)
      → gen_req_hash B J F digest s (record req { body = body }) ≡ (ok key, req', s')
      → gen_req_hash B J F digest t req' ≡ (ok key, req', t)
  unfolding gen_req_hash
  gen_req_hash-body s t s' (stored hash) req req' key done =
      let same : record req { body = stored hash } ≡ req' = λ i. (done i).1 in
      ap (λ z. gen_req_hash B J F digest t z) (sym same) ∙ λ i. ((done i).0, same i, t)
  gen_req_hash-body s t s' (stream r again) req req' key done =
      hash_copied-again (record req { body = stream r again }) req' _ key s' t done

  -- Once a request has been given a key, asking again, in any state of the storage, gives the same
  -- key, and changes neither the request nor the storage: the body is not read a second time.
  pub gen_req_hash-again :
      (s t s' : B.State) (req req' : Request) (key : Str × Str)
      → gen_req_hash B J F digest s req ≡ (ok key, req', s')
      → gen_req_hash B J F digest t req' ≡ (ok key, req', t)
  gen_req_hash-again s t s' req req' key done = gen_req_hash-body s t s' req.body req req' key done
