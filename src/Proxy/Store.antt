-- ===== src/Proxy/Store.antt =====
-- internal/proxy/storage.go and reader.go: requests and responses as files of a root. A copy of a
-- whole body is one read and one write of all its bytes.
pub mod Key
pub mod Recorded
pub mod Hashed
pub mod Kept
pub mod Replay
use httplock.Base.{ℕ, ◌≡◌, Option, none, some, List, [], ◌∷◌, ◌++◌, Str, text, Result, ok, err}
use httplock.Base.Dict.{Dict}
use httplock.Hasher.{Bytes}
use httplock.Storage.Errors.{Error, Res, Status, wrapped}
use httplock.Storage.Backend.{Backend, Codec}
use httplock.Storage.Root.{Root, read, write, link}
use httplock.Proxy.Header.{Header, included, add_all}
use httplock.Proxy.Request.{
  Url, Body, stream, stored, Request, Response, MetaReq, MetaResp, Formats,
}

abbrev pub ext_req_head : Str
ext_req_head = text "-req-head"

abbrev pub ext_req_body : Str
ext_req_body = text "-req-body"

abbrev pub ext_resp_head : Str
ext_resp_head = text "-resp-head"

abbrev pub ext_resp_body : Str
ext_resp_body = text "-resp-body"

-- `resp.Header.Add` of each value, of each name, into an empty header.
unfoldable pub header_of : Header → Header → Header
header_of dst [] = dst
header_of dst ((k, vv) ∷ h) = header_of (add_all k vv dst) h

module _ (B : Backend) (J : Codec) (F : Formats) (digest : Bytes → Str) where
  -- `storageGenDirPath`
  unfoldable pub gen_dir_path : Request → List Str
  gen_dir_path req = req.url.host ∷ F.url_string (record (req.url) { raw_query = [] }) ∷ []

  -- `append(dirElems, reqHash+ext)`
  abbrev pub file_path : Request → Str → Str → List Str
  file_path req hash ext = gen_dir_path req ++ ((hash ++ ext) ∷ [])

  -- The blob that was written is closed, and has to open under its hash.
  unfoldable pub opened : B.State → Res Str → Res Str × B.State
  opened s (err e) = (err e, s)
  opened s (ok hash) = elim (B.blob_open s hash) [ err e ↦ (err e, s) | ok b ↦ (ok hash, s) ]

  unfoldable pub closed : ℕ → Option Error × B.State → Res Str × B.State
  unfolding opened
  closed w (some e, s) = (err e, s)
  closed w (none, s) = opened s (B.blob_hash s w)

  unfoldable pub copied : ℕ → Res ℕ × B.State → Res Str × B.State
  unfolding closed
  copied w (err e, s) = (err e, s)
  copied w (ok n, s) = closed w (B.blob_close s w)

  -- The copy of a body, which is then closed: the result is an error when either fails.
  unfoldable pub copy_into : Res Bytes → Res ℕ × B.State → Res Str × B.State
  unfolding copied
  copy_into b (err e, s) = (err e, s)
  copy_into (err e) (ok w, s) = (err e, s)
  copy_into (ok b) (ok w, s) = copied w (B.blob_write s w b)

  abbrev pub get_body : Res Bytes → Res Bytes
  get_body (err e) = err (wrapped (text "getBody") e)
  get_body (ok b) = ok b

  abbrev pub source : Res Bytes → Option (Res Bytes) → Res Bytes
  source r none = r
  source r (some again) = get_body again

  -- `hashItems`
  abbrev pub hash_items : Request → Str → MetaReq
  hash_items req body_hash = record {
    proto = req.proto;
    method = req.method;
    user = req.url.user;
    query = F.encode_query req.url.raw_query;
    headers = included req.header;
    content_len = req.content_length;
    body_hash = body_hash;
  }

  -- The hash of the request and that of its body.
  unfoldable pub hash_request : Request → Str → Res (Str × Str)
  hash_request req body_hash = elim (F.marshal_req (hash_items req body_hash)) [
    | err e ↦ err (wrapped (text "json marshal") e)
    | ok j ↦ ok (digest j, body_hash)
  ]

  abbrev pub with_body : Request → Str → Request
  with_body req hash = record req { body = stored hash }

  unfoldable pub hash_copied : Request → Res Str × B.State → Res (Str × Str) × Request × B.State
  hash_copied req (err e, s) = (err e, req, s)
  hash_copied req (ok hash, s) = (hash_request (with_body req hash) hash, with_body req hash, s)

  -- `storageGenReqHash`: afterwards the body of the request is read from its blob.
  unfoldable pub gen_req_hash : B.State → Request → Res (Str × Str) × Request × B.State
  unfolding copy_into
  gen_req_hash s req = elim req.body [
    | stored hash ↦ (hash_request req hash, req, s)
    | stream r again ↦ hash_copied req (copy_into (source r again) (B.blob_create s))
  ]

  -- A status code that is missing or 0 leaves the field 0.
  abbrev pub response_of : MetaResp → Bytes → Response
  response_of meta b = record {
    status_code = meta.status_code;
    header = header_of [] meta.headers;
    content_length = meta.content_len;
    body = b;
  }

  abbrev decoded : Bytes → Res MetaResp → Res Response
  decoded b (err e) = err e
  decoded b (ok meta) = ok (response_of meta b)

  unfoldable pub read_body :
      Request → Str → Res Bytes × Root × B.State → Res Response × Root × B.State
  read_body req hash (err e, root, s) = (err e, root, s)
  read_body req hash (ok head, root, s) =
      let (body, root', s') = read B J (file_path req hash ext_resp_body) s root in
      (elim body [ err e ↦ err e | ok b ↦ decoded b (F.unmarshal_resp head) ], root', s')

  unfoldable pub read_resp :
      Res (Str × Str) × Request × B.State → Root → Res Response × Request × Root × B.State
  unfolding read_body
  read_resp (err e, req, s) root = (err e, req, root, s)
  read_resp (ok (hash, body_hash), req, s) root =
      let (resp, root', s') =
        read_body req hash (read B J (file_path req hash ext_resp_head) s root) in
      (resp, req, root', s')

  -- `storageGetResp`
  unfoldable pub get_resp : B.State → Request → Root → Res Response × Request × Root × B.State
  get_resp s req root = read_resp (gen_req_hash s req) root

  -- `json.NewEncoder(bw).Encode(…)`, and the writer closed whatever comes of it.
  unfoldable pub encode : B.State → ℕ → Res Bytes → Status × B.State
  encode s w (err e) = (err e, (B.blob_close s w).1)
  encode s w (ok b) =
      let (n, s') = B.blob_write s w b in
      (elim n [ err e ↦ err e | ok k ↦ ok tt ], (B.blob_close s' w).1)

  -- The reader that takes the place of the response's body: the writer that gets what is read, and
  -- what its `Close` records.
  pub record Tee : Type 0 where
    pub w : ℕ
    pub path : List Str
    pub meta : MetaResp

  abbrev pub Put : Type 0
  Put = Res Tee × Root × B.State

  put_body : Request → Response → Str → Status × Root × B.State → Put
  put_body req resp hash (err e, root, s) =
      (err (wrapped (text "root link for req body") e), root, s)
  put_body req resp hash (ok _, root, s) =
      let (w, root', s') = write B J (file_path req hash ext_resp_body) s root in
      (
        elim w [
          | err e ↦ err (wrapped (text "root write for resp body") e)
          | ok w ↦ ok (record {
            w = w;
            path = file_path req hash ext_resp_head;
            meta = record {
              status_code = resp.status_code;
              headers = resp.header;
              content_len = resp.content_length;
              body_hash = [];
            };
          })
        ],
        root',
        s',
      )

  put_link : Request → Response → Str → Str → Root → Status × B.State → Put
  unfolding put_body
  put_link req resp hash body_hash root (err e, s) =
      (err (wrapped (text "json encode req") e), root, s)
  put_link req resp hash body_hash root (ok _, s) =
      put_body req resp hash (link B J (file_path req hash ext_req_body) body_hash s root)

  -- `metaReq`: all headers of the request.
  abbrev pub meta_req : Request → Str → MetaReq
  meta_req req body_hash = record (hash_items req body_hash) { headers = req.header }

  put_head : Request → Response → Str → Str → Res ℕ × Root × B.State → Put
  unfolding put_link
  put_head req resp hash body_hash (err e, root, s) =
      (err (wrapped (text "root write for req head") e), root, s)
  put_head req resp hash body_hash (ok w, root, s) =
      put_link req resp hash body_hash root (encode s w (F.encode_req (meta_req req body_hash)))

  unfoldable pub put_hashed : Response → Root → Res (Str × Str) × Request × B.State → Put
  unfolding put_head
  put_hashed resp root (err e, req, s) = (err (wrapped (text "generating req hash") e), root, s)
  put_hashed resp root (ok (hash, body_hash), req, s) =
      put_head req resp hash body_hash (write B J (file_path req hash ext_req_head) s root)

  -- `storagePutResp`
  unfoldable pub put_resp : B.State → Request → Response → Root → Put
  put_resp s req resp root = put_hashed resp root (gen_req_hash s req)

  -- What a `teeReadCloser` reads goes to its writer.
  abbrev pub tee_read : B.State → Tee → Bytes → Res ℕ × B.State
  tee_read s tee b = B.blob_write s tee.w b

  save_meta : Tee → Header → Res Str → Res ℕ × Root × B.State → Status × Root × B.State
  save_meta tee headers hash (err e, root, s) =
      (err (wrapped (text "root write for resp head") e), root, s)
  save_meta tee headers (err e) (ok w, root, s) =
      (err (wrapped (text "extracting response body hash") e), root, s)
  save_meta tee headers (ok hash) (ok w, root, s) =
      let meta = record (tee.meta) { headers = headers; body_hash = hash } in
      let (st, s') = encode s w (F.encode_resp meta) in
      (
        elim st [ err e ↦ err (wrapped (text "json encode response head") e) | ok _ ↦ ok tt ],
        root,
        s',
      )

  -- The head of the response, with the hash of its body. The map of its headers is shared with the
  -- response, so `headers` are those that it has by then.
  unfoldable pub save_head : B.State → Tee → Header → Root → Status × Root × B.State
  unfolding save_meta
  save_head s tee headers root =
      let (w, root', s') = write B J tee.path s root in
      save_meta tee headers (B.blob_hash s' tee.w) (w, root', s')

  -- The first error of the three.
  abbrev first_error : Option Error → Option Error → Status → Status
  first_error (some e) w cb = err e
  first_error none (some e) cb = err e
  first_error none none cb = cb

  -- `teeReadCloser.Close`; `r` is the error of closing the body itself.
  unfoldable pub tee_close : B.State → Tee → Header → Option Error → Root → Status × Root × B.State
  tee_close s tee headers r root =
      let (closed, s') = B.blob_close s tee.w in
      let (cb, root', s'') = save_head s' tee headers root in (first_error r closed cb, root', s'')
