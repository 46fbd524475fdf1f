-- ===== src/Proxy/Store/Kept.antt =====
-- The files of a recorded response: their writers in the tree, their blobs, and what is read of them.
use mathlib.Core.List.{append_cancel_left}
use mathlib.Core.Path.{subst}
use httplock.Base.{
  ℕ, ◌≡◌, ◌≢◌, refl, sym, ◌∙◌, ap, true, false, List, [], ◌++◌, Str, str_eq, ne_of_str_eq, ok,
}
use httplock.Hasher.{Bytes}
use httplock.Storage.Backend.{Backend, Codec, IsReliable, push}
use httplock.Storage.Backend.Steps.{push-first}
use httplock.Storage.Tree.{Dir}
use httplock.Storage.Root.{Root, read, read_at, write, write_at, get_dir}
use httplock.Storage.Root.Ends.{RootEndsAt}
use httplock.Storage.Root.Written.{
  HasWriter, Writing, write-created, write-Writing, write-Writing_both, read-HasWriter,
}
use httplock.Proxy.Header.{Header}
use httplock.Proxy.Request.{Request, Response, MetaResp, Formats}
use package.httplock.Proxy.Store.{
  file_path, gen_dir_path, gen_req_hash, get_resp, read_resp, read_body, header_of, ext_resp_body,
  ext_resp_head,
}
use package.httplock.Proxy.Store.Recorded.{write-writable, write-file, read-file}

ext-differ : (hash : Str) → (hash ++ ext_resp_head) ≢ (hash ++ ext_resp_body)
unfolding str_eq
ext-differ hash e =
    ne_of_str_eq ext_resp_head ext_resp_body refl
      (append_cancel_left hash ext_resp_head ext_resp_body e)

abbrev pub replayed : MetaResp → Bytes → Response
replayed meta body = record {
  status_code = meta.status_code;
  header = header_of [] meta.headers;
  content_length = meta.content_len;
  body = body;
}

module _ (B : Backend) (J : Codec) (F : Formats) (digest : Bytes → Str) where
  module _ (req : Request) (hash : Str) where
    abbrev folder : List Str
    folder = gen_dir_path B J F digest req

    abbrev body_name : Str
    body_name = hash ++ ext_resp_body

    abbrev head_name : Str
    head_name = hash ++ ext_resp_head

    -- Both files are being written in the directory of the request.
    abbrev pub Both : Root → ℕ → ℕ → Type 0
    Both r v w =
        (end : Dir) × RootEndsAt folder r end
        × HasWriter end body_name v
        × HasWriter end head_name w

    module _ (ext : Str) (s s' : B.State) (r r' : Root) (w : ℕ) where
      abbrev pub Writes : Type 0
      Writes = write B J (file_path B J F digest req hash ext) s r ≡ (ok w, r', s')

      writes-get_dir :
          Writes → get_dir B J true folder (write_at B J (hash ++ ext)) s r ≡ (ok w, r', s')
      writes-get_dir wrote =
          sym (
            write-file B J F digest req hash ext s r (
              write-writable B J F digest (file_path B J F digest req hash ext) s r w
                (ap (λ x. x.0) wrote)))
          ∙ wrote

      pub writes-created : Writes → B.blob_create s ≡ (ok w, s')
      writes-created wrote =
          let e = writes-get_dir wrote in
          write-created B J folder (hash ++ ext) s r w (ap (λ x. x.0) e) ∙ ap (λ x. (ok w, x.2)) e

      pub writes-Writing : Writes → Writing B J folder r' (hash ++ ext) w
      writes-Writing wrote =
          let e = writes-get_dir wrote in
          subst (λ x. Writing B J folder x.1 (hash ++ ext) w) e
            (write-Writing B J folder (hash ++ ext) s r w (ap (λ x. x.0) e))

    pub writes-Both :
        (s s' : B.State) (r r' : Root) (v w : ℕ)
        → Writing B J folder r body_name v
        → Writes ext_resp_head s s' r r' w
        → Both r' v w
    writes-Both s s' r r' v w writing wrote =
        let e = writes-get_dir ext_resp_head s s' r r' w wrote in
        subst (λ x. Both x.1 v w) e
          (write-Writing_both B J folder body_name head_name s r v w
            (write-writable B J F digest (file_path B J F digest req hash ext_resp_head) s r w
              (ap (λ x. x.0) wrote))
            (ext-differ hash) writing (ap (λ x. x.0) e))

    get_resp-read :
        (body_hash : Str) (s₀ s : B.State) (req₀ : Request) (r r' : Root) (b body : Bytes)
        (meta : MetaResp)
        → gen_req_hash B J F digest s₀ req₀ ≡ (ok (hash, body_hash), req, s)
        → read B J (file_path B J F digest req hash ext_resp_head) s r ≡ (ok b, r', s)
        → (read B J (file_path B J F digest req hash ext_resp_body) s r').0 ≡ ok body
        → F.unmarshal_resp b ≡ ok meta
        → (get_resp B J F digest s₀ req₀ r).0 ≡ ok (replayed meta body)
    unfolding get_resp read_resp read_body
    get_resp-read body_hash s₀ s req₀ r r' b body meta key head there decoded =
        rw (key, read_resp) (rw (head, read_body) (rw there (rw decoded)))

    abbrev pub meta_of : Response → Header → Str → MetaResp
    meta_of resp headers h = record {
      status_code = resp.status_code;
      headers = headers;
      content_len = resp.content_length;
      body_hash = h;
    }

    -- Both files have been written: what the storage has for them, and what the head says.
    pub record Kept (resp : Response) (headers : Header) (s : B.State) (r : Root) : Type 0 where
      pub v : ℕ
      pub w : ℕ
      pub h : Str
      pub b : Bytes
      pub both : Both r v w
      pub hashed_body : B.blob_hash s v ≡ ok (digest resp.body)
      pub hashed_head : B.blob_hash s w ≡ ok (digest b)
      pub opens_body : B.blob_open s (digest resp.body) ≡ ok resp.body
      pub opens_head : B.blob_open s (digest b) ≡ ok b
      pub head : F.encode_resp (meta_of resp headers h) ≡ ok b

    -- `storageGetResp` once the writers are closed.
    pub get_resp-Kept :
        (body_hash : Str) (s₀ s : B.State) (req₀ : Request) (r : Root) (resp : Response)
        (headers : Header)
        → gen_req_hash B J F digest s₀ req₀ ≡ (ok (hash, body_hash), req, s)
        → (K : Kept resp headers s r) → ((b : Bytes) → digest b ≢ [])
        → F.unmarshal_resp K.b ≡ ok (meta_of resp headers K.h)
        → (get_resp B J F digest s₀ req₀ r).0 ≡ ok (replayed (meta_of resp headers K.h) resp.body)
    get_resp-Kept body_hash s₀ s req₀ r resp headers key K filled decoded =
        let (end, ends, has_body, has_head) = K.both in
        let X = get_dir B J false folder (read_at B J head_name) s r in
        let (head, kept, rest) =
          read-HasWriter B J folder head_name s r end K.w (digest K.b) ends has_head K.hashed_head
            (filled K.b) in
        let (end', ends', has') = rest body_name K.v (ext-differ hash) has_body in
        let (again, kept', rest') =
          read-HasWriter B J folder body_name s X.1 end' K.v (digest resp.body) ends' has'
            K.hashed_body (filled resp.body) in
        get_resp-read body_hash s₀ s req₀ r X.1 K.b resp.body (meta_of resp headers K.h) key
          (read-file B J F digest req hash ext_resp_head s r ∙ λ i.
            ((head ∙ K.opens_head) i, X.1, kept i))
          (ap (λ x. x.0) (read-file B J F digest req hash ext_resp_body s X.1)
            ∙ again
            ∙ K.opens_body)
          decoded

    -- A blob that is pushed afterwards leaves them.
    pub push-Kept :
        (R : IsReliable digest B) (s : B.State) (r : Root) (resp : Response) (headers : Header)
        (c : Bytes) (K : Kept resp headers s r)
        → (digest c ≡ digest resp.body → c ≡ resp.body)
        → (digest c ≡ digest K.b → c ≡ K.b)
        → Kept resp headers (push B s [] c).2 r
    push-Kept R s r resp headers c K apart apart_head = record {
      v = K.v;
      w = K.w;
      h = K.h;
      b = K.b;
      both = K.both;
      hashed_body = R.push_keeps_hash s [] c K.v K.hashed_body;
      hashed_head = R.push_keeps_hash s [] c K.w K.hashed_head;
      opens_body = push-first digest B R s resp.body c K.opens_body apart;
      opens_head = push-first digest B R s K.b c K.opens_head apart_head;
      head = K.head;
    }
