-- ===== src/Proxy/Serve/Readonly.antt =====
-- A root that was saved is replayed: nothing is asked of a server.
use mathlib.Core.Path.{subst}
use httplock.Base.{◌≡◌, refl, ◌∙◌, sym, true, List, Str, ok, err, if◌then◌else◌}
use httplock.Hasher.{Bytes}
use httplock.Storage.Errors.{Res}
use httplock.Storage.Backend.{Backend, Codec}
use httplock.Storage.Root.{Root, read}
use httplock.Storage.Root.Frozen.{IsKept, IsKept-trans, IsKept-refl, read-IsKept}
use httplock.Proxy.Header.{del_hop_headers}
use httplock.Proxy.Request.{Request, Response, Formats}
use httplock.Config.{Filter}
use httplock.Proxy.Filter.{filter_req}
use httplock.Proxy.Store.{get_resp, read_resp, gen_req_hash, file_path, ext_resp_head, read_body}
use package.httplock.Proxy.Serve.{
  Client, Answer, readonly_failure, answer, respond, fetched, looked_up, serve_with_cache, Served,
}

module _ (B : Backend) (J : Codec) (F : Formats) (digest : Bytes → Str) where
  read_body-IsKept :
      (req : Request) (hash : Str) (root : Root) (head : Res Bytes) (root' : Root) (s : B.State)
      → IsKept root root'
      → IsKept root (read_body B J F digest req hash (head, root', s)).1
  unfolding read_body
  read_body-IsKept req hash root (err e) root' s kept = kept
  read_body-IsKept req hash root (ok head) root' s kept =
      IsKept-trans root root' _ kept (read-IsKept B J _ s root')

  read_resp-IsKept :
      (key : Res (Str × Str)) (req : Request) (s : B.State) (root : Root)
      → IsKept root (read_resp B J F digest (key, req, s) root).2
  unfolding read_resp
  read_resp-IsKept (err e) req s root = IsKept-refl root
  read_resp-IsKept (ok (hash, body_hash)) req s root =
      let path = file_path B J F digest req hash ext_resp_head in
      let (head, root', s') = read B J path s root in
      read_body-IsKept req hash root head root' s' (read-IsKept B J path s root)

  get_resp-IsKept :
      (s : B.State) (req : Request) (root : Root) → IsKept root (get_resp B J F digest s req root).2
  unfolding get_resp
  get_resp-IsKept s req root =
      let (key, req', s') = gen_req_hash B J F digest s req in read_resp-IsKept key req' s' root

module _ (B : Backend) (J : Codec) (F : Formats) (digest : Bytes → Str) (C : Client) where
  abbrev replay : Res Response → Answer
  replay (ok resp) = answer B J F digest C resp
  replay (err e) = readonly_failure

  -- The server is not asked, the root stays read-only with its hash, and the answer is the response
  -- that was recorded, or else the failure of a read-only root.
  pub record Replayed (net : C.Net) (root : Root) (got : Res Response)
      (served : Served B J F digest C) : Type 0 where
    pub unasked : served.3 ≡ net
    pub kept : IsKept root served.1
    pub answered : served.0 ≡ replay got

  looked_up-Replayed :
      (net : C.Net) (root : Root) (req_do req : Request) (got : Res Response) (root' : Root)
      (s : B.State)
      → root.readonly ≡ true
      → IsKept root root'
      → Replayed net root got (looked_up B J F digest C req_do (got, req, root', s) net)
  unfolding looked_up respond
  looked_up-Replayed net root req_do req (ok resp) root' s frozen kept = record {
    unasked = refl;
    kept = kept;
    answered = refl;
  }
  looked_up-Replayed net root req_do req (err e) root' s frozen kept =
      subst
        (λ b. Replayed net root (err e) (
          if b
          then (readonly_failure, root', s, net)
          else fetched B J F digest C req root' s
              (C.do_request net (record req_do { body = req.body }))))
        (sym (kept.readonly_kept ∙ frozen))
        (record { unasked = refl; kept = kept; answered = refl })

  -- With a root that is read-only, whatever the request and the filters, the server is not asked,
  -- the root stays read-only with its hash, and the answer is the response that was recorded for
  -- the filtered request, or else the failure of a read-only root.
  pub serve-Replayed :
      (filters : List Filter) (s : B.State) (net : C.Net) (req : Request) (root : Root)
      → root.readonly ≡ true
      → Replayed net root
          (get_resp B J F digest s
            (filter_req F filters (record req { header = del_hop_headers req.header })).0
            root).0
          (serve_with_cache B J F digest C filters s net req root)
  unfolding serve_with_cache
  serve-Replayed filters s net req root frozen =
      let (req_store, req_do, _) =
        filter_req F filters (record req { header = del_hop_headers req.header }) in
      let (got, req', root', s') = get_resp B J F digest s req_store root in
      looked_up-Replayed net root req_do req' got root' s' frozen
        (get_resp-IsKept B J F digest s req_store root)
