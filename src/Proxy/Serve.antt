-- ===== src/Proxy/Serve.antt =====
-- `serveWithCache`, `getAuth` and the handlers (internal/proxy/proxy.go). The server that a request
-- is sent to is a state of its own.
pub mod Readonly
pub mod Again
use httplock.Base.{
  ℕ, ◌≡◌, ◌&&◌, ◌||◌, not, Bool, true, false, Option, none, some, List, [], ◌∷◌, ◌++◌, Str, text,
  str_eq, Result, ok, err, if◌then◌else◌,
}
use httplock.Hasher.{Bytes}
use httplock.Storage.Errors.{Error, Res, Status}
use httplock.Storage.Backend.{Backend, Codec}
use httplock.Storage.Root.{Root}
use httplock.Proxy.Header.{
  Header, get, del_hop_headers, copy_header, append_host_to_x_forward_header,
}
use httplock.Proxy.Request.{Url, Body, Request, Response, Formats}
use httplock.Config.{Filter}
use httplock.Proxy.Filter.{filter_req}
use httplock.Proxy.Store.{get_resp, put_resp, tee_read, tee_close, Tee}

-- What the client of the proxy gets: "httplock is readonly" with status 502, "Server Error" with
-- status 500, or a response.
pub data Answer : Type 0 where
  readonly_failure : Answer
  server_error : Answer
  sent : ℕ → Header → Bytes → Answer

-- `http.Client.Do`, to the server and its reply.
pub record Client : Type 1 where
  pub Net : Type 0
  pub do_request : Net → Request → Res Response × Net

module _ (B : Backend) (J : Codec) (F : Formats) (digest : Bytes → Str) (C : Client) where
  -- The answer, the root, the storage and the server afterwards.
  abbrev pub Served : Type 0
  Served = Answer × Root × B.State × C.Net

  -- The response without its hop-by-hop headers.
  abbrev pub answer : Response → Answer
  answer resp = sent resp.status_code (copy_header [] (del_hop_headers resp.header)) resp.body

  -- What is read goes to the writer before the client gets it: a writer that fails ends the body.
  abbrev pub answer_read : Response → Res ℕ → Answer
  answer_read resp (ok n) = answer resp
  answer_read resp (err e) = answer (record resp { body = [] })

  -- A recorded response has no writer behind its body; one that is being recorded has.
  unfoldable pub respond : Response → Option (Tee B J F digest) → Root → B.State → C.Net → Served
  respond resp none root s net = (answer resp, root, s, net)
  respond resp (some tee) root s net =
      let (n, s') = tee_read B J F digest s tee resp.body in
      let (st, root', s'') =
        tee_close B J F digest s' tee (del_hop_headers resp.header) none root in
      (answer_read resp n, root', s'', net)

  -- An error of `storagePutResp` is only logged.
  unfoldable pub recorded : Response → Res (Tee B J F digest) × Root × B.State → C.Net → Served
  recorded resp (err e, root, s) net = respond resp none root s net
  recorded resp (ok tee, root, s) net = respond resp (some tee) root s net

  unfoldable pub fetched : Request → Root → B.State → Res Response × C.Net → Served
  fetched req root s (err e, net) = (server_error, root, s, net)
  fetched req root s (ok resp, net) = recorded resp (put_resp B J F digest s req resp root) net

  -- `req_do` is sent with the body of the request that is stored.
  unfoldable pub looked_up : Request → Res Response × Request × Root × B.State → C.Net → Served
  looked_up req_do (ok resp, req, root, s) net = respond resp none root s net
  looked_up req_do (err e, req, root, s) net =
      if root.readonly
      then (readonly_failure, root, s, net)
      else fetched req root s (C.do_request net (record req_do { body = req.body }))

  -- `serveWithCache`. The client's address is appended to a header of `req` that is read no more.
  unfoldable pub serve_with_cache : List Filter → B.State → C.Net → Request → Root → Served
  serve_with_cache filters s net req root =
      let (req_store, req_do, _) =
        filter_req F filters (record req { header = del_hop_headers req.header }) in
      looked_up req_do (get_resp B J F digest s req_store root) net
