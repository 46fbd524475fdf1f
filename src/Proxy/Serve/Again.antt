-- ===== src/Proxy/Serve/Again.antt =====
-- A request that was sent on and recorded is asked again: it is answered from the root.
use mathlib.Core.Path.{subst}
use httplock.Base.{
  ℕ, ◌≡◌, ◌≢◌, refl, sym, ◌∙◌, ap, false, Option, none, List, ◌∷◌, [], Str, ok, err,
}
use httplock.Hasher.{Bytes}
use httplock.Storage.Errors.{Error, Res}
use httplock.Storage.Backend.{Backend, Codec, IsReliable}
use httplock.Storage.Root.{Root}
use httplock.Config.{Filter}
use httplock.Proxy.Header.{Header, del_hop_headers, copy_header, add_all}
use httplock.Proxy.Header.Laws.{IsHeader}
use httplock.Proxy.Header.Copies.{
  IsFull, copy_header-same, del_hop_headers-good, del_hop_headers-twice,
}
use httplock.Proxy.Request.{stream, Request, Response, Formats}
use httplock.Proxy.Filter.{filter_req}
use httplock.Proxy.Store.{
  Tee, gen_req_hash, source, put_resp, tee_read, tee_close, get_resp, header_of,
}
use httplock.Proxy.Store.Key.{gen_req_hash-again}
use httplock.Proxy.Store.Hashed.{gen_req_hash-Stored}
use httplock.Proxy.Store.Recorded.{put_resp-writable}
use httplock.Proxy.Store.Kept.{Kept, push-Kept, get_resp-Kept}
use httplock.Proxy.Store.Replay.{put_resp-Kept}
use package.httplock.Proxy.Serve.{
  Client, Answer, server_error, sent, answer, answer_read, respond, recorded, fetched, looked_up,
  serve_with_cache, Served,
}

header_of-copies : (dst h : Header) → header_of dst h ≡ copy_header dst h
unfolding header_of copy_header
header_of-copies dst [] = refl
header_of-copies dst ((k, vv) ∷ h) = header_of-copies (add_all k vv dst) h

module _ (B : Backend) (J : Codec) (F : Formats) (digest : Bytes → Str) (C : Client) where
  abbrev serve : List Filter → B.State → C.Net → Request → Root → Served B J F digest C
  serve = serve_with_cache B J F digest C

  -- The requests that are looked up and sent on.
  abbrev pub filtered : List Filter → Request → Request × Request × Request
  filtered filters req = filter_req F filters (record req { header = del_hop_headers req.header })

  abbrev answer_of : Res Response → Answer
  answer_of (ok resp) = answer B J F digest C resp
  answer_of (err e) = server_error

  -- The headers of a recorded response are shown as those of the response were.
  answer-same :
      (resp : Response)
      → IsHeader resp.header
      → IsFull resp.header
      → answer B J F digest C (record resp { header = header_of [] (del_hop_headers resp.header) })
        ≡ answer B J F digest C resp
  answer-same resp good full =
      let D = del_hop_headers resp.header in
      let (good', full') = del_hop_headers-good resp.header good full in
      ap (λ z. sent resp.status_code (copy_header [] (del_hop_headers z)) resp.body)
        (header_of-copies [] D ∙ copy_header-same D good' full')
      ∙ ap (λ z. sent resp.status_code (copy_header [] z) resp.body)
          (del_hop_headers-twice resp.header)

  looked_up-hit :
      (req_do : Request) (net : C.Net) (resp : Response)
      (x : Res Response × Request × Root × B.State)
      → x.0 ≡ ok resp
      → ((looked_up B J F digest C req_do x net).0 ≡ answer B J F digest C resp)
        × ((looked_up B J F digest C req_do x net).3 ≡ net)
  unfolding looked_up respond
  looked_up-hit req_do net resp (ok got, req, root, s) found = (ap answer_of found, refl)
  looked_up-hit req_do net resp (err e, req, root, s) found = absurd (cc found)

  looked_up-miss :
      (req_do req : Request) (net : C.Net) (e : Error) (root : Root) (s : B.State)
      → root.readonly ≡ false
      → looked_up B J F digest C req_do (err e, req, root, s) net
        ≡ fetched B J F digest C req root s (C.do_request net (record req_do { body = req.body }))
  unfolding looked_up
  looked_up-miss req_do req net e root s writable = rw (writable)

  fetched-ok :
      (req : Request) (root r₁ r₂ : Root) (t s₁ s₂ s₅ : B.State) (net' : C.Net) (resp : Response)
      (tee : Tee B J F digest) (n : ℕ)
      → put_resp B J F digest t req resp root ≡ (ok tee, r₁, s₁)
      → tee_read B J F digest s₁ tee resp.body ≡ (ok n, s₂)
      → tee_close B J F digest s₂ tee (del_hop_headers resp.header) none r₁ ≡ (ok tt, r₂, s₅)
      → fetched B J F digest C req root t (ok resp, net')
        ≡ (answer B J F digest C resp, r₂, s₅, net')
  unfolding fetched recorded respond
  fetched-ok req root r₁ r₂ t s₁ s₂ s₅ net' resp tee n put read closed =
      ap (λ x. recorded B J F digest C resp x net') put
      ∙ ap
          (λ x. (
            answer_read B J F digest C resp x.0,
            (tee_close B J F digest x.1 tee (del_hop_headers resp.header) none r₁).1,
            (tee_close B J F digest x.1 tee (del_hop_headers resp.header) none r₁).2,
            net',
          ))
          read
      ∙ ap (λ x. (answer B J F digest C resp, x.1, x.2, net')) closed

  serve-recorded :
      (filters : List Filter) (s t₀ t s₁ s₂ s₅ : B.State) (net net' : C.Net) (req q : Request)
      (root root' r₁ r₂ : Root) (e : Error) (resp : Response) (tee : Tee B J F digest) (n : ℕ)
      (hash body_hash : Str)
      → gen_req_hash B J F digest s (filtered filters req).0 ≡ (ok (hash, body_hash), q, t₀)
      → get_resp B J F digest s (filtered filters req).0 root ≡ (err e, q, root', t)
      → C.do_request net (record (filtered filters req).1 { body = q.body }) ≡ (ok resp, net')
      → put_resp B J F digest t q resp root' ≡ (ok tee, r₁, s₁)
      → tee_read B J F digest s₁ tee resp.body ≡ (ok n, s₂)
      → tee_close B J F digest s₂ tee (del_hop_headers resp.header) none r₁ ≡ (ok tt, r₂, s₅)
      → serve filters s net req root ≡ (answer B J F digest C resp, r₂, s₅, net')
  unfolding serve_with_cache
  serve-recorded filters s t₀ t s₁ s₂ s₅ net net' req q root root' r₁ r₂ e resp tee n hash body_hash
        key miss asked put read closed =
      let req_do = (filtered filters req).1 in
      let key' =
        gen_req_hash-again B J F digest s t t₀ (filtered filters req).0 q (hash, body_hash) key in
      ap (λ x. looked_up B J F digest C req_do x net) miss
      ∙ looked_up-miss req_do q net e root' t
          (put_resp-writable B J F digest q q resp root' r₁ t t s₁ hash body_hash tee key' put)
      ∙ ap (fetched B J F digest C q root' t) asked
      ∙ fetched-ok q root' r₁ r₂ t s₁ s₂ s₅ net' resp tee n put read closed

  -- In a storage that is reliable, when serveWithCache has not found a request whose body is a
  -- stream that can be read, the server has answered with headers whose names are canonical and
  -- distinct and each have a value, the response has been recorded, and its body was read and
  -- closed without an error, then the client gets that response, and the same request, if its key
  -- can be taken again, gets the same answer, and the server is not asked a second time; provided
  -- that no digest is empty, that JSON gives the head back, and that of the body of the request,
  -- the body of the response and the head no two that differ share a digest.
  pub serve-again :
      (R : IsReliable digest B) (filters : List Filter) (s t₀ t s₁ s₂ s₅ s₆ : B.State)
      (net net' : C.Net) (req q q' : Request) (root root' r₁ r₂ : Root) (e : Error)
      (resp : Response) (tee : Tee B J F digest) (n : ℕ) (r : Res Bytes)
      (again : Option (Res Bytes)) (c : Bytes) (key key' : Str × Str)
      → (filtered filters req).0.body ≡ stream r again
      → source B J F digest r again ≡ ok c
      → gen_req_hash B J F digest s (filtered filters req).0 ≡ (ok key, q, t₀)
      → get_resp B J F digest s (filtered filters req).0 root ≡ (err e, q, root', t)
      → C.do_request net (record (filtered filters req).1 { body = q.body }) ≡ (ok resp, net')
      → put_resp B J F digest t q resp root' ≡ (ok tee, r₁, s₁)
      → tee_read B J F digest s₁ tee resp.body ≡ (ok n, s₂)
      → tee_close B J F digest s₂ tee (del_hop_headers resp.header) none r₁ ≡ (ok tt, r₂, s₅)
      → gen_req_hash B J F digest s₅ (filtered filters req).0 ≡ (ok key', q', s₆)
      → IsHeader resp.header
      → IsFull resp.header
      → ((b : Bytes) → digest b ≢ [])
      → (digest c ≡ digest resp.body → c ≡ resp.body)
      → ((h : Str) (b : Bytes)
          → F.encode_resp (record {
            status_code = resp.status_code;
            headers = del_hop_headers resp.header;
            content_len = resp.content_length;
            body_hash = h;
          })
            ≡ ok b
          → (F.unmarshal_resp b
              ≡ ok (record {
                status_code = resp.status_code;
                headers = del_hop_headers resp.header;
                content_len = resp.content_length;
                body_hash = h;
              }))
            × (digest b ≡ digest resp.body → b ≡ resp.body)
            × (digest c ≡ digest b → c ≡ b))
      → let first = serve filters s net req root in
        let second = serve filters first.2 first.3 req first.1 in
        (first.0 ≡ answer B J F digest C resp)
        × (first.3 ≡ net')
        × (second.0 ≡ first.0)
        × (second.3 ≡ first.3)
  unfolding serve_with_cache
  serve-again R filters s t₀ t s₁ s₂ s₅ s₆ net net' req q q' root root' r₁ r₂ e resp tee n r again c
        (hash, body_hash) key' body read_body key miss asked put read closed rehash good full filled
        apart codec =
      let headers = del_hop_headers resp.header in
      let store = (filtered filters req).0 in
      let once =
        serve-recorded filters s t₀ t s₁ s₂ s₅ net net' req q root root' r₁ r₂ e resp tee n hash
          body_hash key miss asked put read closed in
      let (pushed, same, keyed) =
        gen_req_hash-Stored B J F digest R r again c s t₀ store q (hash, body_hash) body read_body
          key in
      let (pushed', same', keyed') =
        gen_req_hash-Stored B J F digest R r again c s₅ s₆ store q' key' body read_body rehash in
      let K =
        put_resp-Kept B J F digest R t t s₁ s₂ s₅ q q hash body_hash resp root' r₁ r₂ tee n headers
          (gen_req_hash-again B J F digest s t t₀ store q (hash, body_hash) key) put read closed
          (λ h b head. (codec h b head).1) in
      let K' =
        subst (λ u. Kept B J F digest q hash resp headers u r₂) (sym pushed')
          (push-Kept B J F digest q hash R s₅ r₂ resp headers c K apart (codec K.h K.b K.head).2) in
      let found =
        get_resp-Kept B J F digest q hash body_hash s₅ s₆ store r₂ resp headers
          (rehash ∙ λ i. ((sym keyed' ∙ keyed) i, (same' ∙ sym same) i, s₆)) K' filled
          (codec K'.h K'.b K'.head).0 in
      let hit =
        looked_up-hit (filtered filters req).1 net' _ (get_resp B J F digest s₅ store r₂) found in
      (
        ap (λ x. x.0) once,
        ap (λ x. x.3) once,
        ap (λ x. (serve filters x.2 x.3 req x.1).0) once
            ∙ hit.0
            ∙ answer-same resp good full
            ∙ sym (ap (λ x. x.0) once),
        ap (λ x. (serve filters x.2 x.3 req x.1).3) once ∙ hit.1 ∙ sym (ap (λ x. x.3) once),
      )
