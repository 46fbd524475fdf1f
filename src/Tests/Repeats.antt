-- ===== src/Tests/Repeats.antt =====
-- A request that is asked twice.
use httplock.Base.{◌+◌, arith, ℕ, ◌≡◌, refl, str_eq, ap, none, [], text, ok, err}
use httplock.Base.Dict.{erase, lookup}
use httplock.Storage.Errors.{Error, Res, Status, panic}
use httplock.Storage.Memory.Blobs.{MemBlobs, no_blobs}
use httplock.Storage.Memory.Reliable.{memory-IsReliable}
use httplock.Storage.Root.{Root, new_root}
use httplock.Proxy.Header.{canonical, del_hop_headers, included, include_header}
use httplock.Proxy.Header.Laws.{IsHeader}
use httplock.Proxy.Header.Copies.{IsFull}
use httplock.Proxy.Request.{stream, Request, Response}
use httplock.Proxy.Filter.{filter_req, filter_all}
use httplock.Proxy.Store.{
  Put, gen_req_hash, put_resp, tee_read, tee_close, get_resp, read_resp, read_body, hash_request,
  hash_copied, copy_into, copied, closed, opened, gen_dir_path, put_hashed, encode, save_head,
}
use httplock.Proxy.Serve.{Client, answer, serve_with_cache}
use httplock.Proxy.Serve.Again.{serve-again, filtered}
use package.httplock.Tests.Sample.{codec}
use package.httplock.Tests.Roots.{write_file}
use package.httplock.Tests.Proxies.{request}
use package.httplock.Tests.Replays.{
  full_header, marked, store, kept, hello, Keyed, key_of, tee_of, tail, marked-filled, head-kept,
}

-- A server that counts its requests.
abbrev server : Client
server = record { Net = ℕ; do_request = λ n req. (ok hello, n + 1) }

abbrev store_req : Request
store_req = (filtered store codec kept marked server [] request).0

keyed : Keyed
unfolding filter_req filter_all del_hop_headers erase canonical str_eq gen_req_hash hash_request
    hash_copied copy_into copied closed opened write_file included include_header
keyed = gen_req_hash store codec kept marked no_blobs store_req

abbrev Got : Type 0
Got = Res Response × Request × Root × MemBlobs

missed : Got
unfolding keyed get_resp read_resp read_body gen_dir_path
missed = get_resp store codec kept marked no_blobs store_req new_root

abbrev error_of : Res Response → Error
error_of (err e) = e
error_of (ok r) = panic

put : Put store codec kept marked
unfolding missed put_resp put_hashed encode
put = put_resp store codec kept marked missed.3 missed.1 hello missed.2

read_on : Res ℕ × MemBlobs
unfolding put
read_on = tee_read store codec kept marked put.2 (tee_of put.0) (text "hello")

ended : Status × Root × MemBlobs
unfolding read_on tee_close save_head
ended =
    tee_close store codec kept marked read_on.1 (tee_of put.0) (del_hop_headers full_header) none
      put.1

keyed_again : Keyed
unfolding ended
keyed_again = gen_req_hash store codec kept marked ended.2 store_req

body_done : store_req.body ≡ stream (ok (text "x")) none
unfolding filter_req filter_all
body_done = refl

keyed_done :
    gen_req_hash store codec kept marked no_blobs store_req
    ≡ (ok (key_of keyed.0), missed.1, keyed.2)
unfolding missed
keyed_done = refl

missed_done :
    get_resp store codec kept marked no_blobs store_req new_root
    ≡ (err (error_of missed.0), missed.1, missed.2, missed.3)
unfolding missed
missed_done = refl

put_done :
    put_resp store codec kept marked missed.3 missed.1 hello missed.2
    ≡ (ok (tee_of put.0), put.1, put.2)
unfolding put
put_done = refl

read_done : tee_read store codec kept marked put.2 (tee_of put.0) (text "hello") ≡ (ok 5, read_on.1)
unfolding read_on
read_done = refl

ended_done :
    tee_close store codec kept marked read_on.1
      (tee_of put.0)
      (del_hop_headers full_header)
      none
      put.1
    ≡ (ok tt, ended.1, ended.2)
unfolding ended
ended_done = refl

again_done :
    gen_req_hash store codec kept marked ended.2 store_req
    ≡ (ok (key_of keyed_again.0), keyed_again.1, keyed_again.2)
unfolding keyed_again
again_done = refl

hello-IsHeader : IsHeader full_header
unfolding canonical lookup str_eq
hello-IsHeader = (refl, refl, (refl, refl, tt))

hello-IsFull : IsFull full_header
hello-IsFull = (λ e. ground (arith, e), (λ e. ground (arith, e), tt))

serve-again_example :
    let first = serve_with_cache store codec kept marked server [] no_blobs 0 request new_root in
    let second =
      serve_with_cache store codec kept marked server [] first.2 first.3 request first.1 in
    (first.0 ≡ answer store codec kept marked server hello)
    × (first.3 ≡ 1)
    × (second.0 ≡ first.0)
    × (second.3 ≡ first.3)
unfolding del_hop_headers erase canonical str_eq
serve-again_example =
    serve-again store codec kept marked server (memory-IsReliable marked) [] no_blobs keyed.2
      missed.3 put.2 read_on.1 ended.2 keyed_again.2 0 1 request missed.1 keyed_again.1 new_root
      missed.2 put.1 ended.1 (error_of missed.0) hello (tee_of put.0) 5 (ok (text "x")) none
      (text "x") (key_of keyed.0) (key_of keyed_again.0) body_done refl keyed_done missed_done refl
      put_done read_done ended_done again_done hello-IsHeader hello-IsFull marked-filled
      (λ same. ap tail same)
      (λ h b head. let (gives, apart) = head-kept h b head in (gives, apart, λ same. ap tail same))
