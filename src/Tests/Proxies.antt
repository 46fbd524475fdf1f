-- ===== src/Tests/Proxies.antt =====
-- Requests that are filtered, recorded and replayed.
use httplock.Base.{
  arith, ℕ, ◌≡◌, refl, none, some, List, [], ◌∷◌, ◌++◌, Str, text, str_eq, ok, err, ◌+◌,
  if◌then◌else◌, has_prefix,
}
use httplock.Base.Dict.{lookup, erase}
use httplock.Storage.Errors.{Res, bad_json}
use httplock.Storage.Memory.Blobs.{MemBlobs, no_blobs}
use httplock.Storage.Root.{Root, new_root, new_root_hash}
use httplock.Proxy.Header.{
  Header, canonical, values, del_hop_headers, copy_header, included, include_header,
  append_host_to_x_forward_header,
}
use httplock.Proxy.Header.Laws.{del_hop_headers-lookup, copy_header-values}
use httplock.Proxy.Request.{Url, stream, Request, Response, MetaResp, Formats}
use httplock.Config.{Filter, action_strip, action_ignore}
use httplock.Proxy.Filter.{filter_req, filter_all, filter_header, filter_query, applies}
use httplock.Proxy.Filter.Headers.{any_names, any_strips, filter_req-headers}
use httplock.Proxy.Store.{
  gen_req_hash, hash_request, hash_copied, copy_into, copied, closed, opened, gen_dir_path,
  get_resp, read_resp, read_body, header_of, put_resp, put_hashed, encode, save_head, tee_close,
}
use httplock.Proxy.Store.Key.{gen_req_hash-forwarded, gen_req_hash-again}
use httplock.Proxy.Serve.{
  Client, Answer, sent, serve_with_cache, looked_up, fetched, recorded, respond,
}
use httplock.Proxy.Auth.{check_auth_basic}
use httplock.Proxy.Auth.Basic.{check_auth_basic-roundtrip}
use httplock.Proxy.Serve.Readonly.{serve-Replayed, Replayed}
use package.httplock.Tests.Sample.{digest, backend, codec}
use package.httplock.Tests.Roots.{write_file}

abbrev headers : Header
headers =
    (text "Accept", text "a" ∷ [])
    ∷ (text "Connection", text "close" ∷ [])
    ∷ (text "Date", text "d" ∷ [])
    ∷ []

del_hop_headers-lookup_example : lookup (text "Connection") (del_hop_headers headers) ≡ none
unfolding str_eq
del_hop_headers-lookup_example = del_hop_headers-lookup (text "Connection") headers

more : Header
more = (text "Accept", text "b" ∷ text "c" ∷ []) ∷ []

copy_header-values_example :
    values (text "Accept") (copy_header headers more)
    ≡ values (text "Accept") headers ++ values (text "Accept") more
unfolding canonical lookup more
copy_header-values_example = copy_header-values (text "Accept") headers more (refl, refl, tt)

abbrev url : Url
url = record {
  scheme = text "http";
  user = [];
  host = text "h";
  path = text "/p";
  raw_query = text "q=1";
}

abbrev pub request : Request
request = record {
  proto = text "HTTP/1.1";
  method = text "GET";
  url = url;
  header = headers;
  content_length = 0;
  remote_addr = text "1.2.3.4:5";
  body = stream (ok (text "x")) none;
}

-- Requests are told apart by their method, query and body.
abbrev pub formats : Formats
formats = record {
  url_string = λ u. u.scheme ++ (text "://" ++ (u.host ++ u.path));
  encode_query = λ q. q;
  del_query = λ key q. [];
  marshal_req = λ m. ok (m.method ++ (m.query ++ m.body_hash));
  encode_req = λ m. ok (m.method ++ (m.query ++ (m.body_hash ++ text "\n")));
  encode_resp = λ m. ok (m.status_code ∷ m.content_len ∷ []);
  unmarshal_resp = unmarshal;
}
  where
    unmarshal : List ℕ → Res MetaResp
    unmarshal (status ∷ len ∷ []) =
        ok (record { status_code = status; headers = []; content_len = len; body_hash = [] })
    unmarshal _ = err bad_json

abbrev filters : List Filter
filters =
    record {
      url_prefix_s = text "http://h/p";
      resp_header = [];
      body_form = [];
      url_prefix = some (record url { raw_query = [] });
      method = [];
      req_header = (text "date", action_strip) ∷ (text "accept", action_ignore) ∷ [];
      req_query = (text "q", action_ignore) ∷ [];
    }
    ∷ []

filter_runs :
    ((filter_req formats filters request).0.header ≡ (text "Connection", text "close" ∷ []) ∷ [])
    × ((filter_req formats filters request).1.url ≡ url)
    × ((filter_req formats filters request).2.url ≡ record url { raw_query = [] })
unfolding filter_req filter_all filter_header filter_query applies canonical erase str_eq has_prefix
filter_runs = (refl, refl, refl)

filter_req-headers_example :
    (lookup (text "Date") (filter_req formats filters request).0.header
      ≡ (if any_names (text "Date") filters request then none else lookup (text "Date") headers))
    × (lookup (text "Date") (filter_req formats filters request).1.header
        ≡ (if any_strips (text "Date") filters request then none else lookup (text "Date") headers))
filter_req-headers_example = filter_req-headers formats (text "Date") filters request

gen_req_hash-forwarded_example :
    (gen_req_hash backend codec formats digest no_blobs
      (record request { header = append_host_to_x_forward_header headers (text "9") })).0
    ≡ (gen_req_hash backend codec formats digest no_blobs request).0
gen_req_hash-forwarded_example =
    gen_req_hash-forwarded backend codec formats digest no_blobs request (text "9")

abbrev of_key : Res (Str × Str) → Str × Str
of_key (ok key) = key
of_key (err e) = ([], [])

hashed : Res (Str × Str) × Request × MemBlobs
unfolding gen_req_hash hash_request hash_copied copy_into copied closed opened write_file included
    include_header
hashed = gen_req_hash backend codec formats digest no_blobs request

gen_req_hash-again_example :
    gen_req_hash backend codec formats digest no_blobs hashed.1
    ≡ (ok (of_key hashed.0), hashed.1, no_blobs)
unfolding hashed
gen_req_hash-again_example =
    gen_req_hash-again backend codec formats digest no_blobs no_blobs hashed.2 request hashed.1
      (of_key hashed.0) refl

-- A server that counts its requests and always says hello.
abbrev hello : Response
hello = record { status_code = 200; header = []; content_length = 5; body = text "hello" }

abbrev pub server : Client
server = record { Net = ℕ; do_request = λ n req. (ok hello, n + 1) }

abbrev Run : Type 0
Run = Answer × Root × MemBlobs × ℕ

once : Run
unfolding hashed serve_with_cache looked_up fetched recorded respond get_resp read_resp read_body
    header_of put_resp put_hashed encode save_head tee_close filter_req filter_all filter_header
    filter_query applies canonical erase str_eq has_prefix gen_dir_path del_hop_headers copy_header
once = serve_with_cache backend codec formats digest server [] no_blobs 0 request new_root

abbrev twice : Run
twice = serve_with_cache backend codec formats digest server [] once.2 once.3 request once.1

-- The second time the server is not asked, and the answer is the same.
replay_runs :
    (once.0 ≡ sent 200 [] (text "hello")) × (twice.0 ≡ once.0) × (once.3 ≡ 1) × (twice.3 ≡ 1)
unfolding once
replay_runs = (refl, refl, refl, refl)

abbrev pub frozen : Root
frozen = new_root_hash (text "none")

serve-Replayed_example :
    Replayed backend codec formats digest server 0 frozen
      (get_resp backend codec formats digest no_blobs
        (filter_req formats filters (record request { header = del_hop_headers headers })).0
        frozen).0
      (serve_with_cache backend codec formats digest server filters no_blobs 0 request frozen)
unfolding new_root_hash
serve-Replayed_example =
    serve-Replayed backend codec formats digest server filters no_blobs 0 request frozen refl

-- A decoder that takes its text as it is.
check_auth_basic-roundtrip_example :
    check_auth_basic (λ s. ok s) (text "Basic " ++ text "t:p") ≡ ok (text "t", text "p")
check_auth_basic-roundtrip_example =
    check_auth_basic-roundtrip (λ s. ok s) (text "t:p") (text "t") (text "p") refl
      (λ e. omega (arith, e), (λ e. omega (arith, e), (λ e. omega (arith, e), tt)))
      (λ e. omega (arith, e), tt)
