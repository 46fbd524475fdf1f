-- ===== src/Tests/Replays.antt =====
-- A response that is recorded and replayed. The name of a blob is its bytes behind a mark, so no two
-- blobs share one.
use httplock.Base.{ℕ, ◌≡◌, ◌≢◌, sym, ap, arith, none, [], ◌∷◌, Str, text, ok, err}
use httplock.Hasher.{Bytes}
use httplock.Storage.Errors.{Res, Status, bad_json}
use httplock.Storage.Backend.{Backend}
use httplock.Storage.Memory.Blobs.{MemBlobs, no_blobs, memory}
use httplock.Storage.Root.{Root, new_root}
use httplock.Proxy.Header.{Header, included, include_header}
use httplock.Proxy.Request.{Request, Response, MetaResp, Formats}
use httplock.Proxy.Store.{
  Put, Tee, gen_req_hash, hash_request, hash_copied, copy_into, copied, closed, opened,
  gen_dir_path, put_resp, put_hashed, encode, save_head, tee_read, tee_close,
}
use package.httplock.Tests.Sample.{codec}
use package.httplock.Tests.Roots.{write_file}
use package.httplock.Tests.Proxies.{request, formats}

abbrev pub marked : Bytes → Str
marked b = 1 ∷ b

abbrev pub store : Backend
store = memory marked

-- The headers of the response, and those of them that are not hop-by-hop.
abbrev shown : Header
shown = (text "Accept", text "a" ∷ []) ∷ []

abbrev pub full_header : Header
full_header = (text "Accept", text "a" ∷ []) ∷ (text "Connection", text "close" ∷ []) ∷ []

abbrev decoded : Bytes → Res MetaResp
decoded (status ∷ len ∷ hash) =
    ok (record { status_code = status; headers = shown; content_len = len; body_hash = hash })
decoded _ = err bad_json

-- All of a head is kept, for heads with these headers.
abbrev pub kept : Formats
kept = record formats {
  encode_resp = λ m. ok (m.status_code ∷ m.content_len ∷ m.body_hash);
  unmarshal_resp = decoded;
}

abbrev pub hello : Response
hello = record { status_code = 200; header = full_header; content_length = 5; body = text "hello" }

abbrev pub Keyed : Type 0
Keyed = Res (Str × Str) × Request × MemBlobs

keyed : Keyed
unfolding gen_req_hash hash_request hash_copied copy_into copied closed opened write_file included
    include_header
keyed = gen_req_hash store codec kept marked no_blobs request

abbrev pub key_of : Res (Str × Str) → Str × Str
key_of (ok key) = key
key_of (err e) = ([], [])

put : Put store codec kept marked
unfolding keyed put_resp put_hashed encode gen_dir_path
put = put_resp store codec kept marked no_blobs request hello new_root

abbrev pub tee_of : Res (Tee store codec kept marked) → Tee store codec kept marked
tee_of (ok t) = t
tee_of (err e) = record {
  w = 0;
  path = [];
  meta = record { status_code = 0; headers = []; content_len = 0; body_hash = [] };
}

read_on : Res ℕ × MemBlobs
unfolding put
read_on = tee_read store codec kept marked put.2 (tee_of put.0) (text "hello")

ended : Status × Root × MemBlobs
unfolding read_on tee_close save_head
ended = tee_close store codec kept marked read_on.1 (tee_of put.0) shown none put.1

abbrev bytes_of : Res Bytes → Bytes
bytes_of (ok b) = b
bytes_of (err e) = []

abbrev pub tail : Bytes → Bytes
tail [] = []
tail (c ∷ b) = b

pub marked-filled : (b : Bytes) → marked b ≢ []
marked-filled b e = ground (arith, e)

pub head-kept :
    (h : Str) (b : Bytes)
    → kept.encode_resp
        (record { status_code = 200; headers = shown; content_len = 5; body_hash = h })
      ≡ ok b
    → (kept.unmarshal_resp b
        ≡ ok (record { status_code = 200; headers = shown; content_len = 5; body_hash = h }))
      × (marked b ≡ marked (text "hello") → b ≡ text "hello")
head-kept h b e = (ap decoded (sym (ap bytes_of e)), λ same. ap tail same)
