-- ===== src/Proxy/Request.antt =====
-- Requests and responses (net/http, net/url), as far as internal/proxy reads and changes them.
use httplock.Base.{ℕ, Option, Str}
use httplock.Hasher.{Bytes}
use httplock.Storage.Errors.{Res}
use httplock.Proxy.Header.{Header}

-- `user` is `User.String()`.
pub record Url : Type 0 where
  pub scheme : Str
  pub user : Str
  pub host : Str
  pub path : Str
  pub raw_query : Str

-- A body that is a stream of bytes, with what `GetBody` gives if it is set; or one that is read
-- from the blob with a hash (a `hashReadCloser`).
pub data Body : Type 0 where
  stream : Res Bytes → Option (Res Bytes) → Body
  stored : Str → Body

pub record Request : Type 0 where
  pub proto : Str
  pub method : Str
  pub url : Url
  pub header : Header
  pub content_length : ℕ
  pub remote_addr : Str
  pub body : Body

pub record Response : Type 0 where
  pub status_code : ℕ
  pub header : Header
  pub content_length : ℕ
  pub body : Bytes

-- `storageMetaReq` and `storageMetaResp`
pub record MetaReq : Type 0 where
  pub proto : Str
  pub method : Str
  pub user : Str
  pub query : Str
  pub headers : Header
  pub content_len : ℕ
  pub body_hash : Str

pub record MetaResp : Type 0 where
  pub status_code : ℕ
  pub headers : Header
  pub content_len : ℕ
  pub body_hash : Str

-- What the code calls of net/url and encoding/json: a URL as a text, a query in its normal form, a
-- query without a key, and the two records as JSON.
pub record Formats : Type 1 where
  pub url_string : Url → Str
  pub encode_query : Str → Str
  pub del_query : Str → Str → Str
  pub marshal_req : MetaReq → Res Bytes
  -- what `Encoder.Encode` writes, a newline at the end
  pub encode_req : MetaReq → Res Bytes
  pub encode_resp : MetaResp → Res Bytes
  pub unmarshal_resp : Bytes → Res MetaResp
