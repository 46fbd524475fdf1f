-- ===== src/Api/Reply.antt =====
-- What a handler takes from its `*gin.Context` and what it does to the response.
use httplock.Base.{
  ℕ, Bool, true, false, none, some, List, [], ◌∷◌, Option, Str, text, if◌then◌else◌, ok, err,
}
use httplock.Base.Dict.{Dict, lookup}
use httplock.Hasher.{Bytes}
use httplock.Storage.Backend.{Listing}
use httplock.Storage.Diff.{DiffReport}
use httplock.Proxy.Header.{Header, set}
use httplock.Cert.{Cert, ca_get_pem}

-- The parameters of the path, of the query and of the form, and the body.
pub record Context : Type 0 where
  pub params : Dict Str
  pub query : Dict (List Str)
  pub form : Dict (List Str)
  pub body : Bytes

-- What the body of a response holds: bytes, or a value that is written as JSON.
pub data Content : Type 0 where
  nothing : Content
  plain : Bytes → Content
  token_json : Str → Str → Content
  hash_json : Str → Content
  roots_json : List Str → Content
  entries_json : Listing → Content
  report_json : DiffReport → Content

-- `written` says that the status has been sent, and cannot change any more.
pub record Reply : Type 0 where
  pub status : ℕ
  pub written : Bool
  pub header : Header
  pub content : Content

abbrev pub no_reply : Reply
no_reply = record { status = 200; written = false; header = []; content = nothing }

abbrev first_of : Option (List Str) → Str
first_of none = []
first_of (some []) = []
first_of (some (v ∷ vv)) = v

abbrev all_of : Option (List Str) → List Str
all_of none = []
all_of (some vv) = vv

-- `c.Query`, `c.QueryArray` and `c.PostForm`
abbrev pub query : Str → Context → Str
query k c = first_of (lookup k c.query)

abbrev pub query_array : Str → Context → List Str
query_array k c = all_of (lookup k c.query)

abbrev pub post_form : Str → Context → Str
post_form k c = first_of (lookup k c.form)

-- `c.Status`, `c.AbortWithStatus` and `c.Header`
unfoldable pub set_status : ℕ → Reply → Reply
set_status code r = if r.written then r else record r { status = code }

unfoldable pub abort_with_status : ℕ → Reply → Reply
unfolding set_status
abort_with_status code r = record (set_status code r) { written = true }

abbrev pub set_header : Str → Str → Reply → Reply
set_header k v r = record r { header = set k v r.header }

-- `c.JSON` and `c.String`
unfoldable pub send : ℕ → Content → Reply → Reply
unfolding set_status
send code content r = record (set_status code r) { written = true; content = content }

-- Bytes that are copied to the response; the status is sent with the first of them.
unfoldable pub copy_body : Bytes → Reply → Reply
copy_body [] r = r
copy_body (b ∷ bs) r = record r { written = true; content = plain (b ∷ bs) }

-- A refused request: the status, and the state as it is.
abbrev pub refuse : {S : Type 0} → ℕ → S → Reply × S
unfolding abort_with_status
refuse code s = (abort_with_status code no_reply, s)

-- `caGetPEM`
unfoldable pub ca_pem : Cert → Reply
unfolding ca_get_pem abort_with_status send
ca_pem c = elim (ca_get_pem c) [
  | err e ↦ abort_with_status 500 no_reply
  | ok pem ↦
      send 200 (plain pem) (set_header (text "Content-Type") (text "application/text") no_reply)
]
