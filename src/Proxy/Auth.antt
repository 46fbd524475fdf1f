-- ===== src/Proxy/Auth.antt =====
-- `checkAuthBasic`, `getAuth` and `ServeHTTP` of a direct request (internal/proxy/proxy.go), over
-- the storage in memory. The decoder of encoding/base64 is a parameter.
pub mod Basic
use httplock.Base.{
  ℕ, ◌+◌, ◌==◌, Bool, true, false, not, ◌&&◌, Option, none, some, List, [], ◌∷◌, ◌++◌, Str, text,
  str_eq, Result, ok, err, if◌then◌else◌,
}
use httplock.Hasher.{Bytes}
use httplock.Storage.Errors.{Error, Res}
use httplock.Storage.Backend.{Codec}
use httplock.Storage.Root.{Root}
use httplock.Storage.Memory.{MemStorage, root_open, on_root}
use httplock.Storage.Memory.Blobs.{MemBlobs, memory}
use httplock.Proxy.Header.{get}
use httplock.Proxy.Request.{Request, Formats}
use httplock.Config.{Filter}
use httplock.Proxy.Serve.{Answer, Client, serve_with_cache}

pub data AuthError : Type 0 where
  -- "basic auth header not found", "basic user/pass missing", "no proxy header found"
  no_basic no_user_pass no_header : AuthError
  -- "auth user is not token: …"
  not_token : Str → AuthError
  -- an error of encoding/base64
  base64 : ℕ → AuthError
  -- "get root failed on …"
  no_root : Error → AuthError

abbrev onto_first : ℕ → List Str → List Str
onto_first c [] = (c ∷ []) ∷ []
onto_first c (p ∷ ps) = (c ∷ p) ∷ ps

-- `strings.Split s` at each `sep`
unfoldable pub split : ℕ → Str → List Str
split sep [] = [] ∷ []
split sep (c ∷ s) = let rest = split sep s in if c == sep then [] ∷ rest else onto_first c rest

abbrev onto_pair : ℕ → Option (Str × Str) → Option (Str × Str)
onto_pair c none = none
onto_pair c (some (a, b)) = some (c ∷ a, b)

-- The two parts of `strings.SplitN s sep 2`, if there are two.
unfoldable pub split_once : ℕ → Str → Option (Str × Str)
split_once sep [] = none
split_once sep (c ∷ s) =
    let rest = split_once sep s in if c == sep then some ([], s) else onto_pair c rest

module _ (decode64 : Str → Result AuthError Bytes) where
  -- 58 is the colon.
  unfoldable pub user_pass : Result AuthError Bytes → Result AuthError (Str × Str)
  user_pass (err e) = err e
  user_pass (ok raw) = elim (split_once 58 raw) [ none ↦ err no_user_pass | some up ↦ ok up ]

  unfoldable pub check_parts : List Str → Result AuthError (Str × Str)
  check_parts (scheme ∷ encoded ∷ []) =
      if not (str_eq scheme (text "Basic")) then err no_basic else user_pass (decode64 encoded)
  check_parts _ = err no_basic

  -- `checkAuthBasic`; 32 is the space.
  unfoldable pub check_auth_basic : Str → Result AuthError (Str × Str)
  check_auth_basic auth = check_parts (split 32 auth)

  abbrev opened : Res ℕ × MemStorage → Result AuthError ℕ × MemStorage
  opened (err e, m) = (err (no_root e), m)
  opened (ok root, m) = (ok root, m)

  -- `RootOpen` with the password of the user "token".
  unfoldable pub root_of_token :
      ℕ → MemStorage → Result AuthError (Str × Str) → Result AuthError ℕ × MemStorage
  root_of_token now m (err e) = (err e, m)
  root_of_token now m (ok (user, pass)) =
      if not (str_eq user (text "token"))
      then (err (not_token user), m)
      else opened (root_open pass now m)

  -- `getAuth`
  unfoldable pub get_auth : ℕ → MemStorage → Request → Result AuthError ℕ × MemStorage
  get_auth now m req =
      let auth = get (text "Proxy-Authorization") req.header in
      elim auth [ [] ↦ (err no_header, m) | c ∷ a ↦ root_of_token now m (check_auth_basic (c ∷ a)) ]

-- What a request gets: it is handed to `handleConnect`, refused with status 400, asked for its token
-- with status 407, or answered.
pub data Reply (A : Type 0) : Type 0 where
  connect : Reply A
  unsupported : Reply A
  auth_required : AuthError → Reply A
  answered : A → Reply A

module _ (decode64 : Str → Result AuthError Bytes) (digest : Bytes → Str) (J : Codec) (F : Formats)
    (C : Client) where
  abbrev Turned : Type 0
  Turned = Reply (Res Answer) × MemStorage × C.Net

  -- `serveWithCache` at the root that a pointer leads to.
  abbrev pub on_cache :
      List Filter → Request → C.Net → MemBlobs → Root → Res (Answer × C.Net) × Root × MemBlobs
  on_cache filters req net s root =
      let (a, root', s', net') =
        serve_with_cache (memory digest) J F digest C filters s net req root in
      (ok (a, net'), root', s')

  abbrev pub turned : C.Net → Res (Answer × C.Net) × MemStorage → Turned
  turned net (err e, m) = (answered (err e), m, net)
  turned net (ok (a, net'), m) = (answered (ok a), m, net')

  unfoldable pub serve_root :
      List Filter → Request → C.Net → Result AuthError ℕ × MemStorage → Turned
  serve_root filters req net (err e, m) = (auth_required e, m, net)
  serve_root filters req net (ok p, m) = turned net (on_root (on_cache filters req net) p m)

  -- `proxyHTTP.ServeHTTP`
  unfoldable pub serve_http : List Filter → ℕ → MemStorage → C.Net → Request → Turned
  serve_http filters now m net req =
      if str_eq req.method (text "CONNECT")
      then (connect, m, net)
      else if not (str_eq req.url.scheme (text "http"))
          && not (str_eq req.url.scheme (text "https"))
      then (unsupported, m, net)
      else serve_root filters req net (get_auth decode64 now m req)

  -- `proxyConnect.ServeHTTP`: a request over a connection has its scheme and host set first.
  unfoldable pub serve_connect : List Filter → MemStorage → C.Net → Str → ℕ → Request → Turned
  serve_connect filters m net host root req =
      serve_root filters
        (record req { url = record (req.url) { scheme = text "https"; host = host } }) net
        (ok root, m)
