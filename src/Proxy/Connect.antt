-- ===== src/Proxy/Connect.antt =====
-- `handleConnect` and `proxyConnect.ServeHTTP` (internal/proxy/proxy.go): a tunnel over which the
-- requests of one connection are served with the root of the token. TLS is a parameter: what is
-- left of a handshake is the server's name in it, and the requests that come over the connection.
pub mod Listener
pub mod Tunnel
use httplock.Base.{
  ℕ, ◌==◌, Bool, true, false, ◌||◌, Option, none, some, List, [], ◌∷◌, Str, text, str_eq, Result,
  ok, err, if◌then◌else◌,
}
use httplock.Hasher.{Bytes}
use httplock.Storage.Errors.{Res}
use httplock.Storage.Backend.{Codec}
use httplock.Storage.Memory.{MemStorage}
use httplock.Cert.{Cert, CertError, Crypto, TlsCert, leaf_cert}
use httplock.Config.{Filter}
use httplock.Proxy.Request.{Request, Formats}
use httplock.Proxy.Serve.{Answer, Client}
use httplock.Proxy.Auth.{AuthError, Reply, get_auth, serve_connect}

-- What comes before and behind the last colon; 58 is the colon.
abbrev last_colon : Str → Option (Str × Str)
last_colon [] = none
last_colon (c ∷ s) = elim (last_colon s) [
  | some (a, b) ↦ some (c ∷ a, b)
  | none ↦ if c == 58 then some ([], s) else none
]

abbrev has : ℕ → Str → Bool
has b [] = false
has b (c ∷ s) = (c == b) || has b s

-- 91 and 93 are the brackets.
abbrev has_bracket : Str → Bool
has_bracket s = has 91 s || has 93 s

-- The text before its first closing bracket, if that is its last byte.
abbrev before_bracket : Str → Option Str
before_bracket [] = none
before_bracket (c ∷ s) =
    let rest = before_bracket s in
    if c == 93
    then elim s [ [] ↦ some [] | _ ∷ _ ↦ none ]
    else elim rest [ none ↦ none | some host ↦ some (c ∷ host) ]

abbrev host_of : Str → Bool → Option Str
host_of [] bad = if bad then none else some []
host_of (c ∷ s) bad =
    if c == 91
    then elim (before_bracket s) [
      | none ↦ none
      | some host ↦ if has 91 host || bad then none else some host
    ]
    else if has 58 (c ∷ s) || (has_bracket (c ∷ s) || bad)
    then none
    else some (c ∷ s)

-- The host of `net.SplitHostPort`, if there is no error.
unfoldable pub split_host : Str → Option Str
split_host s = elim (last_colon s) [
  | none ↦ none
  | some (front, port) ↦ host_of front (has_bracket port)
]

-- The `http.ResponseWriter` and its connection: it cannot be hijacked, hijacking it fails, or the
-- line "200 OK" is written to what comes of it, with or without an error.
pub data Writer : Type 0 where
  no_hijacker hijack_fails write_fails hijacked : Writer

-- What a client sends over the connection: the server's name in its handshake, and requests, each
-- with its host.
pub record Hello : Type 0 where
  pub server_name : Str
  pub requests : List (Str × Request)

-- What the client gets: status 407, status 503 with one of two texts, a connection on which no
-- answer comes, a panic, or the answers to its requests under a certificate.
pub data Outcome : Type 0 where
  ask_token : AuthError → Outcome
  no_upstream connect_unavailable broken panicked : Outcome
  tunnelled : TlsCert → List (Reply (Res Answer)) → Outcome

module _ (decode64 : Str → Result AuthError Bytes) (digest : Bytes → Str) (J : Codec) (F : Formats)
    (C : Client) (K : Crypto) where
  pub record World : Type 0 where
    pub storage : MemStorage
    pub net : C.Net
    pub certs : Cert
    pub rand : K.Rand

  -- The requests of a connection, one after another.
  unfoldable pub serve_requests :
      List Filter
      → ℕ
      → List (Str × Request)
      → MemStorage
      → C.Net
      → List (Reply (Res Answer)) × MemStorage × C.Net
  serve_requests filters root [] m net = ([], m, net)
  serve_requests filters root ((host, req) ∷ reqs) m net =
      let (a, m', net') = serve_connect decode64 digest J F C filters m net host root req in
      let (as', m'', net'') = serve_requests filters root reqs m' net' in (a ∷ as', m'', net'')

  abbrev put_certs : Cert × K.Rand → World → World
  put_certs (c, rand) x = record x { certs = c; rand = rand }

  -- A handshake without a certificate fails.
  abbrev shaken :
      List Filter
      → ℕ
      → List (Str × Request)
      → Result CertError TlsCert × Cert × K.Rand
      → World
      → Outcome × World
  shaken filters root reqs (err e, c, rand) x = (broken, put_certs (c, rand) x)
  shaken filters root reqs (ok cert, c, rand) x =
      let (as', m, net) = serve_requests filters root reqs x.storage x.net in
      (tunnelled cert as', record { storage = m; net = net; certs = c; rand = rand })

  -- `GetCertificate` is asked when the handshake has a server's name.
  unfoldable pub handshake : List Filter → ℕ → ℕ → Hello → TlsCert → World → Outcome × World
  handshake filters now root hello cert x =
      shaken filters root hello.requests
        (elim hello.server_name [
          | [] ↦ (ok cert, x.certs, x.rand)
          | c ∷ name ↦ leaf_cert K ((c ∷ name) ∷ []) now x.rand x.certs
        ])
        x

  -- After `Hijack` it is `ok` that is tested again, and not the error: the connection that is not
  -- there is used.
  abbrev tunnel : List Filter → ℕ → ℕ → Writer → Hello → TlsCert → World → Outcome × World
  tunnel filters now root no_hijacker hello cert x = (connect_unavailable, x)
  tunnel filters now root hijack_fails hello cert x = (panicked, x)
  tunnel filters now root write_fails hello cert x = (broken, x)
  tunnel filters now root hijacked hello cert x = handshake filters now root hello cert x

  abbrev certified :
      List Filter
      → ℕ
      → ℕ
      → Writer
      → Hello
      → Result CertError TlsCert × Cert × K.Rand
      → World
      → Outcome × World
  certified filters now root w hello (err e, c, rand) x = (no_upstream, put_certs (c, rand) x)
  certified filters now root w hello (ok cert, c, rand) x =
      tunnel filters now root w hello cert (put_certs (c, rand) x)

  abbrev to_host : List Filter → ℕ → ℕ → Writer → Hello → World → Option Str → Outcome × World
  to_host filters now root w hello x none = (no_upstream, x)
  to_host filters now root w hello x (some name) =
      certified filters now root w hello (leaf_cert K (name ∷ []) now x.rand x.certs) x

  abbrev connected :
      List Filter
      → ℕ
      → Str
      → Writer
      → Hello
      → World
      → Result AuthError ℕ × MemStorage
      → Outcome × World
  connected filters now host w hello x (err e, m) = (ask_token e, record x { storage = m })
  connected filters now host w hello x (ok root, m) =
      to_host filters now root w hello (record x { storage = m }) (split_host host)

  -- `handleConnect`; `host` is the `Host` of the request.
  unfoldable pub handle_connect :
      List Filter → ℕ → Request → Str → Writer → Hello → World → Outcome × World
  handle_connect filters now req host w hello x =
      connected filters now host w hello x (get_auth decode64 now x.storage req)
