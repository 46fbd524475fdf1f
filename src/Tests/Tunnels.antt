-- ===== src/Tests/Tunnels.antt =====
-- A tunnel to a saved root, and a listener of one connection.
use httplock.Base.{ℕ, ◌≡◌, refl, none, some, true, ◌+◌, arith, [], ◌∷◌, text, str_eq, ok, str_eq}
use httplock.Base.Dict.{lookup}
use httplock.Storage.Root.{new_root_hash}
use httplock.Storage.Memory.{MemStorage, root_open}
use httplock.Storage.Memory.Blobs.{no_blobs}
use httplock.Proxy.Header.{canonical}
use httplock.Proxy.Request.{Request}
use httplock.Proxy.Auth.{
  get_auth, root_of_token, check_auth_basic, check_parts, user_pass, split, split_once,
}
use httplock.Proxy.Connect.{World, Hello, hijacked, handle_connect, split_host}
use httplock.Proxy.Connect.Tunnel.{handle_connect-Quiet, IsFrozenAt}
use httplock.Proxy.Connect.Listener.{Conns, serve_listener, serve_listener-all}
use package.httplock.Tests.Sample.{digest, codec}
use package.httplock.Tests.Certs.{toy, with_ca}
use package.httplock.Tests.Proxies.{request, formats, server, frozen}

abbrev asking : Request
asking = record request {
  method = text "CONNECT";
  header = (text "Proxy-Authorization", text "Basic token:old" ∷ []) ∷ [];
}

abbrev saved : MemStorage
saved = record { index = []; roots = (text "old", 0) ∷ []; objects = frozen ∷ []; blobs = no_blobs }

abbrev world : World (λ s. ok s) digest codec formats server toy
world = record { storage = saved; net = 0; certs = with_ca; rand = 1 }

abbrev hello : Hello
hello = record { server_name = text "h"; requests = (text "h", request) ∷ [] }

auth_done : get_auth (λ s. ok s) 5 saved asking ≡ (ok 0, saved)
unfolding get_auth root_of_token check_auth_basic check_parts user_pass split split_once root_open
    canonical lookup str_eq
auth_done = refl

frozen_done : frozen.readonly ≡ true
unfolding new_root_hash
frozen_done = refl

handle_connect-Quiet_example :
    ((handle_connect
        (λ s. ok s)
        digest
        codec
        formats
        server
        toy
        []
        5
        asking
        (text "h:443")
        hijacked
        hello
        world).1.net
      ≡ 0)
    × IsFrozenAt frozen.hash 0
        (handle_connect
          (λ s. ok s)
          digest
          codec
          formats
          server
          toy
          []
          5
          asking
          (text "h:443")
          hijacked
          hello
          world).1.storage
handle_connect-Quiet_example =
    handle_connect-Quiet (λ s. ok s) digest codec formats server toy [] 5 asking (text "h:443")
      hijacked hello world 0 saved frozen auth_done refl frozen_done

-- The host of an address.
split_host_runs :
    (split_host (text "h:443") ≡ some (text "h"))
    × (split_host (text "[::1]:443") ≡ some (text "::1"))
    × (split_host (text "h") ≡ none)
    × (split_host (text "::1:443") ≡ none)
    × (split_host (text ":80") ≡ some [])
unfolding split_host
split_host_runs = (refl, refl, refl, refl, refl)

-- Connections that all close well, counted.
abbrev conns : Conns
conns = record { State = ℕ; close = λ s c. (none, s + 1) }

serve_listener-all_example : serve_listener conns 3 0 (7 ∷ 8 ∷ []) ≡ some (7 ∷ 8 ∷ [], [], none, 0)
serve_listener-all_example = serve_listener-all conns 3 0 (7 ∷ 8 ∷ []) (omega arith)
