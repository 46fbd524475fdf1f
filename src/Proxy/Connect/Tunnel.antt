-- ===== src/Proxy/Connect/Tunnel.antt =====
-- A tunnel to a root that is read-only.
use mathlib.Core.Path.{subst}
use httplock.Base.{
  Option, ℕ, text, ◌≡◌, refl, sym, ap, ◌∙◌, true, some, none, List, [], ◌∷◌, Str, Result, ok, err,
  get_elem?, get_elem?-set_self, get_elem?-length, set,
}
use httplock.Hasher.{Bytes}
use httplock.Storage.Errors.{Res}
use httplock.Storage.Backend.{Codec}
use httplock.Storage.Root.{Root}
use httplock.Storage.Memory.{MemStorage, on_root}
use httplock.Storage.Memory.Blobs.{MemBlobs, memory}
use httplock.Cert.{Cert, CertError, Crypto, TlsCert, leaf_cert}
use httplock.Config.{Filter}
use httplock.Proxy.Request.{Request, Formats}
use httplock.Proxy.Serve.{Client, serve_with_cache}
use httplock.Proxy.Serve.Readonly.{serve-Replayed}
use httplock.Proxy.Auth.{AuthError, get_auth, serve_connect, serve_root, on_cache, turned}
use package.httplock.Proxy.Connect.{
  Writer, no_hijacker, hijack_fails, write_fails, hijacked, Hello, World, serve_requests, shaken,
  handshake, tunnel, certified, connected, handle_connect, split_host, put_certs, to_host,
}

-- The root that a pointer leads to is read-only and has the hash.
abbrev pub IsFrozenAt : Str → ℕ → MemStorage → Type 0
IsFrozenAt hash p m =
    (r : Root) × (get_elem? m.objects p ≡ some r) × (r.readonly ≡ true) × (r.hash ≡ hash)

on_root-there :
    {A : Type 0} (f : MemBlobs → Root → Res A × Root × MemBlobs) (p : ℕ) (m : MemStorage) (r : Root)
    → get_elem? m.objects p ≡ some r
    → on_root f p m ≡ (
      (f m.blobs r).0,
      record m { objects = set m.objects p (f m.blobs r).1; blobs = (f m.blobs r).2 },
    )
unfolding on_root
on_root-there f p m r there = rw (there, on_root)

module _ (decode64 : Str → Result AuthError Bytes) (digest : Bytes → Str) (J : Codec) (F : Formats)
    (C : Client) where
  serve_connect-IsFrozenAt :
      (filters : List Filter) (host hash : Str) (p : ℕ) (req : Request) (m : MemStorage)
      (net : C.Net)
      → IsFrozenAt hash p m
      → let x = serve_connect decode64 digest J F C filters m net host p req in
        (x.2 ≡ net) × IsFrozenAt hash p x.1
  unfolding serve_connect serve_root
  serve_connect-IsFrozenAt filters host hash p req m net (r, there, frozen, named) =
      let req' = record req { url = record (req.url) { scheme = text "https"; host = host } } in
      let ran = serve-Replayed (memory digest) J F digest C filters m.blobs net req' r frozen in
      let X = serve_with_cache (memory digest) J F digest C filters m.blobs net req' r in
      let e =
        ap (turned decode64 digest J F C net)
          (on_root-there (on_cache decode64 digest J F C filters req' net) p m r there) in
      subst (λ x. (x.2 ≡ net) × IsFrozenAt hash p x.1) (sym e)
        (
          ran.unasked,
          (
            X.1,
            get_elem?-set_self m.objects p X.1 (get_elem?-length m.objects p there),
            ran.kept.readonly_kept ∙ frozen,
            ran.kept.hash_kept frozen ∙ named,
          ),
        )

  module _ (K : Crypto) where
    abbrev Quiet : (Str × ℕ) → C.Net → World decode64 digest J F C K → Type 0
    Quiet (hash, p) net x = (x.net ≡ net) × IsFrozenAt hash p x.storage

    serve_requests-IsFrozenAt :
        (filters : List Filter) (hash : Str) (p : ℕ) (reqs : List (Str × Request)) (m : MemStorage)
        (net : C.Net)
        → IsFrozenAt hash p m
        → let x = serve_requests decode64 digest J F C K filters p reqs m net in
          (x.2 ≡ net) × IsFrozenAt hash p x.1
    unfolding serve_requests
    serve_requests-IsFrozenAt filters hash p [] m net frozen = (refl, frozen)
    serve_requests-IsFrozenAt filters hash p ((host, req) ∷ reqs) m net frozen =
        let (a, m', net') = serve_connect decode64 digest J F C filters m net host p req in
        let (same, frozen') = serve_connect-IsFrozenAt filters host hash p req m net frozen in
        let (same', frozen'') = serve_requests-IsFrozenAt filters hash p reqs m' net' frozen' in
        (same' ∙ same, frozen'')

    shaken-Quiet :
        (filters : List Filter) (hash : Str) (p : ℕ) (reqs : List (Str × Request))
        (c : Result CertError TlsCert × Cert × K.Rand) (x : World decode64 digest J F C K)
        → IsFrozenAt hash p x.storage
        → Quiet (hash, p) x.net (shaken decode64 digest J F C K filters p reqs c x).1
    shaken-Quiet filters hash p reqs (err e, c, rand) x frozen = (refl, frozen)
    shaken-Quiet filters hash p reqs (ok cert, c, rand) x frozen =
        serve_requests-IsFrozenAt filters hash p reqs x.storage x.net frozen

    tunnel-Quiet :
        (filters : List Filter) (now : ℕ) (hash : Str) (p : ℕ) (w : Writer) (hello : Hello)
        (cert : TlsCert) (x : World decode64 digest J F C K)
        → IsFrozenAt hash p x.storage
        → Quiet (hash, p) x.net (tunnel decode64 digest J F C K filters now p w hello cert x).1
    unfolding handshake
    tunnel-Quiet filters now hash p no_hijacker hello cert x frozen = (refl, frozen)
    tunnel-Quiet filters now hash p hijack_fails hello cert x frozen = (refl, frozen)
    tunnel-Quiet filters now hash p write_fails hello cert x frozen = (refl, frozen)
    tunnel-Quiet filters now hash p hijacked hello cert x frozen =
        shaken-Quiet filters hash p hello.requests _ x frozen

    certified-Quiet :
        (filters : List Filter) (now : ℕ) (hash : Str) (p : ℕ) (w : Writer) (hello : Hello)
        (c : Result CertError TlsCert × Cert × K.Rand) (x : World decode64 digest J F C K)
        → IsFrozenAt hash p x.storage
        → Quiet (hash, p) x.net (certified decode64 digest J F C K filters now p w hello c x).1
    certified-Quiet filters now hash p w hello (err e, c, rand) x frozen = (refl, frozen)
    certified-Quiet filters now hash p w hello (ok cert, c, rand) x frozen =
        tunnel-Quiet filters now hash p w hello cert (put_certs decode64 digest J F C K (c, rand) x)
          frozen

    to_host-Quiet :
        (filters : List Filter) (now : ℕ) (hash : Str) (p : ℕ) (w : Writer) (hello : Hello)
        (x : World decode64 digest J F C K) (name : Option Str)
        → IsFrozenAt hash p x.storage
        → Quiet (hash, p) x.net (to_host decode64 digest J F C K filters now p w hello x name).1
    to_host-Quiet filters now hash p w hello x none frozen = (refl, frozen)
    to_host-Quiet filters now hash p w hello x (some name) frozen =
        certified-Quiet filters now hash p w hello (leaf_cert K (name ∷ []) now x.rand x.certs) x
          frozen

    -- When the token of a CONNECT request opens a root that is read-only, then whatever the
    -- connection does, and whatever certificates can be made and requests come over it, no server
    -- is asked, and the root stays read-only with its hash.
    pub handle_connect-Quiet :
        (filters : List Filter) (now : ℕ) (req : Request) (host : Str) (w : Writer) (hello : Hello)
        (x : World decode64 digest J F C K) (p : ℕ) (m : MemStorage) (r : Root)
        → get_auth decode64 now x.storage req ≡ (ok p, m)
        → get_elem? m.objects p ≡ some r
        → r.readonly ≡ true
        → let y = (handle_connect decode64 digest J F C K filters now req host w hello x).1 in
          (y.net ≡ x.net) × IsFrozenAt r.hash p y.storage
    unfolding handle_connect
    handle_connect-Quiet filters now req host w hello x p m r auth there frozen =
        subst
          (λ a.
            Quiet (r.hash, p) x.net
              (connected decode64 digest J F C K filters now host w hello x a).1)
          (sym auth)
          (to_host-Quiet filters now r.hash p w hello (record x { storage = m }) (split_host host)
            (r, there, frozen, refl))
