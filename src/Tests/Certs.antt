-- ===== src/Tests/Certs.antt =====
-- Certificates made by a toy crypto: a key is a number, and a certificate is what its template says.
use httplock.Base.{
  ℕ, zero, suc, ◌+◌, ◌<◌, ◌≡◌, refl, ap, Bool, true, false, some, List, [], ◌∷◌, Str, text, str_eq,
  Result, ok, err,
}
use httplock.Base.Dict.{lookup, insert}
use httplock.Hasher.{Bytes}
use httplock.Cert.{
  Cert, Crypto, CertError, crypto, already_configured, X509, Template, TlsCert, new_cert, ca_gen,
  leaf_cert, gen_with, set_made, issue, ca_set, check_certificate, check_key, check_leaf, new_leaf,
  keep_leaf,
}
use httplock.Cert.Authority.{IsHonest, leaf_cert-fresh, leaf_cert-again}
use httplock.Cert.Steps.{Reach, start, next, generating, leafing, IsSound, ca_gen-configured}
use httplock.Cert.Serials.{Reach-IsSound, Reach-ca}

abbrev bit : Bool → ℕ
bit true = 1
bit false = 0

abbrev of_bit : ℕ → Bool
of_bit zero = false
of_bit (suc n) = true

abbrev toy_parse : Bytes → Result CertError X509
toy_parse (serial ∷ not_after ∷ ca ∷ key) = ok (record {
  serial = serial;
  is_ca = of_bit ca;
  not_after = not_after;
  dns_names = [];
  public_key = key;
})
toy_parse _ = err (crypto 1)

abbrev toy_create : Template → Bytes → Bytes
toy_create tmpl key = tmpl.serial ∷ tmpl.not_after ∷ bit tmpl.is_ca ∷ key

abbrev pub toy : Crypto
toy = record {
  Rand = ℕ;
  gen_key = λ n. (ok (n ∷ []), suc n);
  public = λ k. k;
  create = λ n tmpl parent pub_key key. (ok (toy_create tmpl pub_key), suc n);
  parse = toy_parse;
}

abbrev serial_of : Result CertError X509 → ℕ
serial_of (ok x) = x.serial
serial_of (err e) = 0

abbrev end_of : Result CertError X509 → ℕ
end_of (ok x) = x.not_after
end_of (err e) = 0

toy-IsHonest : IsHonest toy
toy-IsHonest = record {
  reads = λ rand tmpl parent pub_key key der x created parsed.
      let e : ok x ≡ toy_parse (toy_create tmpl pub_key) = cc in (ap serial_of e, ap end_of e);
}

abbrev pub first : Cert
first = new_cert 1

abbrev pub with_ca : Cert
with_ca = (ca_gen toy (text "ca") 9000 0 first).1

abbrev host : List Str
host = text "a.com" ∷ []

certs : Result CertError TlsCert × Cert × ℕ
unfolding new_cert ca_gen gen_with set_made issue ca_set check_certificate check_key check_leaf
    leaf_cert new_leaf keep_leaf lookup insert str_eq
certs = leaf_cert toy host 9000 0 with_ca

abbrev given : Result CertError TlsCert
given = certs.0

abbrev cert : TlsCert
cert = record {
  certificate = (65537 ∷ 613800 ∷ 0 ∷ 0 ∷ []) ∷ [];
  private_key = some (0 ∷ []);
  leaf = some (record {
    serial = 65537;
    is_ca = false;
    not_after = 613800;
    dns_names = [];
    public_key = 0 ∷ [];
  });
}

leaf_cert-fresh_example : (x : X509) × (cert.leaf ≡ some x) × (9000 + 3600 < x.not_after)
unfolding certs
leaf_cert-fresh_example = leaf_cert-fresh toy toy-IsHonest host 9000 0 2 with_ca certs.1 cert refl

leaf_cert-again_example : leaf_cert toy host 9999 7 certs.1 ≡ (ok cert, certs.1, 7)
unfolding certs
leaf_cert-again_example =
    leaf_cert-again toy toy-IsHonest host 9000 9999 0 2 7 with_ca certs.1 cert refl refl

history : Reach toy first certs.1
unfolding certs
history = next (next start (generating first (text "ca") 9000 0)) (leafing with_ca host 9000 0)

Reach-IsSound_example : IsSound toy certs.1
Reach-IsSound_example = Reach-IsSound toy toy-IsHonest 1 history

abbrev ca : TlsCert
ca = record {
  certificate = (65536 ∷ 94617000 ∷ 1 ∷ 0 ∷ []) ∷ [];
  private_key = some (0 ∷ []);
  leaf = some (record {
    serial = 65536;
    is_ca = true;
    not_after = 94617000;
    dns_names = [];
    public_key = 0 ∷ [];
  });
}

Reach-ca_example : certs.1.ca ≡ some ca
unfolding certs
Reach-ca_example = Reach-ca toy toy-IsHonest ca (next start (leafing with_ca host 9000 0)) refl

abbrev next_ca : X509
next_ca = record {
  serial = 65537;
  is_ca = true;
  not_after = 94617000;
  dns_names = [];
  public_key = 0 ∷ [];
}

abbrev ca_leaf_x : X509
ca_leaf_x = record next_ca { serial = 65536 }

ca_gen-configured_example :
    ca_gen toy (text "ca") 9000 5 with_ca
    ≡ (err already_configured, record with_ca { serial = suc with_ca.serial }, 6)
unfolding certs
ca_gen-configured_example =
    ca_gen-configured toy (text "ca") 9000 ca (0 ∷ []) ca_leaf_x next_ca
      (65537 ∷ 94617000 ∷ 1 ∷ 0 ∷ []) 5 6 with_ca refl refl refl refl refl
