-- ===== src/Cert.antt =====
-- internal/cert/cert.go: the certificate authority and the certificates of the hosts. Keys and
-- certificates are made by crypto/*, which is a parameter here; its random source is a state.
-- Times are seconds after a moment long before the program runs.
pub mod Authority
pub mod Steps
pub mod Serials
use httplock.Base.{
  ℕ, zero, suc, ◌+◌, ◌-◌, ◌*◌, Bool, true, false, not, ◌&&◌, ◌||◌, Option, none, some, List, [],
  ◌∷◌, ◌++◌, Str, text, Result, ok, err, if◌then◌else◌, ltb,
}
use httplock.Base.Dict.{Dict, lookup, insert}
use httplock.Hasher.{Bytes}

pub data CertError : Type 0 where
  -- "CA already configured", "CA certificate must be included", "CA private key must be included",
  -- "CA cert missing leaf for public key", "CA cert is missing CA flag"
  already_configured no_certificate no_key no_leaf no_ca_flag : CertError
  -- "CA not configured", "CA certificate not available", "missing name for leaf cert", "CA needed
  -- to generate leaf certificates"
  not_configured not_available missing_name ca_needed : CertError
  -- an error of crypto/*
  crypto : ℕ → CertError

-- A parsed `x509.Certificate`: what the code reads of it.
pub record X509 : Type 0 where
  pub serial : ℕ
  pub is_ca : Bool
  pub not_after : ℕ
  pub dns_names : List Str
  pub public_key : Bytes

-- The template of a certificate. Its other fields are constants, one set for a CA and one for a
-- leaf.
pub record Template : Type 0 where
  pub serial : ℕ
  pub common_name : Str
  pub not_before : ℕ
  pub not_after : ℕ
  pub is_ca : Bool
  pub dns_names : List Str

-- `tls.Certificate`: a private key is its bytes.
pub record TlsCert : Type 0 where
  pub certificate : List Bytes
  pub private_key : Option Bytes
  pub leaf : Option X509

pub record Cert : Type 0 where
  pub ca : Option TlsCert
  pub leafs : Dict TlsCert
  pub serial : ℕ

-- What the code calls of crypto/*: `ecdsa.GenerateKey`, the public key of a private one,
-- `x509.CreateCertificate` and `x509.ParseCertificate`. The parent is the leaf of the CA, or
-- nothing in a certificate that signs itself.
pub record Crypto : Type 1 where
  pub Rand : Type 0
  pub gen_key : Rand → Result CertError Bytes × Rand
  pub public : Bytes → Bytes
  pub create : Rand → Template → Option X509 → Bytes → Option Bytes → Result CertError Bytes × Rand
  pub parse : Bytes → Result CertError X509

abbrev pub hour : ℕ
hour = 3600

abbrev pub ca_max_age : ℕ
ca_max_age = 3 * (365 * (24 * hour))

abbrev pub leaf_max_age : ℕ
leaf_max_age = 7 * (24 * hour)

-- `serial << 16` of the time in seconds since 1970.
unfoldable pub new_cert : ℕ → Cert
new_cert unix = record { ca = none; leafs = []; serial = unix * 65536 }

-- `strings.Join names ", "`
abbrev pub join : List Str → Str
join [] = []
join (n ∷ []) = n
join (n ∷ m ∷ ns) = n ++ (text ", " ++ join (m ∷ ns))

abbrev Answer : Type 0 → Type 0
Answer A = Result CertError A × Cert

-- The leaf of a CA has to be one of a CA.
unfoldable pub check_leaf : TlsCert → Option X509 → Cert → Answer (Unit {0})
check_leaf cert none c = (err no_leaf, c)
check_leaf cert (some leaf) c =
    if not leaf.is_ca then (err no_ca_flag, c) else (ok tt, record c { ca = some cert })

unfoldable pub check_key : TlsCert → Option Bytes → Cert → Answer (Unit {0})
unfolding check_leaf
check_key cert none c = (err no_key, c)
check_key cert (some k) c = check_leaf cert cert.leaf c

unfoldable pub check_certificate : TlsCert → List Bytes → Cert → Answer (Unit {0})
unfolding check_key
check_certificate cert [] c = (err no_certificate, c)
check_certificate cert ([] ∷ more) c = (err no_certificate, c)
check_certificate cert ((b ∷ bs) ∷ more) c = check_key cert cert.private_key c

-- `CASet`
unfoldable pub ca_set : TlsCert → Cert → Answer (Unit {0})
unfolding check_certificate
ca_set cert c = elim c.ca [
  | some ca ↦ (err already_configured, c)
  | none ↦ check_certificate cert cert.certificate c
]

-- `CAGetPEM`: the bytes that `pem.EncodeToMemory` is given.
unfoldable pub ca_get_pem : Cert → Result CertError Bytes
ca_get_pem c = elim c.ca [
  | none ↦ err not_configured
  | some ca ↦ elim ca.certificate [ [] ↦ err not_available | b ∷ bs ↦ ok b ]
]

abbrev usable : TlsCert → Option X509
usable ca = elim ca.leaf [ none ↦ none | some leaf ↦ if leaf.is_ca then some leaf else none ]

-- The leaf of the CA, if there is one that is a CA's.
abbrev pub ca_leaf : Cert → Option X509
ca_leaf c = elim c.ca [ none ↦ none | some ca ↦ usable ca ]

abbrev pub ca_key : Cert → Option Bytes
ca_key c = elim c.ca [ none ↦ none | some ca ↦ ca.private_key ]

-- `now.Add(time.Hour).Before(cert.Leaf.NotAfter)`: a leaf in the cache has been parsed.
abbrev pub is_fresh : ℕ → TlsCert → Bool
is_fresh now cert = elim cert.leaf [ none ↦ false | some x ↦ ltb (now + hour) x.not_after ]

module _ (C : Crypto) where
  abbrev pub Outcome : Type 0 → Type 0
  Outcome A = Result CertError A × Cert × C.Rand

  -- A certificate made from its parts and parsed.
  abbrev pub made : Bytes → Bytes → X509 → TlsCert
  made der key x = record { certificate = der ∷ []; private_key = some key; leaf = some x }

  unfoldable pub issue :
      C.Rand
      → Template
      → Option X509
      → Bytes
      → Option Bytes
      → Result CertError (Bytes × X509) × C.Rand
  issue rand tmpl parent pub_key key =
      let (der, rand') = C.create rand tmpl parent pub_key key in
      (
        elim der [ err e ↦ err e | ok b ↦ elim (C.parse b) [ err e ↦ err e | ok x ↦ ok (b, x) ] ],
        rand',
      )

  abbrev pub ca_template : ℕ → Str → ℕ → Template
  ca_template serial name now = record {
    serial = serial;
    common_name = name;
    not_before = now - hour;
    not_after = now + ca_max_age;
    is_ca = true;
    dns_names = [];
  }

  abbrev pub leaf_template : ℕ → Str → List Str → ℕ → Template
  leaf_template serial name names now = record {
    serial = serial;
    common_name = name;
    not_before = now - hour;
    not_after = now + leaf_max_age;
    is_ca = false;
    dns_names = names;
  }

  -- The pair of a private and a public key for `CAGen`: those of the CA that is there, or new ones.
  -- A CA without a key or a leaf cannot be in place.
  abbrev ca_keys : Option TlsCert → C.Rand → Result CertError (Bytes × Bytes) × C.Rand
  ca_keys none rand =
      let (k, rand') = C.gen_key rand in
      (elim k [ err e ↦ err e | ok key ↦ ok (key, C.public key) ], rand')
  ca_keys (some ca) rand = (
    elim ca.private_key [
      | none ↦ err no_key
      | some key ↦ elim ca.leaf [ none ↦ err no_leaf | some x ↦ ok (key, x.public_key) ]
    ],
    rand,
  )

  -- The new CA takes its place, after the serial number is used up.
  unfoldable pub set_made :
      Bytes → Result CertError (Bytes × X509) × C.Rand → Cert → Outcome (Unit {0})
  set_made key (err e, rand) c = (err e, c, rand)
  set_made key (ok (der, x), rand) c =
      let (r, c') = ca_set (made der key x) (record c { serial = suc c.serial }) in (r, c', rand)

  unfoldable pub gen_with :
      Str → ℕ → Result CertError (Bytes × Bytes) × C.Rand → Cert → Outcome (Unit {0})
  gen_with name now (err e, rand) c = (err e, c, rand)
  gen_with name now (ok (key, pub_key), rand) c =
      set_made key (issue rand (ca_template c.serial name now) none pub_key (some key)) c

  -- `CAGen`
  unfoldable pub ca_gen : Str → ℕ → C.Rand → Cert → Outcome (Unit {0})
  ca_gen name now rand c = gen_with name now (ca_keys c.ca rand) c

  unfoldable pub keep_leaf :
      Str → Bytes → Result CertError (Bytes × X509) × C.Rand → Cert → Outcome TlsCert
  keep_leaf joined key (err e, rand) c = (err e, c, rand)
  keep_leaf joined key (ok (der, x), rand) c = (
    ok (made der key x),
    record c { serial = suc c.serial; leafs = insert joined (made der key x) c.leafs },
    rand,
  )

  unfoldable pub new_leaf :
      Str → List Str → ℕ → X509 → Result CertError Bytes × C.Rand → Cert → Outcome TlsCert
  new_leaf name names now parent (err e, rand) c = (err e, c, rand)
  new_leaf name names now parent (ok key, rand) c =
      keep_leaf (join names) key
        (issue rand (leaf_template c.serial name names now) (some parent) (C.public key) (ca_key c))
        c

  abbrev cached : ℕ → Option TlsCert → Option TlsCert
  cached now none = none
  cached now (some cert) = if is_fresh now cert then some cert else none

  -- `LeafCert`
  unfoldable pub leaf_cert : List Str → ℕ → C.Rand → Cert → Outcome TlsCert
  leaf_cert [] now rand c = (err missing_name, c, rand)
  leaf_cert (name ∷ more) now rand c = elim (ca_leaf c) [
    | none ↦ (err ca_needed, c, rand)
    | some parent ↦ elim (cached now (lookup (join (name ∷ more)) c.leafs)) [
      | some cert ↦ (ok cert, c, rand)
      | none ↦ new_leaf name (name ∷ more) now parent (C.gen_key rand) c
    ]
  ]
