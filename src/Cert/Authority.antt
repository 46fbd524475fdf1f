-- ===== src/Cert/Authority.antt =====
-- The certificates that `LeafCert` hands out, and the authority behind them.
use mathlib.Core.Path.{subst}
use httplock.Base.{
  ℕ, suc, ◌+◌, ◌<◌, ◌≡◌, refl, ◌∙◌, ap, true, Option, some, List, [], ◌∷◌, Str, Result, ok, err,
  ltb, Result-cases, Option-cases, Bool-cases, inl, inr, arith, ◌⊎◌, ◌≢◌,
}
use httplock.Base.Dict.{lookup, insert, lookup-insert_self}
use httplock.Hasher.{Bytes}
use package.httplock.Cert.{
  Cert, TlsCert, X509, Template, Crypto, CertError, issue, leaf_cert, keep_leaf, new_leaf,
  leaf_template, is_fresh, ca_leaf, ca_key, join, leaf_max_age, hour,
}

-- What crypto/x509 documents: a certificate has the serial number and the end of its validity that
-- its template has.
pub record IsHonest (C : Crypto) : Type 0 where
  pub reads :
      (rand : C.Rand) (tmpl : Template) (parent : Option X509) (pub_key : Bytes)
      (key : Option Bytes) (der : Bytes) (x : X509)
      → (C.create rand tmpl parent pub_key key).0 ≡ ok der
      → C.parse der ≡ ok x
      → (x.serial ≡ tmpl.serial) × (x.not_after ≡ tmpl.not_after)

module _ (C : Crypto) (H : IsHonest C) where
  abbrev Fits : Template → X509 → Type 0
  Fits tmpl x = (x.serial ≡ tmpl.serial) × (x.not_after ≡ tmpl.not_after)

  issue-reads :
      (rand : C.Rand) (tmpl : Template) (parent : Option X509) (pub_key : Bytes)
      (key : Option Bytes) (der : Bytes) (x : X509)
      → (issue C rand tmpl parent pub_key key).0 ≡ ok (der, x)
      → Fits tmpl x
  unfolding issue
  issue-reads rand tmpl parent pub_key key der x done =
      elim (Result-cases (C.create rand tmpl parent pub_key key).0) [
        | inr (e, failed) ↦ absurd (ground arith)
        | inl (b, created) ↦ elim (Result-cases (C.parse b)) [
          | inr (e, failed) ↦ absurd (ground arith)
          | inl (y, parsed) ↦
              let same : y ≡ x = ground arith in
              subst (Fits tmpl) same (H.reads rand tmpl parent pub_key key b y created parsed)
        ]
      ]

  -- A new leaf is kept under the names that it is for, and the serial number is used up.
  pub record Minted (names : List Str) (now : ℕ) (c : Cert) (cert : TlsCert) (c' : Cert)
      : Type 0 where
    pub x : X509
    pub leaf : cert.leaf ≡ some x
    pub serial : x.serial ≡ c.serial
    pub ends : x.not_after ≡ now + leaf_max_age
    pub after : c' ≡ record c { serial = suc c.serial; leafs = insert (join names) cert c.leafs }

  keep_leaf-Minted :
      (name : Str) (names : List Str) (now : ℕ) (c c' : Cert) (key : Bytes) (cert : TlsCert)
      (rand rand' : C.Rand) (res : Result CertError (Bytes × X509))
      → ((der : Bytes) (x : X509)
          → res ≡ ok (der, x)
          → Fits (leaf_template C c.serial name names now) x)
      → keep_leaf C (join names) key (res, rand) c ≡ (ok cert, c', rand')
      → Minted names now c cert c'
  unfolding keep_leaf
  keep_leaf-Minted name names now c c' key cert rand rand' (err e) fits done = absurd (ground arith)
  keep_leaf-Minted name names now c c' key cert rand rand' (ok (der, x)) fits done = record {
    x = x;
    leaf = cc;
    serial = (fits der x refl).0;
    ends = (fits der x refl).1;
    after = cc;
  }

  new_leaf-Minted :
      (name : Str) (names : List Str) (now : ℕ) (parent : X509) (key : Result CertError Bytes)
      (rand rand' : C.Rand) (c c' : Cert) (cert : TlsCert)
      → new_leaf C name names now parent (key, rand) c ≡ (ok cert, c', rand')
      → Minted names now c cert c'
  unfolding new_leaf
  new_leaf-Minted name names now parent (err e) rand rand' c c' cert done = absurd (ground arith)
  new_leaf-Minted name names now parent (ok key) rand rand' c c' cert done =
      let tmpl = leaf_template C c.serial name names now in
      let issued = issue C rand tmpl (some parent) (C.public key) (ca_key c) in
      keep_leaf-Minted name names now c c' key cert issued.1 rand' issued.0
        (λ der x e. issue-reads rand tmpl (some parent) (C.public key) (ca_key c) der x e) done

  -- The certificate that `LeafCert` returns: the one in the cache, or a new one.
  abbrev pub Found : List Str → ℕ → Cert → TlsCert → Cert → Type 0
  Found names now c cert c' =
      (c' ≡ c) × (lookup (join names) c.leafs ≡ some cert) × (is_fresh now cert ≡ true)

  pub leaf_cert-cases :
      (names : List Str) (now : ℕ) (rand rand' : C.Rand) (c c' : Cert) (cert : TlsCert)
      → leaf_cert C names now rand c ≡ (ok cert, c', rand')
      → Found names now c cert c' ⊎ Minted names now c cert c'
  unfolding leaf_cert
  leaf_cert-cases [] now rand rand' c c' cert done = absurd (ground arith)
  leaf_cert-cases (name ∷ more) now rand rand' c c' cert done = elim (Option-cases (ca_leaf c)) [
    | inl missing ↦ absurd (ground arith)
    | inr (parent, has) ↦ elim (Option-cases (lookup (join (name ∷ more)) c.leafs)) [
      | inl missing ↦ inr (
          new_leaf-Minted name (name ∷ more) now parent (C.gen_key rand).0 (C.gen_key rand).1 rand'
            c c' cert (ground arith))
      | inr (old, kept) ↦ elim (Bool-cases (is_fresh now old)) [
        | inl fresh ↦ inl (ground arith, ground arith, ground arith)
        | inr stale ↦ inr (
            new_leaf-Minted name (name ∷ more) now parent (C.gen_key rand).0 (C.gen_key rand).1
              rand' c c' cert (ground arith))
      ]
    ]
  ]

  -- The certificate is valid for longer than some number of seconds from a time on.
  abbrev pub IsValidFor : ℕ → ℕ → TlsCert → Type 0
  IsValidFor seconds now cert = (x : X509) × (cert.leaf ≡ some x) × (now + seconds < x.not_after)

  fresh-IsValidFor :
      (now : ℕ) (cert : TlsCert) → is_fresh now cert ≡ true → IsValidFor 3600 now cert
  fresh-IsValidFor now cert fresh = elim (Option-cases cert.leaf) [
    | inl missing ↦ absurd (ground arith)
    | inr (x, leaf) ↦
        let later : ltb (now + hour) x.not_after ≡ true = ground arith in
        (x, leaf, ground (arith, later))
  ]

  Minted-IsValidFor :
      (names : List Str) (now : ℕ) (c c' : Cert) (cert : TlsCert)
      → Minted names now c cert c'
      → IsValidFor 3600 now cert
  Minted-IsValidFor names now c c' cert m = (m.x, m.leaf, omega (arith, m.ends))

  -- If parsed certificates have the ends of validity of their templates, a certificate that
  -- LeafCert returns is parsed, and the end of its validity is more than an hour (3600 seconds)
  -- after now.
  pub leaf_cert-fresh :
      (names : List Str) (now : ℕ) (rand rand' : C.Rand) (c c' : Cert) (cert : TlsCert)
      → leaf_cert C names now rand c ≡ (ok cert, c', rand')
      → (x : X509) × (cert.leaf ≡ some x) × (now + 3600 < x.not_after)
  leaf_cert-fresh names now rand rand' c c' cert done =
      elim (leaf_cert-cases names now rand rand' c c' cert done) [
        | inl (same, kept, fresh) ↦ fresh-IsValidFor now cert fresh
        | inr m ↦ Minted-IsValidFor names now c c' cert m
      ]

  Minted-kept :
      (names : List Str) (now : ℕ) (c c' : Cert) (cert : TlsCert)
      → Minted names now c cert c'
      → lookup (join names) c'.leafs ≡ some cert
  Minted-kept names now c c' cert m = rw (m.after) (lookup-insert_self (join names) cert c.leafs)

  leaf_cert-found :
      (names : List Str) (now : ℕ) (rand : C.Rand) (c : Cert) (cert : TlsCert) (parent : X509)
      → names ≢ []
      → ca_leaf c ≡ some parent
      → lookup (join names) c.leafs ≡ some cert
      → is_fresh now cert ≡ true
      → leaf_cert C names now rand c ≡ (ok cert, c, rand)
  unfolding leaf_cert
  leaf_cert-found [] now rand c cert parent ne has kept fresh = absurd (ne refl)
  leaf_cert-found (name ∷ more) now rand c cert parent ne has kept fresh = ground arith

  leaf_cert-asked :
      (names : List Str) (now : ℕ) (rand rand' : C.Rand) (c c' : Cert) (cert : TlsCert)
      → leaf_cert C names now rand c ≡ (ok cert, c', rand')
      → (names ≢ []) × ((parent : X509) × (ca_leaf c ≡ some parent))
  unfolding leaf_cert
  leaf_cert-asked [] now rand rand' c c' cert done = absurd (ground arith)
  leaf_cert-asked (name ∷ more) now rand rand' c c' cert done = (
    (λ e. cc e),
    elim (Option-cases (ca_leaf c)) [ inl missing ↦ absurd (ground arith) | inr found ↦ found ],
  )

  -- If parsed certificates have the ends of validity of their templates, the names that a
  -- certificate was returned for, asked for again as long as it is valid for more than an hour,
  -- give the same certificate and change nothing.
  pub leaf_cert-again :
      (names : List Str) (now later : ℕ) (rand rand' rand'' : C.Rand) (c c' : Cert) (cert : TlsCert)
      → leaf_cert C names now rand c ≡ (ok cert, c', rand')
      → is_fresh later cert ≡ true
      → leaf_cert C names later rand'' c' ≡ (ok cert, c', rand'')
  leaf_cert-again names now later rand rand' rand'' c c' cert done fresh =
      let (ne, (parent, has)) = leaf_cert-asked names now rand rand' c c' cert done in
      elim (leaf_cert-cases names now rand rand' c c' cert done) [
        | inl (same, kept, _) ↦
            leaf_cert-found names later rand'' c' cert parent ne (ap ca_leaf same ∙ has)
              (ap (λ (z : Cert). lookup (join names) z.leafs) same ∙ kept) fresh
        | inr m ↦
            leaf_cert-found names later rand'' c' cert parent ne (ap ca_leaf m.after ∙ has)
              (Minted-kept names now c c' cert m) fresh
      ]
