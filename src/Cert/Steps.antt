-- ===== src/Cert/Steps.antt =====
-- The calls of a `Cert`, and what those that issue no leaf certificate leave alone.
use mathlib.Core.Path.{subst}
use httplock.Base.{
  ℕ, suc, ◌<◌, ◌≤◌, ◌≡◌, ◌≢◌, refl, ◌∙◌, sym, ap, Option, none, some, List, [], ◌∷◌, Str, Result,
  ok, err, Option-cases, Bool-cases, inl, inr, arith,
}
use httplock.Base.Dict.{lookup}
use httplock.Hasher.{Bytes}
use package.httplock.Cert.{
  Cert, TlsCert, X509, Crypto, CertError, ca_leaf, made, leaf_cert, keep_leaf, new_leaf, join,
  ca_set, check_certificate, check_key, check_leaf, ca_gen, gen_with, set_made, already_configured,
  ca_template, ca_keys, issue,
}

-- One call, whatever it returns. `CARead` sets the CA that it has read.
pub data Step (C : Crypto) : Cert → Cert → Type 0 where
  setting : (c : Cert) (cert : TlsCert) → Step C c (ca_set cert c).1
  generating :
      (c : Cert) (name : Str) (now : ℕ) (rand : C.Rand) → Step C c (ca_gen C name now rand c).1
  leafing :
      (c : Cert) (names : List Str) (now : ℕ) (rand : C.Rand)
      → Step C c (leaf_cert C names now rand c).1

pub data Reach (C : Crypto) (c : Cert) : Cert → Type 0 where
  start : Reach C c c
  next : {c' c'' : Cert} → Reach C c c' → Step C c' c'' → Reach C c c''

pub ca_set-configured :
    (cert ca : TlsCert) (c : Cert) → c.ca ≡ some ca → ca_set cert c ≡ (err already_configured, c)
unfolding ca_set
ca_set-configured cert ca c has = ground arith

pub some_eq {ℓ} : {A : Type ℓ} (o : Option A) (x y : A) → o ≡ some x → o ≡ some y → x ≡ y
some_eq o x y e f = cc

module _ (C : Crypto) where
  set_made-configured :
      (key : Bytes) (ca : TlsCert) (res : Result CertError (Bytes × X509)) (rand : C.Rand)
      (c : Cert)
      → c.ca ≡ some ca
      → ((e : CertError) × ((set_made C key (res, rand) c).0 ≡ err e))
        × ((set_made C key (res, rand) c).1.ca ≡ some ca)
  unfolding set_made
  set_made-configured key ca (err e) rand c has = ((e, refl), has)
  set_made-configured key ca (ok (der, x)) rand c has =
      let e = ca_set-configured (made C der key x) ca (record c { serial = suc c.serial }) has in
      ((already_configured, λ i. (e i).0), (λ i. (e i).1.ca) ∙ has)

  gen_with-configured :
      (name : Str) (now : ℕ) (ca : TlsCert) (res : Result CertError (Bytes × Bytes)) (rand : C.Rand)
      (c : Cert)
      → c.ca ≡ some ca
      → ((e : CertError) × ((gen_with C name now (res, rand) c).0 ≡ err e))
        × ((gen_with C name now (res, rand) c).1.ca ≡ some ca)
  unfolding gen_with
  gen_with-configured name now ca (err e) rand c has = ((e, refl), has)
  gen_with-configured name now ca (ok (key, pub_key)) rand c has =
      set_made-configured key ca _ _ c has

  pub ca_gen-keeps :
      (name : Str) (now : ℕ) (ca : TlsCert) (rand : C.Rand) (c : Cert)
      → c.ca ≡ some ca
      → ((e : CertError) × ((ca_gen C name now rand c).0 ≡ err e))
        × ((ca_gen C name now rand c).1.ca ≡ some ca)
  unfolding ca_gen
  ca_gen-keeps name now ca rand c has = gen_with-configured name now ca _ _ c has

  -- The keys of the authority that is there; no random bytes are used.
  found_keys :
      (ca : TlsCert) (key : Bytes) (x : X509) (rand : C.Rand)
      → ca.private_key ≡ some key
      → ca.leaf ≡ some x
      → ca_keys C (some ca) rand ≡ (ok (key, x.public_key), rand)
  found_keys ca key x rand key_there leaf = ground arith

  -- With an authority in place that has a key and is parsed, when a certificate of its public key,
  -- signed by its key, can be made and parsed, CAGen makes it with no new key, uses up a serial
  -- number and then fails because an authority is configured; the authority and the leaf
  -- certificates stay.
  pub ca_gen-configured :
      (name : Str) (now : ℕ) (ca : TlsCert) (key : Bytes) (x y : X509) (der : Bytes)
      (rand rand' : C.Rand) (c : Cert)
      → c.ca ≡ some ca
      → ca.private_key ≡ some key
      → ca.leaf ≡ some x
      → C.create rand (ca_template C c.serial name now) none x.public_key (some key)
        ≡ (ok der, rand')
      → C.parse der ≡ ok y
      → ca_gen C name now rand c
        ≡ (err already_configured, record c { serial = suc c.serial }, rand')
  unfolding ca_gen gen_with set_made issue
  ca_gen-configured name now ca key x y der rand rand' c has key_there leaf created parsed =
      let tmpl = ca_template C c.serial name now in
      let keys : ca_keys C c.ca rand ≡ (ok (key, x.public_key), rand) =
        ap (λ z. ca_keys C z rand) has ∙ found_keys ca key x rand key_there leaf in
      let issued : issue C rand tmpl none x.public_key (some key) ≡ (ok (der, y), rand') =
        rw (created, issue) (rw parsed) in
      let e = ca_set-configured (made C der key y) ca (record c { serial = suc c.serial }) has in
      ap (λ k. gen_with C name now k c) keys ∙ ap (λ z. set_made C key z c) issued ∙ λ i.
      ((e i).0, (e i).1, rand')

  -- The serial numbers of the leafs in the cache are used up, and distinct.
  pub record IsSound (c : Cert) : Type 0 where
    pub below :
        (j : Str) (cert : TlsCert)
        → lookup j c.leafs ≡ some cert
        → (x : X509) × (cert.leaf ≡ some x) × (x.serial < c.serial)
    pub distinct :
        (i j : Str) (one two : TlsCert) (x y : X509)
        → i ≢ j
        → (lookup i c.leafs ≡ some one) × (one.leaf ≡ some x)
        → (lookup j c.leafs ≡ some two) × (two.leaf ≡ some y)
        → x.serial ≢ y.serial

  -- Nothing but the number of the next certificate has grown.
  abbrev Grown : Cert → Cert → Type 0
  Grown c c' = (c'.leafs ≡ c.leafs) × (c.serial ≤ c'.serial)

  pub Grown-IsSound : (c c' : Cert) → Grown c c' → IsSound c → IsSound c'
  Grown-IsSound c c' (same, more) sound = record {
    below = λ j cert kept.
        let (x, leaf, less) = sound.below j cert (ap (lookup j) (sym same) ∙ kept) in
        (x, leaf, omega (arith, less));
    distinct = λ i j one two x y ne (kept, leaf) (kept', leaf').
        sound.distinct i j one two x y ne (ap (lookup i) (sym same) ∙ kept, leaf)
          (ap (lookup j) (sym same) ∙ kept', leaf');
  }

  check_leaf-Grown :
      (cert : TlsCert) (leaf : Option X509) (c : Cert) → Grown c (check_leaf cert leaf c).1
  unfolding check_leaf
  check_leaf-Grown cert none c = (refl, omega arith)
  check_leaf-Grown cert (some leaf) c = elim (Bool-cases leaf.is_ca) [
    | inl ca ↦ rw ca (refl, omega arith)
    | inr other ↦ rw other (refl, omega arith)
  ]

  check_key-Grown :
      (cert : TlsCert) (key : Option Bytes) (c : Cert) → Grown c (check_key cert key c).1
  unfolding check_key
  check_key-Grown cert none c = (refl, omega arith)
  check_key-Grown cert (some key) c = check_leaf-Grown cert cert.leaf c

  check_certificate-Grown :
      (cert : TlsCert) (bytes : List Bytes) (c : Cert) → Grown c (check_certificate cert bytes c).1
  unfolding check_certificate
  check_certificate-Grown cert [] c = (refl, omega arith)
  check_certificate-Grown cert ([] ∷ more) c = (refl, omega arith)
  check_certificate-Grown cert ((b ∷ bs) ∷ more) c = check_key-Grown cert cert.private_key c

  abbrev set_over : TlsCert → Cert → Option TlsCert → Result CertError (Unit {0}) × Cert
  set_over cert c (some ca) = (err already_configured, c)
  set_over cert c none = check_certificate cert cert.certificate c

  pub ca_set-Grown : (cert : TlsCert) (c : Cert) → Grown c (ca_set cert c).1
  unfolding ca_set
  ca_set-Grown cert c = elim (Option-cases c.ca) [
    | inl empty ↦
        subst (λ o. Grown c (set_over cert c o).1) (sym empty)
          (check_certificate-Grown cert cert.certificate c)
    | inr (ca, has) ↦ subst (λ o. Grown c (set_over cert c o).1) (sym has) (refl, omega arith)
  ]

  set_made-Grown :
      (key : Bytes) (res : Result CertError (Bytes × X509)) (rand : C.Rand) (c : Cert)
      → Grown c (set_made C key (res, rand) c).1
  unfolding set_made
  set_made-Grown key (err e) rand c = (refl, omega arith)
  set_made-Grown key (ok (der, x)) rand c =
      let g = ca_set-Grown (made C der key x) (record c { serial = suc c.serial }) in
      (g.0, omega (arith, g.1))

  gen_with-Grown :
      (name : Str) (now : ℕ) (res : Result CertError (Bytes × Bytes)) (rand : C.Rand) (c : Cert)
      → Grown c (gen_with C name now (res, rand) c).1
  unfolding gen_with
  gen_with-Grown name now (err e) rand c = (refl, omega arith)
  gen_with-Grown name now (ok (key, pub_key)) rand c = set_made-Grown key _ _ c

  pub ca_gen-Grown :
      (name : Str) (now : ℕ) (rand : C.Rand) (c : Cert) → Grown c (ca_gen C name now rand c).1
  unfolding ca_gen
  ca_gen-Grown name now rand c = gen_with-Grown name now _ _ c

  keep_leaf-failed :
      (joined : Str) (key : Bytes) (res : Result CertError (Bytes × X509)) (rand : C.Rand)
      (c : Cert) (e : CertError)
      → (keep_leaf C joined key (res, rand) c).0 ≡ err e
      → (keep_leaf C joined key (res, rand) c).1 ≡ c
  unfolding keep_leaf
  keep_leaf-failed joined key (err x) rand c e failed = refl
  keep_leaf-failed joined key (ok (der, x)) rand c e failed = absurd (ground arith)

  new_leaf-failed :
      (name : Str) (names : List Str) (now : ℕ) (parent : X509) (key : Result CertError Bytes)
      (rand : C.Rand) (c : Cert) (e : CertError)
      → (new_leaf C name names now parent (key, rand) c).0 ≡ err e
      → (new_leaf C name names now parent (key, rand) c).1 ≡ c
  unfolding new_leaf
  new_leaf-failed name names now parent (err x) rand c e failed = refl
  new_leaf-failed name names now parent (ok key) rand c e failed =
      keep_leaf-failed (join names) key _ _ c e failed

  pub leaf_cert-failed :
      (names : List Str) (now : ℕ) (rand : C.Rand) (c : Cert) (e : CertError)
      → (leaf_cert C names now rand c).0 ≡ err e
      → (leaf_cert C names now rand c).1 ≡ c
  unfolding leaf_cert
  leaf_cert-failed [] now rand c e failed = refl
  leaf_cert-failed (name ∷ more) now rand c e failed = elim (Option-cases (ca_leaf c)) [
    | inl missing ↦ ground arith
    | inr (parent, has) ↦
        let minting =
          new_leaf-failed name (name ∷ more) now parent (C.gen_key rand).0 (C.gen_key rand).1 c e in
        elim (Option-cases (lookup (join (name ∷ more)) c.leafs)) [
          | inl empty ↦ ground (arith, minting)
          | inr (old, kept) ↦ ground (arith, minting)
        ]
  ]
