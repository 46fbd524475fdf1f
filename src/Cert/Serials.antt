-- ===== src/Cert/Serials.antt =====
-- Whatever calls come, the authority that is in place stays, and no two leaf certificates in the
-- cache have the same serial number.
use mathlib.Core.Path.{subst}
use httplock.Base.{
  ℕ, suc, ◌<◌, ◌≡◌, ◌≢◌, ◌∙◌, sym, ap, some, List, Str, Result-cases, inl, inr, arith,
}
use httplock.Base.Dict.{lookup, insert, lookup-insert-cases}
use package.httplock.Cert.{Cert, new_cert, TlsCert, X509, Crypto, leaf_cert, join, ca_set, ca_gen}
use package.httplock.Cert.Authority.{IsHonest, Minted, leaf_cert-cases}
use package.httplock.Cert.Steps.{
  Step, setting, generating, leafing, Reach, start, next, ca_set-configured, some_eq, ca_gen-keeps,
  IsSound, Grown-IsSound, ca_set-Grown, ca_gen-Grown, leaf_cert-failed,
}

module _ (C : Crypto) (H : IsHonest C) where
  -- The serial number of what is in the cache after a new leaf is kept.
  Minted-below :
      (names : List Str) (now : ℕ) (c c' : Cert) (cert : TlsCert)
      → Minted C H names now c cert c'
      → IsSound C c
      → (j : Str) (one : TlsCert) → lookup j (insert (join names) cert c.leafs) ≡ some one
      → (x : X509) × (one.leaf ≡ some x) × (x.serial < suc c.serial)
  Minted-below names now c c' cert m sound j one kept =
      elim (lookup-insert-cases (join names) j cert one c.leafs kept) [
        | inl (same, new) ↦
            (m.x, ap (λ (z : TlsCert). z.leaf) new ∙ m.leaf, omega (arith, m.serial))
        | inr (other, old) ↦
            let (x, leaf, less) = sound.below j one old in (x, leaf, omega (arith, less))
      ]

  -- A leaf that was in the cache has another serial number than the new one.
  old-serial :
      (j : Str) (one : TlsCert) (x : X509) (c : Cert)
      → IsSound C c
      → (lookup j c.leafs ≡ some one) × (one.leaf ≡ some x)
      → x.serial < c.serial
  old-serial j one x c sound (kept, leaf) =
      let (y, leaf', less) = sound.below j one kept in
      subst (λ (z : X509). z.serial < c.serial) (some_eq one.leaf y x leaf' leaf) less

  new-serial :
      (names : List Str) (now : ℕ) (c c' : Cert) (cert one : TlsCert) (x : X509)
      (m : Minted C H names now c cert c')
      → one ≡ cert
      → one.leaf ≡ some x
      → x.serial ≡ c.serial
  new-serial names now c c' cert one x m new leaf =
      ap (λ (z : X509). z.serial)
        (some_eq one.leaf x m.x leaf (ap (λ (z : TlsCert). z.leaf) new ∙ m.leaf))
      ∙ m.serial

  Minted-distinct :
      (names : List Str) (now : ℕ) (c c' : Cert) (cert : TlsCert)
      → Minted C H names now c cert c'
      → IsSound C c
      → (i j : Str) (one two : TlsCert) (x y : X509) → i ≢ j
      → (lookup i (insert (join names) cert c.leafs) ≡ some one) × (one.leaf ≡ some x)
      → (lookup j (insert (join names) cert c.leafs) ≡ some two) × (two.leaf ≡ some y)
      → x.serial ≢ y.serial
  Minted-distinct names now c c' cert m sound i j one two x y ne (kept, leaf) (kept', leaf') equal =
      elim (lookup-insert-cases (join names) i cert one c.leafs kept) [
        | inl (same, new) ↦ elim (lookup-insert-cases (join names) j cert two c.leafs kept') [
          | inl (same', new') ↦ ne (sym same ∙ same')
          | inr (other', old') ↦
              let at = new-serial names now c c' cert one x m new leaf in
              let less = old-serial j two y c sound (old', leaf') in omega (arith, at, less, equal)
        ]
        | inr (other, old) ↦ elim (lookup-insert-cases (join names) j cert two c.leafs kept') [
          | inl (same', new') ↦
              let at = new-serial names now c c' cert two y m new' leaf' in
              let less = old-serial i one x c sound (old, leaf) in omega (arith, at, less, equal)
          | inr (other', old') ↦ sound.distinct i j one two x y ne (old, leaf) (old', leaf') equal
        ]
      ]

  Minted-IsSound :
      (names : List Str) (now : ℕ) (c c' : Cert) (cert : TlsCert)
      → Minted C H names now c cert c'
      → IsSound C c
      → IsSound C c'
  Minted-IsSound names now c c' cert m sound = subst (IsSound C) (sym m.after) (record {
    below = Minted-below names now c c' cert m sound;
    distinct = Minted-distinct names now c c' cert m sound;
  })

  leaf_cert-IsSound :
      (names : List Str) (now : ℕ) (rand : C.Rand) (c : Cert)
      → IsSound C c
      → IsSound C (leaf_cert C names now rand c).1
  leaf_cert-IsSound names now rand c sound =
      let (res, c', rand') = leaf_cert C names now rand c in
      elim (Result-cases res) [
        | inr (e, failed) ↦
            subst (IsSound C) (sym (leaf_cert-failed C names now rand c e failed)) sound
        | inl (cert, given) ↦
            elim (leaf_cert-cases C H names now rand rand' c c' cert (λ i. (given i, c', rand'))) [
              | inl (same, _, _) ↦ subst (IsSound C) (sym same) sound
              | inr m ↦ Minted-IsSound names now c c' cert m sound
            ]
      ]

  Step-IsSound : {c c' : Cert} → Step C c c' → IsSound C c → IsSound C c'
  Step-IsSound (setting c cert) sound =
      Grown-IsSound C c (ca_set cert c).1 (ca_set-Grown C cert c) sound
  Step-IsSound (generating c name now rand) sound =
      Grown-IsSound C c (ca_gen C name now rand c).1 (ca_gen-Grown C name now rand c) sound
  Step-IsSound (leafing c names now rand) sound = leaf_cert-IsSound names now rand c sound

  -- If parsed certificates have the serial numbers of their templates, then whatever calls were
  -- made of a new Cert, the leaf certificates that it keeps have serial numbers that are smaller
  -- than the next one, and different ones for different names.
  pub Reach-IsSound : (unix : ℕ) {c : Cert} → Reach C (new_cert unix) c → IsSound C c
  unfolding new_cert lookup
  Reach-IsSound unix start = record {
    below = λ j cert kept. absurd (ground arith);
    distinct = λ i j one two x y ne (kept, leaf) other. absurd (ground arith);
  }
  Reach-IsSound unix (next r step) = Step-IsSound step (Reach-IsSound unix r)

  Step-ca : {c c' : Cert} (ca : TlsCert) → Step C c c' → c.ca ≡ some ca → c'.ca ≡ some ca
  Step-ca ca (setting c cert) has = (λ i. (ca_set-configured cert ca c has i).1.ca) ∙ has
  Step-ca ca (generating c name now rand) has = (ca_gen-keeps C name now ca rand c has).1
  Step-ca ca (leafing c names now rand) has =
      let (res, c', rand') = leaf_cert C names now rand c in
      elim (Result-cases res) [
        | inr (e, failed) ↦
            ap (λ (z : Cert). z.ca) (leaf_cert-failed C names now rand c e failed) ∙ has
        | inl (cert, given) ↦
            elim (leaf_cert-cases C H names now rand rand' c c' cert (λ i. (given i, c', rand'))) [
              | inl (same, _, _) ↦ ap (λ (z : Cert). z.ca) same ∙ has
              | inr m ↦ ap (λ (z : Cert). z.ca) m.after ∙ has
            ]
      ]

  -- If parsed certificates are as their templates say, an authority that is in place stays,
  -- whatever is called.
  pub Reach-ca : (ca : TlsCert) {c c' : Cert} → Reach C c c' → c.ca ≡ some ca → c'.ca ≡ some ca
  Reach-ca ca start has = has
  Reach-ca ca (next r step) has = Step-ca ca step (Reach-ca ca r has)
