-- ===== src/Storage/Backend/Steps.antt =====
-- A blob that is created, written and closed by separate calls, in a storage that is reliable.
use httplock.Base.{
  str_eq, str_eq_iff, ne_of_str_eq, Bool-cases, ℕ, ◌≡◌, sym, ◌∙◌, ap, [], Str, ok, Result-cases,
  inl, inr, arith,
}
use httplock.Hasher.{Bytes}
use httplock.Storage.Errors.{Status}
use package.httplock.Storage.Backend.{
  Backend, IsReliable, push, ask_hash, close_and_hash, write_and_hash,
}

module _ (digest : Bytes → Str) (B : Backend) (R : IsReliable digest B) where
  push-stepped :
      (s s₁ s₂ : B.State) (b : Bytes) (w n : ℕ)
      → B.blob_create s ≡ (ok w, s₁)
      → B.blob_write s₁ w b ≡ (ok n, s₂)
      → push B s [] b ≡ ask_hash B (B.blob_close s₂ w).1 w
  unfolding push write_and_hash close_and_hash
  push-stepped s s₁ s₂ b w n created wrote = rw created (rw wrote)

  -- The calls leave what pushing the blob leaves, and the writer then has its digest.
  pub steps-push :
      (s s₁ s₂ : B.State) (b : Bytes) (w n : ℕ)
      → B.blob_create s ≡ (ok w, s₁)
      → B.blob_write s₁ w b ≡ (ok n, s₂)
      → ((push B s [] b).2 ≡ (B.blob_close s₂ w).1)
        × (B.blob_hash (B.blob_close s₂ w).1 w ≡ ok (digest b))
  unfolding ask_hash
  steps-push s s₁ s₂ b w n created wrote =
      let e = push-stepped s s₁ s₂ b w n created wrote in
      let t = (B.blob_close s₂ w).1 in
      elim (Result-cases (B.blob_hash t w)) [
        | inr (x, failed) ↦
            absurd (ground (arith, ap (λ (p : Status × Str × B.State). p.0) e, R.push_ok s [] b))
        | inl (h, hashed) ↦
            let asked : ask_hash B t w ≡ (ok tt, h, t) = rw (hashed, ask_hash) in
            let e' = e ∙ asked in
            (ap (λ x. x.2) e', hashed ∙ ap ok (sym (ap (λ x. x.1) e') ∙ R.push_hash s [] b))
      ]

  -- A blob that is pushed after another: the other still opens.
  pub push-first :
      (s : B.State) (b c : Bytes)
      → B.blob_open s (digest b) ≡ ok b
      → (digest c ≡ digest b → c ≡ b)
      → B.blob_open (push B s [] c).2 (digest b) ≡ ok b
  push-first s b c there apart = elim (Bool-cases (str_eq (digest b) (digest c))) [
    | inl same ↦
        let e = (str_eq_iff (digest b) (digest c)).0 same in
        ap (B.blob_open (push B s [] c).2) e ∙ R.push_stores s [] c ∙ ap ok (apart (sym e))
    | inr other ↦ R.push_keeps s [] c (digest b) there (ne_of_str_eq (digest b) (digest c) other)
  ]

  -- Two blobs in a row: both open, and the first writer still has its name.
  pub two-pushed :
      (s t u : B.State) (b c : Bytes) (w : ℕ)
      → (push B s [] b).2 ≡ t
      → B.blob_hash t w ≡ ok (digest b)
      → (push B t [] c).2 ≡ u
      → (digest c ≡ digest b → c ≡ b)
      → (B.blob_hash u w ≡ ok (digest b))
        × (B.blob_open u (digest b) ≡ ok b)
        × (B.blob_open u (digest c) ≡ ok c)
  two-pushed s t u b c w pushed named pushed' apart =
      let there = ap (λ x. B.blob_open x (digest b)) (sym pushed) ∙ R.push_stores s [] b in
      (
        ap (λ x. B.blob_hash x w) (sym pushed') ∙ R.push_keeps_hash t [] c w named,
        ap (λ x. B.blob_open x (digest b)) (sym pushed') ∙ push-first t b c there apart,
        ap (λ x. B.blob_open x (digest c)) (sym pushed') ∙ R.push_stores t [] c,
      )
