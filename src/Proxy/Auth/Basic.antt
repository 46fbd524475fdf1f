-- ===== src/Proxy/Auth/Basic.antt =====
-- The user and the password in a header.
use httplock.Base.{
  ℕ, ◌≡◌, ◌≢◌, refl, ◌∙◌, ap, Option, none, some, [], ◌∷◌, ◌++◌, Str, text, str_eq, Result, ok, err,
  All, arith,
}
use httplock.Hasher.{Bytes}
use package.httplock.Proxy.Auth.{
  AuthError, no_user_pass, split, split_once, user_pass, check_parts, check_auth_basic,
}

-- A text without a byte.
abbrev pub Lacks : ℕ → Str → Type 0
Lacks sep = All (λ (c : ℕ). c ≢ sep)

split-Lacks : (sep : ℕ) (s : Str) → Lacks sep s → split sep s ≡ s ∷ []
unfolding split
split-Lacks sep [] lacks = refl
split-Lacks sep (c ∷ s) (ne, lacks) = ground (arith, split-Lacks sep s lacks, ne)

split-at : (sep : ℕ) (a b : Str) → Lacks sep a → split sep (a ++ (sep ∷ b)) ≡ a ∷ split sep b
unfolding split
split-at sep [] b lacks = ground arith
split-at sep (c ∷ a) b (ne, lacks) = ground (arith, split-at sep a b lacks, ne)

split_once-at : (sep : ℕ) (a b : Str) → Lacks sep a → split_once sep (a ++ (sep ∷ b)) ≡ some (a, b)
unfolding split_once
split_once-at sep [] b lacks = ground arith
split_once-at sep (c ∷ a) b (ne, lacks) = ground (arith, split_once-at sep a b lacks, ne)

Basic-Lacks : Lacks 32 (text "Basic")
Basic-Lacks = (
  λ e. omega (arith, e),
  (
    λ e. omega (arith, e),
    (λ e. omega (arith, e), (λ e. omega (arith, e), (λ e. omega (arith, e), tt))),
  ),
)

module _ (decode64 : Str → Result AuthError Bytes) where
  -- If what follows Basic in a header has no space and is decoded to a user without a colon, a
  -- colon and a password, the two are found, whatever the password is.
  pub check_auth_basic-roundtrip :
      (encoded user pass : Str)
      → decode64 encoded ≡ ok (user ++ (58 ∷ pass))
      → Lacks 32 encoded
      → Lacks 58 user
      → check_auth_basic decode64 (text "Basic " ++ encoded) ≡ ok (user, pass)
  unfolding check_auth_basic check_parts user_pass str_eq
  check_auth_basic-roundtrip encoded user pass decodes spaceless colonless =
      ap (check_parts decode64) (
        split-at 32 (text "Basic") encoded Basic-Lacks
        ∙ ap (λ z. text "Basic" ∷ z) (split-Lacks 32 encoded spaceless))
      ∙ ap (user_pass decode64) decodes
      ∙ ap once (split_once-at 58 user pass colonless)
    where
      once : Option (Str × Str) → Result AuthError (Str × Str)
      once none = err no_user_pass
      once (some up) = ok up
