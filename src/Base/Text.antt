-- ===== src/Base/Text.antt =====
-- Go strings are sequences of bytes. `==`, `<` and `strings.Compare` go byte by byte.
use Prim.Native.Nat.{ℕ, Ordering}
use Prim.Native.Char.{code}
use Prim.Native.String.{String}
use mathlib.Core.Path.{◌≡◌, refl}
use mathlib.Core.Logic.{◌≢◌, ◌↔◌, ◌⊎◌, inl, inr}
use mathlib.Core.Bool.{Bool, true, false, ◌&&◌, ◌||◌}
use mathlib.Core.List.{List, [], ◌∷◌}
use native.Mathlib.Omega.{arith}
use package.httplock.Base.Tests.{ltb, ◌==◌, if◌then◌else◌}

abbrev pub Str : Type 0
Str = List ℕ

-- A literal, as the bytes of its ASCII characters.
abbrev pub text : String → Str
text String.[] = []
text (String.◌∷◌ c s) = code c ∷ text s

unfoldable pub str_eq : Str → Str → Bool
str_eq [] [] = true
str_eq [] (b ∷ bs) = false
str_eq (a ∷ as') [] = false
str_eq (a ∷ as') (b ∷ bs) = (a == b) && str_eq as' bs

pub str_eq_iff : (s t : Str) → (str_eq s t ≡ true) ↔ (s ≡ t)
unfolding str_eq
str_eq_iff [] [] = ground arith
str_eq_iff [] (b ∷ bs) = ground arith
str_eq_iff (a ∷ as') [] = ground arith
str_eq_iff (a ∷ as') (b ∷ bs) = ground (arith, str_eq_iff as' bs)

pub str_eq_refl : (s : Str) → str_eq s s ≡ true
str_eq_refl s = (str_eq_iff s s).1 refl

-- `strings.HasPrefix s p`
unfoldable pub has_prefix : Str → Str → Bool
has_prefix s [] = true
has_prefix [] (b ∷ p) = false
has_prefix (a ∷ s) (b ∷ p) = (a == b) && has_prefix s p

-- `s < t`
unfoldable pub str_lt : Str → Str → Bool
str_lt s [] = false
str_lt [] (b ∷ t) = true
str_lt (a ∷ s) (b ∷ t) = ltb a b || ((a == b) && str_lt s t)

pub str_lt_irrefl : (s : Str) → str_lt s s ≡ false
unfolding str_lt
str_lt_irrefl [] = refl
str_lt_irrefl (a ∷ s) = ground (arith, str_lt_irrefl s)

pub str_lt_trans : (s t u : Str) → str_lt s t ≡ true → str_lt t u ≡ true → str_lt s u ≡ true
unfolding str_lt
str_lt_trans s [] u h k = ground arith
str_lt_trans s (b ∷ t) [] h k = ground arith
str_lt_trans [] (b ∷ t) (c ∷ u) h k = refl
str_lt_trans (a ∷ s) (b ∷ t) (c ∷ u) h k = ground (arith, str_lt_trans s t u)

pub str_lt_total : (s t : Str) → (str_lt s t ≡ true) ⊎ (str_lt t s ≡ true) ⊎ (s ≡ t)
unfolding str_lt
str_lt_total [] [] = inr (inr refl)
str_lt_total [] (b ∷ t) = inl refl
str_lt_total (a ∷ s) [] = inr (inl refl)
str_lt_total (a ∷ s) (b ∷ t) = ground (arith, str_lt_total s t)

-- `strings.Compare`
unfoldable pub compare_str : Str → Str → Ordering
compare_str s t =
    if str_lt s t then Ordering.lt else if str_lt t s then Ordering.gt else Ordering.eq

-- `sort.Strings`
unfoldable pub insert_str : Str → List Str → List Str
insert_str k [] = k ∷ []
insert_str k (j ∷ l) = if str_lt k j then k ∷ j ∷ l else j ∷ insert_str k l

unfoldable pub sort_strs : List Str → List Str
unfolding insert_str
sort_strs [] = []
sort_strs (k ∷ l) = insert_str k (sort_strs l)

-- Texts that the test tells apart differ.
pub ne_of_str_eq : (s t : Str) → str_eq s t ≡ false → s ≢ t
ne_of_str_eq s t differ same = ground (arith, str_eq_iff s t)
