-- ===== src/Base/Sorting.antt =====
-- `sort.Strings`: what it gives is in order, and has the texts that it was given.
use mathlib.Core.Path.{◌≡◌, refl, ◌∙◌}
use mathlib.Core.Logic.{inl, inr}
use mathlib.Core.Bool.{Bool, true, false, ◌||◌}
use mathlib.Core.List.{List, [], ◌∷◌}
use native.Mathlib.Omega.{arith}
use package.httplock.Base.Tests.{Bool-cases}
use package.httplock.Base.Lists.{All}
use package.httplock.Base.Text.{
  Str, str_eq, str_lt, str_lt_irrefl, str_lt_trans, insert_str, sort_strs,
}

-- Is the text in the list?
abbrev pub contains : Str → List Str → Bool
contains s [] = false
contains s (t ∷ ts) = str_eq s t || contains s ts

-- No text comes after a greater one.
abbrev pub IsOrdered : List Str → Type 0
IsOrdered [] = Unit
IsOrdered (s ∷ l) = All (λ (t : Str). str_lt t s ≡ false) l × IsOrdered l

not_lt_trans : (k j y : Str) → str_lt k j ≡ true → str_lt y j ≡ false → str_lt y k ≡ false
not_lt_trans k j y less not_less = ground (arith, str_lt_trans y k j)

All-not_lt :
    (k j : Str) (l : List Str)
    → str_lt k j ≡ true
    → All (λ (t : Str). str_lt t j ≡ false) l
    → All (λ (t : Str). str_lt t k ≡ false) l
All-not_lt k j [] less above = tt
All-not_lt k j (y ∷ l) less (here, above) =
    (not_lt_trans k j y less here, All-not_lt k j l less above)

All-insert_str :
    (P : Str → Type 0) (k : Str) (l : List Str) → P k → All P l → All P (insert_str k l)
unfolding insert_str
All-insert_str P k [] here above = (here, tt)
All-insert_str P k (j ∷ l) here (at_j, above) = elim (Bool-cases (str_lt k j)) [
  | inl less ↦ rw (less, insert_str) (here, (at_j, above))
  | inr other ↦ rw (other, insert_str) (at_j, All-insert_str P k l here above)
]

insert_str-IsOrdered : (k : Str) (l : List Str) → IsOrdered l → IsOrdered (insert_str k l)
unfolding insert_str
insert_str-IsOrdered k [] up = (tt, tt)
insert_str-IsOrdered k (j ∷ l) (above, up) = elim (Bool-cases (str_lt k j)) [
  | inl less ↦
      rw (less, insert_str)
        ((not_lt_trans k j j less (str_lt_irrefl j), All-not_lt k j l less above), (above, up))
  | inr other ↦
      rw (other, insert_str)
        (All-insert_str (λ t. str_lt t j ≡ false) k l other above, insert_str-IsOrdered k l up)
]

pub sort_strs-IsOrdered : (l : List Str) → IsOrdered (sort_strs l)
unfolding sort_strs
sort_strs-IsOrdered [] = tt
sort_strs-IsOrdered (k ∷ l) = insert_str-IsOrdered k (sort_strs l) (sort_strs-IsOrdered l)

contains-insert_str :
    (s k : Str) (l : List Str) → contains s (insert_str k l) ≡ (str_eq s k || contains s l)
unfolding insert_str
contains-insert_str s k [] = refl
contains-insert_str s k (j ∷ l) = ground (arith, contains-insert_str s k l)

pub contains-sort_strs : (s : Str) (l : List Str) → contains s (sort_strs l) ≡ contains s l
unfolding sort_strs
contains-sort_strs s [] = refl
contains-sort_strs s (k ∷ l) = contains-insert_str s k (sort_strs l) ∙ rw (contains-sort_strs s l)
