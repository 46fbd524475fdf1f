-- ===== src/Base/Absent.antt =====
-- Keys that an association list does not have.
use mathlib.Core.Path.{◌≡◌, refl}
use mathlib.Core.Option.{none, some}
use mathlib.Core.List.{[], ◌∷◌, ◌++◌}
use native.Mathlib.Omega.{arith}
use package.httplock.Base.Text.{Str, str_eq, str_eq_refl}
use package.httplock.Base.Tests.{if◌then◌else◌}
use package.httplock.Base.Dict.{Dict, lookup, insert, erase}

module _ {ℓ} {V : Type ℓ} where
  pub insert-absent :
      (k : Str) (v : V) (m : Dict V) → lookup k m ≡ none → insert k v m ≡ m ++ ((k, v) ∷ [])
  unfolding lookup insert
  insert-absent k v [] new = refl
  insert-absent k v ((j, w) ∷ m) new = ground (arith, insert-absent k v m)

  pub insert-last :
      (k : Str) (v w : V) (m : Dict V)
      → lookup k m ≡ none
      → insert k v (m ++ ((k, w) ∷ [])) ≡ m ++ ((k, v) ∷ [])
  unfolding lookup insert
  insert-last k v w [] new = rw (str_eq_refl) refl
  insert-last k v w ((j, u) ∷ m) new = ground (arith, insert-last k v w m)

  pub lookup-last :
      (k j : Str) (w : V) (m : Dict V)
      → lookup j m ≡ none
      → lookup j (m ++ ((k, w) ∷ [])) ≡ (if str_eq k j then some w else none)
  unfolding lookup
  lookup-last k j w [] new = refl
  lookup-last k j w ((i, u) ∷ m) new = ground (arith, lookup-last k j w m)

  pub erase-absent : (k : Str) (m : Dict V) → lookup k m ≡ none → erase k m ≡ m
  unfolding lookup erase
  erase-absent k [] new = refl
  erase-absent k ((j, w) ∷ m) new = ground (arith, erase-absent k m)
