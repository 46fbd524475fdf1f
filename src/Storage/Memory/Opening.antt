-- ===== src/Storage/Memory/Opening.antt =====
-- `RootOpen` case by case: a name that is in use, one that the index lists, and any other.
use mathlib.Core.Path.{subst}
use httplock.Base.{
  ℕ, ap, ◌≡◌, ◌∙◌, sym, none, some, Str, length, str_eq_iff, Option-cases, inl, inr, ok, err, arith,
}
use httplock.Base.Dict.{lookup, insert, lookup-insert}
use httplock.Storage.Errors.{Res, not_in_index}
use httplock.Storage.Root.{new_root_hash}
use package.httplock.Storage.Memory.{MemStorage, register, root_open}

module _ (name : Str) (now : ℕ) (m : MemStorage) where
  pub root_open-named : (p : ℕ) → lookup name m.roots ≡ some p → root_open name now m ≡ (ok p, m)
  unfolding root_open
  root_open-named p named = rw (named, root_open)

  pub root_open-listed :
      (used : ℕ)
      → lookup name m.roots ≡ none
      → lookup name m.index ≡ some used
      → root_open name now m ≡ (
        ok (length m.objects),
        register name (new_root_hash name) (record m { index = insert name now m.index }),
      )
  unfolding root_open
  root_open-listed used unnamed listed = rw (unnamed, root_open) (rw listed)

  pub root_open-unknown :
      lookup name m.roots ≡ none
      → lookup name m.index ≡ none
      → root_open name now m ≡ (err (not_in_index name), m)
  unfolding root_open
  root_open-unknown unnamed unknown = rw (unnamed, root_open) (rw unknown)

  -- An open that succeeds leaves the name in use for the root that it gave.
  pub root_open-names :
      {p : ℕ} {m' : MemStorage} → root_open name now m ≡ (ok p, m') → lookup name m'.roots ≡ some p
  root_open-names {p} done = elim (Option-cases (lookup name m.roots)) [
    | inr (q, named) ↦ cc (root_open-named q named, done, named)
    | inl unnamed ↦ elim (Option-cases (lookup name m.index)) [
      | inl unknown ↦ cc (root_open-unknown unnamed unknown, done)
      | inr (used, listed) ↦
          let e = sym (root_open-listed used unnamed listed) ∙ done in
          subst (λ x. lookup name x.roots ≡ some p) (λ i. (e i).1)
            (ground (
              arith,
              lookup-insert name name (length m.objects) m.roots,
              str_eq_iff name name,
              ap (λ (x : Res ℕ × MemStorage). x.0) e,
            ))
    ]
  ]
