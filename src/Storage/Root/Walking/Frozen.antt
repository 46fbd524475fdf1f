-- ===== src/Storage/Root/Walking/Frozen.antt =====
-- Hashing an entry, a walk, a list of hashes and a report leave a root read-only, with its hash.
use httplock.Base.{ℕ, false, refl, List, [], ◌∷◌, Str, ok, err, Result-cases, inl, inr}
use httplock.Storage.Errors.{Status}
use httplock.Storage.Backend.{Backend, Codec}
use package.httplock.Storage.Root.{Root, load_root}
use package.httplock.Storage.Root.Frozen.{IsKept, IsKept-refl, get_dir-IsKept}
use package.httplock.Storage.Root.Report.{report, loaded}
use package.httplock.Storage.Root.Walking.{
  entry_hash, WalkFns, walk_root, list_hashes, list_fns, all_or_error,
}

module _ (B : Backend) (J : Codec) where
  pub entry_hash-IsKept :
      (path : List Str) (s : B.State) (r : Root) → IsKept r (entry_hash B J path s r).1
  unfolding entry_hash
  entry_hash-IsKept [] s r = IsKept-refl r
  entry_hash-IsKept (n ∷ path) s r = get_dir-IsKept B J false _ _ s r

  pub walk_root-IsKept :
      {K : Type 0} (fns : WalkFns B J K) (n : ℕ) (k : K) (s : B.State) (r : Root)
      → IsKept r (walk_root B J fns n k s r).2
  unfolding walk_root
  walk_root-IsKept fns n k s r = elim (Result-cases (load_root B J s r)) [
    | inr (e, failed) ↦ rw (failed, walk_root) (IsKept-refl r)
    | inl (d, there) ↦
        rw (there, walk_root) (record { readonly_kept = refl; hash_kept = λ frozen. refl })
  ]

  all_or_error-IsKept :
      (r : Root) (x : Status × List Str × Root × B.State)
      → IsKept r x.2
      → IsKept r (all_or_error B J x).1
  all_or_error-IsKept r (err e, hs, r', s) kept = kept
  all_or_error-IsKept r (ok u, hs, r', s) kept = kept

  pub list_hashes-IsKept : (n : ℕ) (s : B.State) (r : Root) → IsKept r (list_hashes B J n s r).1
  unfolding list_hashes
  list_hashes-IsKept n s r =
      all_or_error-IsKept r (walk_root B J (list_fns B J) n [] s r)
        (walk_root-IsKept (list_fns B J) n [] s r)

  pub report-IsKept : (n : ℕ) (s : B.State) (r : Root) → IsKept r (report B J n s r).1
  unfolding report
  report-IsKept n s r = elim (Result-cases (loaded B J s r.hash r.dir)) [
    | inr (e, failed) ↦ rw (failed, report) (IsKept-refl r)
    | inl (d, there) ↦
        rw (there, report) (record { readonly_kept = refl; hash_kept = λ frozen. refl })
  ]
