-- ===== src/Storage/Root/Walking.antt =====
-- `EntryHash`, `Walk`, `ListHashes` and `report` (internal/storage/root.go). A walk loads the
-- directories that it comes to; `n` is the depth to which it may go.
pub mod Entry
pub mod Frozen
use httplock.Base.{
  ℕ, zero, suc, false, Option, none, some, List, [], ◌∷◌, ◌++◌, Str, text, Result, ok, err,
  sort_strs,
}
use httplock.Storage.Errors.{
  Res, Status, not_found, hash_dir_failed, hash_file_failed, out_of_turns, panic,
}
use httplock.Storage.Backend.{Backend, Codec}
use httplock.Storage.Tree.{
  File, Dir, directory, Entries, nil, cons, DirEntry, dir_entry, file_entry, DirRef, no_dir, to_dir,
  dir_hash, entries, find, put_in,
}
use package.httplock.Storage.Root.{Root, At, load_dir, load_file, load_root, get_dir, on_path}
use package.httplock.Storage.Root.Hash.{hash_file, hash_dir}

module _ (B : Backend) (J : Codec) where
  -- The entry of a directory that was hashed for `EntryHash`.
  hashed_dir : Str → Dir → Status × Dir × B.State → Res Str × Dir × B.State
  hashed_dir name d (err e, c, s) =
      (err (hash_dir_failed e), put_in name (dir_entry [] (to_dir c)) d, s)
  hashed_dir name d (ok _, c, s) =
      (ok (dir_hash c), put_in name (dir_entry (dir_hash c) (to_dir c)) d, s)

  hashed_file : Str → Dir → B.State → Status × File → Res Str × Dir × B.State
  hashed_file name d s (err e, f) =
      (err (hash_file_failed e), put_in name (file_entry [] (some f)) d, s)
  hashed_file name d s (ok _, f) = (ok f.hash, put_in name (file_entry f.hash (some f)) d, s)

  unfoldable pub entry_hash_at : Str → At B J Str
  unfolding hashed_dir hashed_file
  entry_hash_at name s d = elim (find name (entries d)) [
    | none ↦ (err (not_found name), d, s)
    | some (dir_entry (c ∷ h) x) ↦ (ok (c ∷ h), d, s)
    | some (file_entry (c ∷ h) x) ↦ (ok (c ∷ h), d, s)
    | some (dir_entry [] no_dir) ↦ (err panic, d, s)
    | some (dir_entry [] (to_dir x)) ↦ hashed_dir name d (hash_dir B J s x)
    | some (file_entry [] none) ↦ (err panic, d, s)
    | some (file_entry [] (some f)) ↦ hashed_file name d s (hash_file B s f)
  ]

  -- `EntryHash`
  unfoldable pub entry_hash : List Str → B.State → Root → Res Str × Root × B.State
  entry_hash path = on_path B J (λ front name. get_dir B J false front (entry_hash_at name)) path

  -- The functions of a walk (`WalkFns`), which may change what they are given and what they keep.
  pub record WalkFns (K : Type 0) : Type 0 where
    pub fn_dir : K → B.State → Dir → Status × K × Dir × B.State
    pub fn_file : K → B.State → File → Status × K × File × B.State

  module _ {K : Type 0} (fns : WalkFns K) where
    abbrev pub Walked : Type 0 → Type 0
    Walked A = Status × K × A × B.State

    -- The file of an entry; an entry without one gets it from its hash.
    abbrev file_of : Str → Option File → File
    file_of h none = load_file h
    file_of h (some f) = f

    abbrev in_file_entry : Str → Walked File → Walked DirEntry
    in_file_entry h (st, k, f, s) = (st, k, file_entry h (some f), s)

    abbrev in_dir_entry : Str → Walked Dir → Walked DirEntry
    in_dir_entry h (st, k, d, s) = (st, k, dir_entry h (to_dir d), s)

    abbrev rest_after :
        Str → DirEntry → Status → K → Entries → B.State → Walked Entries → Walked Entries
    rest_after name e (err x) k es s rest = (err x, k, cons name e es, s)
    rest_after name e (ok _) k es s (st, k', es', s') = (st, k', cons name e es', s')

    abbrev then_entries : Status → K → Dir → B.State → Walked Entries → Walked Dir
    then_entries (err e) k d s rest = (err e, k, d, s)
    then_entries (ok _) k (directory h es) s (st, k', es', s') = (st, k', directory h es', s')

    -- An entry whose directory is walked by `go`, with the directory loaded if it is not there.
    unfoldable pub walk_entry :
        (K → B.State → Dir → Walked Dir) → K → B.State → DirEntry → Walked DirEntry
    walk_entry go k s (file_entry h f) = in_file_entry h (fns.fn_file k s (file_of h f))
    walk_entry go k s (dir_entry h (to_dir d)) = in_dir_entry h (go k s d)
    walk_entry go k s (dir_entry h no_dir) = elim (load_dir B J s h) [
      | err e ↦ (err e, k, dir_entry h no_dir, s)
      | ok d ↦ in_dir_entry h (go k s d)
    ]

    unfoldable pub walk_entries :
        (K → B.State → Dir → Walked Dir) → K → B.State → Entries → Walked Entries
    walk_entries go k s nil = (ok tt, k, nil, s)
    walk_entries go k s (cons name e es) =
        let (st, k', e', s') = walk_entry go k s e in
        let rest = walk_entries go k' s' es in rest_after name e' st k' es s' rest

    -- `walkDir`
    unfoldable pub walk_dir : ℕ → K → B.State → Dir → Walked Dir
    walk_dir zero k s d = (err out_of_turns, k, d, s)
    walk_dir (suc n) k s d =
        let (st, k', d', s') = fns.fn_dir k s d in
        let rest = walk_entries (walk_dir n) k' s' (entries d') in then_entries st k' d' s' rest

    -- `Walk`
    unfoldable pub walk_root : ℕ → K → B.State → Root → Walked Root
    walk_root n k s r = elim (load_root B J s r) [
      | err e ↦ (err e, k, r, s)
      | ok d ↦ let (st, k', d', s') = walk_dir n k s d in (st, k', record r { dir = to_dir d' }, s')
    ]

  abbrev listed_dir : List Str → Status × Dir × B.State → Status × List Str × Dir × B.State
  listed_dir hs (err e, d, s) = (err e, hs, d, s)
  listed_dir hs (ok _, d, s) = (ok tt, hs ++ (dir_hash d ∷ []), d, s)

  abbrev listed_file : List Str → B.State → Status × File → Status × List Str × File × B.State
  listed_file hs s (err e, f) = (err e, hs, f, s)
  listed_file hs s (ok _, f) = (ok tt, hs ++ (f.hash ∷ []), f, s)

  abbrev pub list_fns : WalkFns (List Str)
  list_fns = record {
    fn_dir = λ hs s d. listed_dir hs (hash_dir B J s d);
    fn_file = λ hs s f. listed_file hs s (hash_file B s f);
  }

  abbrev all_or_error : Status × List Str × Root × B.State → Res (List Str) × Root × B.State
  all_or_error (err e, hs, r, s) = (err e, r, s)
  all_or_error (ok _, hs, r, s) = (ok hs, r, s)

  -- `ListHashes`
  unfoldable pub list_hashes : ℕ → B.State → Root → Res (List Str) × Root × B.State
  list_hashes n s r = all_or_error (walk_root list_fns n [] s r)
