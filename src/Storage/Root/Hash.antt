-- ===== src/Storage/Root/Hash.antt =====
-- `hashFile` and `hashDir`.
use httplock.Base.{none, some, [], ◌∷◌, Str, ok, err}
use httplock.Storage.Errors.{Status, file_hash_missing, hash_failed, panic}
use httplock.Storage.Backend.{Backend, Codec, push}
use httplock.Storage.Tree.{
  File, Dir, directory, Entries, nil, cons, DirEntry, dir_entry, file_entry, DirRef, no_dir, to_dir,
  dir_hash, listing, sort_listing,
}

abbrev require_hash : File → Status × File
require_hash f = elim f.hash [ [] ↦ (err file_hash_missing, f) | c ∷ h ↦ (ok tt, f) ]

abbrev pub ref_hash : DirRef → Str
ref_hash no_dir = []
ref_hash (to_dir d) = dir_hash d

module _ (B : Backend) where
  unfoldable pub hash_file : B.State → File → Status × File
  hash_file s f = elim f.blob_w [
    | none ↦ require_hash f
    | some w ↦ elim (B.blob_hash s w) [
      | err e ↦ (err e, f)
      | ok h ↦ require_hash (record { hash = h; blob_w = none })
    ]
  ]

-- The error of the file, or its hash as the hash of the entry.
unfoldable pub file_entry_hashed : Str → Status × File → Status × DirEntry
file_entry_hashed name (err e, f) = (err (hash_failed name e), file_entry [] (some f))
file_entry_hashed name (ok _, f) = (ok tt, file_entry f.hash (some f))

unfoldable pub dir_entry_hashed : Status → DirRef → DirEntry
dir_entry_hashed (err e) d = dir_entry [] d
dir_entry_hashed (ok _) d = dir_entry (ref_hash d) d

module _ (B : Backend) (J : Codec) where
  -- The directory is written as a blob once its entries are hashed.
  unfoldable pub push_dir : B.State → Str → Status → Entries → Status × Dir × B.State
  push_dir s h (err e) es = (err e, directory h es, s)
  push_dir s h (ok _) es =
      let (r, h', s') = push B s h (J.marshal (sort_listing (listing es))) in
      (r, directory h' es, s')

  abbrev pub and_then :
      Str
      → DirEntry
      → Status
      → Entries
      → B.State
      → Status × Entries × B.State
      → Status × Entries × B.State
  and_then k e (err x) es s rest = (err x, cons k e es, s)
  and_then k e (ok _) es s rest = (rest.0, cons k e rest.1, rest.2)

  -- The loop goes on to the next entry unless one fails; an entry that has a hash is passed over.
  unfoldable mutual
    pub hash_dir : B.State → Dir → Status × Dir × B.State
    hash_dir s (directory h es) = let (r, es', s') = hash_entries s es in push_dir s' h r es'

    pub hash_entries : B.State → Entries → Status × Entries × B.State
    hash_entries s nil = (ok tt, nil, s)
    hash_entries s (cons k e es) =
        let (r, e', s') = hash_entry s k e in
        let rest = hash_entries s' es in and_then k e' r es s' rest

    pub hash_entry : B.State → Str → DirEntry → Status × DirEntry × B.State
    hash_entry s k (dir_entry [] d) =
        let (r, d', s') = hash_ref s d in (r, dir_entry_hashed r d', s')
    hash_entry s k (dir_entry (c ∷ h) d) = (ok tt, dir_entry (c ∷ h) d, s)
    hash_entry s k (file_entry [] none) = (err panic, file_entry [] none, s)
    hash_entry s k (file_entry [] (some f)) =
        let (r, e) = file_entry_hashed k (hash_file B s f) in (r, e, s)
    hash_entry s k (file_entry (c ∷ h) f) = (ok tt, file_entry (c ∷ h) f, s)

    -- A nil directory would be dereferenced.
    pub hash_ref : B.State → DirRef → Status × DirRef × B.State
    hash_ref s no_dir = (err panic, no_dir, s)
    hash_ref s (to_dir d) = let (r, d', s') = hash_dir s d in (r, to_dir d', s')
