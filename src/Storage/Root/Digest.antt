-- ===== src/Storage/Root/Digest.antt =====
-- What the hash of a directory should be: computed from the contents of the tree alone, whatever
-- hashes are cached in it; and when the cached hashes agree with that.
use httplock.Base.{◌≡◌, ◌≢◌, ◌⊎◌, none, some, [], ◌∷◌, Str, ok, err}
use httplock.Hasher.{Bytes}
use httplock.Storage.Errors.{Res}
use httplock.Storage.Backend.{Backend, Codec, Listing}
use httplock.Storage.Tree.{
  File, Dir, directory, Entries, nil, cons, DirEntry, dir_entry, file_entry, DirRef, no_dir, to_dir,
  entry_kind, sort_listing, find,
}

module _ (B : Backend) where
  -- The hash of what was written to a file, known once its writer is closed.
  abbrev pub file_digest : B.State → File → Res Str
  file_digest s f = elim f.blob_w [ none ↦ ok f.hash | some w ↦ B.blob_hash s w ]

  abbrev pub ok_or_empty : Res Str → Str
  ok_or_empty (ok h) = h
  ok_or_empty (err e) = []

module _ (digest : Bytes → Str) (B : Backend) (J : Codec) where
  unfoldable mutual
    pub dir_digest : B.State → Dir → Str
    dir_digest s (directory h es) = digest (J.marshal (sort_listing (infos s es)))

    pub infos : B.State → Entries → Listing
    infos s nil = []
    infos s (cons k e es) =
        (k, record { hash = entry_digest s e; kind = entry_kind e }) ∷ infos s es

    pub entry_digest : B.State → DirEntry → Str
    entry_digest s (dir_entry h d) = ref_digest s h d
    entry_digest s (file_entry h none) = h
    entry_digest s (file_entry h (some f)) = ok_or_empty B (file_digest B s f)

    pub ref_digest : B.State → Str → DirRef → Str
    ref_digest s h no_dir = h
    ref_digest s h (to_dir d) = dir_digest s d

  -- A file whose writer is closed and that has a hash.
  abbrev pub IsWritten : B.State → File → Type 0
  IsWritten s f = (h : Str) × (file_digest B s f ≡ ok h) × (h ≢ [])

  -- Names are distinct, files are written, and a hash that an entry has is the one it should have.
  unfoldable mutual
    pub IsCoherent : B.State → Dir → Type 0
    IsCoherent s (directory h es) = AreCoherent s es

    pub AreCoherent : B.State → Entries → Type 0
    AreCoherent s nil = Unit
    AreCoherent s (cons k e es) = (find k es ≡ none) × IsCoherentEntry s e × AreCoherent s es

    pub IsCoherentEntry : B.State → DirEntry → Type 0
    IsCoherentEntry s (dir_entry h d) = IsCoherentRef s h d
    IsCoherentEntry s (file_entry h none) = h ≢ []
    IsCoherentEntry s (file_entry h (some f)) =
        IsWritten s f × ((h ≡ []) ⊎ (file_digest B s f ≡ ok h))

    pub IsCoherentRef : B.State → Str → DirRef → Type 0
    IsCoherentRef s h no_dir = h ≢ []
    IsCoherentRef s h (to_dir d) = ((h ≡ []) ⊎ (h ≡ dir_digest s d)) × IsCoherent s d

  -- A later state of the storage: a closed writer keeps its hash.
  abbrev pub Extends : B.State → B.State → Type 0
  Extends s t = (w : _) (h : Str) → B.blob_hash s w ≡ ok h → B.blob_hash t w ≡ ok h
