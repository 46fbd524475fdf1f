-- ===== src/Storage/Root/Hashing.antt =====
-- `hashDir` gives a directory the hash that its contents should have.
use httplock.Base.{
  Option-cases, ◌≡◌, ◌≢◌, refl, ◌∙◌, ap, inl, inr, none, some, [], ◌∷◌, Str, ok, err, arith,
}
use httplock.Hasher.{Bytes}
use httplock.Storage.Kind.{kind_file}
use httplock.Storage.Errors.{Status}
use httplock.Storage.Backend.{Backend, Codec, IsReliable}
use httplock.Storage.Tree.{
  File, Dir, directory, Entries, nil, cons, DirEntry, dir_entry, file_entry, DirRef, no_dir, to_dir,
  dir_hash, entries, info, entry_kind, listing, sort_listing,
}
use package.httplock.Storage.Root.Hash.{
  hash_file, ref_hash, and_then, file_entry_hashed, dir_entry_hashed, push_dir, hash_dir,
  hash_entries, hash_entry, hash_ref,
}
use package.httplock.Storage.Root.Digest.{
  file_digest, ok_or_empty, dir_digest, infos, entry_digest, ref_digest, IsWritten, IsCoherent,
  AreCoherent, IsCoherentEntry, IsCoherentRef, Extends,
}

pub hash_file-written :
    (B : Backend) (s : B.State) (f : File) (h : Str)
    → file_digest B s f ≡ ok h
    → h ≢ []
    → hash_file B s f ≡ (ok tt, record { hash = h; blob_w = none })
unfolding hash_file
hash_file-written B s f [] has ne = absurd (ne refl)
hash_file-written B s f (x ∷ h) has ne = elim (Option-cases f.blob_w) [
  | inl unwritten ↦ ground arith
  | inr (w, writer) ↦ ground arith
]

module _ (digest : Bytes → Str) (B : Backend) (J : Codec) where
  file_digest-Extends :
      (s t : B.State) (f : File)
      → Extends digest B J s t
      → IsWritten digest B J s f
      → file_digest B t f ≡ file_digest B s f
  file_digest-Extends s t f later (h, has, ne) = elim (Option-cases f.blob_w) [
    | inl unwritten ↦ rw unwritten
    | inr (w, writer) ↦ ground (arith, later w h)
  ]

  mutual
    unfolding dir_digest IsCoherent

    dir_digest-Extends :
        (s t : B.State) (d : Dir)
        → Extends digest B J s t
        → IsCoherent digest B J s d
        → dir_digest digest B J t d ≡ dir_digest digest B J s d
    dir_digest-Extends s t (directory h es) later c =
        ap (λ l. digest (J.marshal (sort_listing l))) (infos-Extends s t es later c)

    infos-Extends :
        (s t : B.State) (es : Entries)
        → Extends digest B J s t
        → AreCoherent digest B J s es
        → infos digest B J t es ≡ infos digest B J s es
    infos-Extends s t nil later c = refl
    infos-Extends s t (cons k e es) later (fresh, c, cs) =
        rw (entry_digest-Extends s t e later c, infos-Extends s t es later cs)

    entry_digest-Extends :
        (s t : B.State) (e : DirEntry)
        → Extends digest B J s t
        → IsCoherentEntry digest B J s e
        → entry_digest digest B J t e ≡ entry_digest digest B J s e
    entry_digest-Extends s t (dir_entry h d) later c = ref_digest-Extends s t h d later c
    entry_digest-Extends s t (file_entry h none) later c = refl
    entry_digest-Extends s t (file_entry h (some f)) later c =
        ap (ok_or_empty B) (file_digest-Extends s t f later c.0)

    ref_digest-Extends :
        (s t : B.State) (h : Str) (d : DirRef)
        → Extends digest B J s t
        → IsCoherentRef digest B J s h d
        → ref_digest digest B J t h d ≡ ref_digest digest B J s h d
    ref_digest-Extends s t h no_dir later c = refl
    ref_digest-Extends s t h (to_dir d) later c = dir_digest-Extends s t d later c.1

  IsWritten-Extends :
      (s t : B.State) (f : File)
      → Extends digest B J s t
      → IsWritten digest B J s f
      → IsWritten digest B J t f
  IsWritten-Extends s t f later (h, has, ne) =
      (h, file_digest-Extends s t f later (h, has, ne) ∙ has, ne)

  mutual
    unfolding IsCoherent

    IsCoherent-Extends :
        (s t : B.State) (d : Dir)
        → Extends digest B J s t
        → IsCoherent digest B J s d
        → IsCoherent digest B J t d
    IsCoherent-Extends s t (directory h es) later c = AreCoherent-Extends s t es later c

    AreCoherent-Extends :
        (s t : B.State) (es : Entries)
        → Extends digest B J s t
        → AreCoherent digest B J s es
        → AreCoherent digest B J t es
    AreCoherent-Extends s t nil later c = c
    AreCoherent-Extends s t (cons k e es) later (fresh, c, cs) =
        (fresh, IsCoherentEntry-Extends s t e later c, AreCoherent-Extends s t es later cs)

    IsCoherentEntry-Extends :
        (s t : B.State) (e : DirEntry)
        → Extends digest B J s t
        → IsCoherentEntry digest B J s e
        → IsCoherentEntry digest B J t e
    IsCoherentEntry-Extends s t (dir_entry h d) later c = IsCoherentRef-Extends s t h d later c
    IsCoherentEntry-Extends s t (file_entry h none) later c = c
    IsCoherentEntry-Extends s t (file_entry h (some f)) later (c, agrees) =
        (IsWritten-Extends s t f later c, rw (file_digest-Extends s t f later c) agrees)

    IsCoherentRef-Extends :
        (s t : B.State) (h : Str) (d : DirRef)
        → Extends digest B J s t
        → IsCoherentRef digest B J s h d
        → IsCoherentRef digest B J t h d
    IsCoherentRef-Extends s t h no_dir later c = c
    IsCoherentRef-Extends s t h (to_dir d) later (agrees, c) =
        (rw (dir_digest-Extends s t d later c) agrees, IsCoherent-Extends s t d later c)

  -- What hashing a directory, its entries, an entry and the directory of an entry gives.
  abbrev pub DirHashed : B.State → Dir → Status × Dir × B.State → Type 0
  DirHashed s d (r, d', t) =
      (r ≡ ok tt)
      × (dir_hash d' ≡ dir_digest digest B J s d)
      × (B.blob_open t (dir_digest digest B J s d)
          ≡ ok (J.marshal (sort_listing (infos digest B J s (entries d)))))
      × Extends digest B J s t

  abbrev EntriesHashed : B.State → Entries → Status × Entries × B.State → Type 0
  EntriesHashed s es (r, es', t) =
      (r ≡ ok tt) × (listing es' ≡ infos digest B J s es) × Extends digest B J s t

  abbrev EntryHashed : B.State → DirEntry → Status × DirEntry × B.State → Type 0
  EntryHashed s e (r, e', t) =
      (r ≡ ok tt)
      × (info e' ≡ record { hash = entry_digest digest B J s e; kind = entry_kind e })
      × Extends digest B J s t

  abbrev RefHashed : B.State → DirRef → Status × DirRef × B.State → Type 0
  RefHashed s d (r, d', t) =
      (r ≡ ok tt) × (ref_hash d' ≡ ref_digest digest B J s [] d) × Extends digest B J s t

  Extends-trans :
      (s t u : B.State) → Extends digest B J s t → Extends digest B J t u → Extends digest B J s u
  Extends-trans s t u p q w h has = q w h (p w h has)

  module _ (R : IsReliable digest B) where
    push_dir-hashed :
        (s t : B.State) (h : Str) (es es' : Entries) (r : Status)
        → EntriesHashed s es (r, es', t)
        → DirHashed s (directory h es) (push_dir B J t h r es')
    unfolding push_dir dir_digest
    push_dir-hashed s t h es es' (ok u) (done, same, later) = (
      R.push_ok t h _,
      R.push_hash t h _ ∙ ap (λ l. digest (J.marshal (sort_listing l))) same,
      rw (← same) (R.push_stores t h _),
      λ w x has. R.push_keeps_hash t h _ w (later w x has),
    )
    push_dir-hashed s t h es es' (err e) (failed, same, later) = cc

    and_then-hashed :
        (s t u : B.State) (k : Str) (e e' : DirEntry) (es es' : Entries) (r r' : Status)
        → EntryHashed s e (r, e', t)
        → AreCoherent digest B J s es
        → EntriesHashed t es (r', es', u)
        → EntriesHashed s (cons k e es) (and_then B J k e' r es t (r', es', u))
    unfolding dir_digest listing
    and_then-hashed s t u k e e' es es' (ok v) r' (done, same, later) cs (done', same', later') =
        (done', cc (same, same', infos-Extends s t es later cs), Extends-trans s t u later later')
    and_then-hashed s t u k e e' es es' (err x) r' (failed, same, later) cs rest = cc

    file_entry-hashed :
        (s : B.State) (k : Str) (f : File)
        → IsWritten digest B J s f
        → ((file_entry_hashed k (hash_file B s f)).0 ≡ ok tt)
          × (info (file_entry_hashed k (hash_file B s f)).1
              ≡ record { hash = ok_or_empty B (file_digest B s f); kind = kind_file })
    unfolding file_entry_hashed
    file_entry-hashed s k f (h, has, ne) = rw (hash_file-written B s f h has ne, has) (refl, refl)

    dir_entry-hashed :
        (s t : B.State) (d d' : DirRef) (r : Status)
        → RefHashed s d (r, d', t)
        → EntryHashed s (dir_entry [] d) (r, dir_entry_hashed r d', t)
    unfolding dir_entry_hashed dir_digest
    dir_entry-hashed s t d d' (ok v) (done, same, later) = (done, cc same, later)
    dir_entry-hashed s t d d' (err e) (failed, same, later) = cc

    mutual
      unfolding hash_dir dir_digest IsCoherent listing

      pub hash_dir-hashed :
          (s : B.State) (d : Dir) → IsCoherent digest B J s d → DirHashed s d (hash_dir B J s d)
      hash_dir-hashed s (directory h es) c =
          let (r, es', t) = hash_entries B J s es in
          push_dir-hashed s t h es es' r (hash_entries-hashed s es c)

      hash_entries-hashed :
          (s : B.State) (es : Entries)
          → AreCoherent digest B J s es
          → EntriesHashed s es (hash_entries B J s es)
      hash_entries-hashed s nil c = (refl, refl, λ w h has. has)
      hash_entries-hashed s (cons k e es) (fresh, c, cs) =
          let (r, e', t) = hash_entry B J s k e in
          let (r', es', u) = hash_entries B J t es in
          let first : EntryHashed s e (hash_entry B J s k e) = hash_entry-hashed s k e c in
          and_then-hashed s t u k e e' es es' r r' first cs
            (hash_entries-hashed t es (AreCoherent-Extends s t es first.2 cs))

      hash_entry-hashed :
          (s : B.State) (k : Str) (e : DirEntry)
          → IsCoherentEntry digest B J s e
          → EntryHashed s e (hash_entry B J s k e)
      hash_entry-hashed s k (dir_entry [] d) c =
          let (r, d', t) = hash_ref B J s d in dir_entry-hashed s t d d' r (hash_ref-hashed s d c)
      hash_entry-hashed s k (dir_entry (x ∷ h) no_dir) c = (refl, refl, λ w h has. has)
      hash_entry-hashed s k (dir_entry (x ∷ h) (to_dir d)) (inl empty, c) = cc
      hash_entry-hashed s k (dir_entry (x ∷ h) (to_dir d)) (inr agrees, c) =
          (refl, cc agrees, λ w h has. has)
      hash_entry-hashed s k (file_entry [] none) c = absurd (c refl)
      hash_entry-hashed s k (file_entry [] (some f)) (c, agrees) =
          let (done, same) = file_entry-hashed s k f c in (done, same, λ w h has. has)
      hash_entry-hashed s k (file_entry (x ∷ h) none) c = (refl, refl, λ w h has. has)
      hash_entry-hashed s k (file_entry (x ∷ h) (some f)) (c, inl empty) = cc
      hash_entry-hashed s k (file_entry (x ∷ h) (some f)) (c, inr agrees) =
          (refl, rw agrees, λ w h has. has)

      hash_ref-hashed :
          (s : B.State) (d : DirRef)
          → IsCoherentRef digest B J s [] d
          → RefHashed s d (hash_ref B J s d)
      hash_ref-hashed s no_dir c = absurd (c refl)
      hash_ref-hashed s (to_dir d) (agrees, c) =
          let (done, same, stored, later) = hash_dir-hashed s d c in (done, same, later)
