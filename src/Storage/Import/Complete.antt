-- ===== src/Storage/Import/Complete.antt =====
-- When an import succeeds: the archive has the blob of every directory and file that is needed, each
-- under the digest of its bytes.
use httplock.Base.{
  ℕ, zero, suc, ◌≡◌, ◌↔◌, refl, ◌∙◌, sym, ap, [], ◌∷◌, Str, ok, err, Result-cases, inl, inr, arith,
  All,
}
use httplock.Hasher.{Bytes}
use httplock.Storage.Errors.{Status}
use httplock.Storage.Kind.{EntryKind, kind_dir, kind_file}
use httplock.Storage.Backend.{Backend, Codec, IsReliable, Listing, Info, push}
use httplock.Storage.Tree.{Dir, from_listing, unloaded}
use httplock.Storage.Filesystem.Os.{Disk, read_file}
use package.httplock.Storage.Import.{
  inside, Importer, import_entry, import_entries, then_entries, import_bytes, import_dir,
  import_file, verified,
}
use package.httplock.Storage.Import.Found.{
  Gives, HasFile, verified-only, verified-good, import_file-only, import_file-good, in_dir-only,
  in_dir-good, in_file-only, in_file-good, next-only, next-good, dir-only, dir-good,
}

module _ (digest : Bytes → Str) (B : Backend) (R : IsReliable digest B) (J : Codec) (tmp_dir : Str)
    (d : Disk) where
  abbrev pub HasOne : (Str → Type 0) → Str → EntryKind → Type 0
  HasOne P hash kind_dir = P hash
  HasOne P hash kind_file = HasFile digest B R J tmp_dir d hash

  -- The archive has a directory with that digest under its name, and all that it lists, down to some
  -- depth.
  abbrev pub HasTree : ℕ → Str → Type 0
  HasTree zero hash = ⊥
  HasTree (suc n) hash =
      (b : Bytes) × (l : Listing) × (read_file d (inside tmp_dir hash) ≡ ok b)
      × (digest b ≡ hash)
      × (J.unmarshal b ≡ ok l)
      × All (λ (e : Str × Info). HasOne (HasTree n) e.1.hash e.1.kind) l

  -- An importer of directories that succeeds exactly where a predicate holds.
  abbrev Decides : Importer B J tmp_dir d → (Str → Type 0) → Type 0
  Decides go P = (h : Str) (s : B.State) → Gives (go h s) ↔ P h

  module _ (go : Importer B J tmp_dir d) (P : Str → Type 0) (decides : Decides go P) where
    entry-only :
        (h : Str) (kind : EntryKind) (s : B.State)
        → Gives (import_entry B J tmp_dir d go (unloaded (record { hash = h; kind = kind })) s)
        → HasOne P h kind
    unfolding import_entry
    entry-only h kind_dir s gives =
        (decides h s).0 (in_dir-only digest B R J tmp_dir d h (go h s) gives)
    entry-only h kind_file s gives =
        import_file-only digest B R J tmp_dir d h s
          (in_file-only digest B R J tmp_dir d h (import_file B J tmp_dir d h s) gives)

    entry-good :
        (h : Str) (kind : EntryKind) (s : B.State)
        → HasOne P h kind
        → Gives (import_entry B J tmp_dir d go (unloaded (record { hash = h; kind = kind })) s)
    unfolding import_entry
    entry-good h kind_dir s has =
        in_dir-good digest B R J tmp_dir d h (go h s) ((decides h s).1 has)
    entry-good h kind_file s has =
        in_file-good digest B R J tmp_dir d h (import_file B J tmp_dir d h s)
          (import_file-good digest B R J tmp_dir d h s has)

    abbrev HasAll : Listing → Type 0
    HasAll l = All (λ (e : Str × Info). HasOne P e.1.hash e.1.kind) l

    entries-only :
        (l : Listing) (s : B.State)
        → Gives (import_entries B J tmp_dir d go (from_listing l) s)
        → HasAll l
    unfolding import_entries from_listing
    entries-only [] s gives = tt
    entries-only ((k, i) ∷ l) s gives =
        let x = import_entry B J tmp_dir d go (unloaded i) s in
        let (here, more) =
          next-only digest B R J tmp_dir d k x.0 x.1
            (import_entries B J tmp_dir d go (from_listing l) x.1) gives in
        (entry-only i.hash i.kind s here, entries-only l x.1 more)

    entries-good :
        (l : Listing) (s : B.State)
        → HasAll l
        → Gives (import_entries B J tmp_dir d go (from_listing l) s)
    unfolding import_entries from_listing
    entries-good [] s has = (_, refl)
    entries-good ((k, i) ∷ l) s (here, more) =
        let x = import_entry B J tmp_dir d go (unloaded i) s in
        next-good digest B R J tmp_dir d k x.0 x.1
          (import_entries B J tmp_dir d go (from_listing l) x.1) (entry-good i.hash i.kind s here)
          (entries-good l x.1 more)

    then-only :
        (hash : Str) (l : Listing) (x : Status × B.State)
        → Gives (then_entries B J tmp_dir d go hash (from_listing l) x)
        → (x.0 ≡ ok tt) × HasAll l
    then-only hash l (err e, s) (y, done) = absurd (ground arith)
    then-only hash l (ok u, s) gives = (
      refl,
      entries-only l s (
          dir-only digest B R J tmp_dir d hash (import_entries B J tmp_dir d go (from_listing l) s)
            gives),
    )

    then-good :
        (hash : Str) (l : Listing) (x : Status × B.State)
        → x.0 ≡ ok tt
        → HasAll l
        → Gives (then_entries B J tmp_dir d go hash (from_listing l) x)
    then-good hash l (err e, s) done has = absurd (ground arith)
    then-good hash l (ok u, s) done has =
        dir-good digest B R J tmp_dir d hash (import_entries B J tmp_dir d go (from_listing l) s)
          (entries-good l s has)

    bytes-only :
        (hash : Str) (b : Bytes) (s : B.State)
        → Gives (import_bytes B J tmp_dir d go hash b s)
        → (l : Listing) × (digest b ≡ hash) × (J.unmarshal b ≡ ok l) × HasAll l
    unfolding import_bytes
    bytes-only hash b s (c, done) = elim (Result-cases (J.unmarshal b)) [
      | inr (e, failed) ↦ absurd (ground arith)
      | inl (l, decoded) ↦
          let x = verified B J tmp_dir d hash (push B s [] b) in
          let e : import_bytes B J tmp_dir d go hash b s
              ≡ then_entries B J tmp_dir d go hash (from_listing l) x =
            rw (decoded, import_bytes) in
          let (checked, has) = then-only hash l x (c, ap (λ y. y.0) (sym e) ∙ done) in
          (l, verified-only digest B R J tmp_dir d hash s b checked, decoded, has)
    ]

    bytes-good :
        (hash : Str) (b : Bytes) (s : B.State) (l : Listing)
        → digest b ≡ hash
        → J.unmarshal b ≡ ok l
        → HasAll l
        → Gives (import_bytes B J tmp_dir d go hash b s)
    unfolding import_bytes
    bytes-good hash b s l named decoded has =
        rw (decoded, import_bytes)
          (then-good hash l _ (verified-good digest B R J tmp_dir d hash s b named) has)

  -- In a storage that is reliable, an import of a directory succeeds exactly when the archive has,
  -- under its hash, a file that may be read, has that digest and is decoded to a listing, and has
  -- in the same way every directory and file that is listed there and below, with no more levels of
  -- directories than the import may go down.
  pub import_dir-HasTree :
      (n : ℕ) (hash : Str) (s : B.State)
      → ((c : Dir) × ((import_dir B J tmp_dir d n hash s).0 ≡ ok c)) ↔ HasTree n hash
  unfolding import_dir
  import_dir-HasTree zero hash s = ((λ x. absurd (ground (arith, x.1))), λ x. absurd x)
  import_dir-HasTree (suc n) hash s =
      let go = import_dir B J tmp_dir d n in
      let decides : Decides go (HasTree n) = import_dir-HasTree n in
      (
        λ gives. elim (Result-cases (read_file d (inside tmp_dir hash))) [
          | inr (e, failed) ↦ absurd (ground (arith, gives.1))
          | inl (b, found) ↦
              let e : import_dir B J tmp_dir d (suc n) hash s
                  ≡ import_bytes B J tmp_dir d go hash b s =
                rw (found, import_dir) in
              let (l, named, decoded, has) =
                bytes-only go (HasTree n) decides hash b s
                  (gives.0, ap (λ y. y.0) (sym e) ∙ gives.1) in
              (b, l, found, named, decoded, has)
        ],
        λ has.
            let (b, l, found, named, decoded, all) = has in
            rw (found, import_dir) (bytes-good go (HasTree n) decides hash b s l named decoded all),
      )
