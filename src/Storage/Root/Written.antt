-- ===== src/Storage/Root/Written.antt =====
-- Files of one directory that are being written: each write leaves the writers of the others, and so
-- does each read.
use mathlib.Core.Path.{subst}
use httplock.Base.{
  ℕ, ◌≡◌, ◌≢◌, refl, ◌∙◌, sym, ap, true, false, some, none, List, [], Str, str_eq_refl, str_eq_iff,
  ok, Result-cases, inl, inr, arith,
}
use httplock.Storage.Backend.{Backend, Codec}
use httplock.Storage.Tree.{
  File, Dir, directory, DirEntry, file_entry, entries, put_in, find, clear_hash,
}
use httplock.Storage.Tree.Laws.{find-put_in}
use package.httplock.Storage.Root.{
  Root, get_dir, open_entry, read_at, write_at, write_into, read_hashed,
}
use package.httplock.Storage.Root.Hashing.{hash_file-written}
use package.httplock.Storage.Root.ReadWrite.{write_at-puts}
use package.httplock.Storage.Root.Reach.{&&-false}
use package.httplock.Storage.Root.Ends.{RootEndsAt, get_dir-RootEndsAt, get_dir-ok}

-- The directory has a file of that name, with that writer.
abbrev pub HasWriter : Dir → Str → ℕ → Type 0
HasWriter d name w =
    (h : Str) × (f : File) × (find name (entries d) ≡ some (file_entry h (some f)))
    × (f.blob_w ≡ some w)

HasWriter-put :
    (d : Dir) (name : Str) (h : Str) (f : File) (w : ℕ)
    → f.blob_w ≡ some w
    → HasWriter (put_in name (file_entry h (some f)) d) name w
HasWriter-put d name h f w writer = (h, f, rw (find-put_in, str_eq_refl), writer)

HasWriter-put_ne :
    (d : Dir) (name other : Str) (e : DirEntry) (w : ℕ)
    → other ≢ name
    → HasWriter d name w
    → HasWriter (put_in other e d) name w
HasWriter-put_ne d name other e w ne (h, f, found, writer) =
    (h, f, ground (arith, find-put_in other name e d, str_eq_iff other name, found), writer)

HasWriter-clear :
    (d : Dir) (name : Str) (w : ℕ) → HasWriter d name w → HasWriter (clear_hash d) name w
HasWriter-clear (directory h es) name w has = has

module _ (B : Backend) (J : Codec) (front : List Str) where
  write_at-HasWriter :
      (name : Str) (s : B.State) (d : Dir) (w : ℕ)
      → (write_at B J name s d).0 ≡ ok w
      → HasWriter (write_at B J name s d).1 name w
  write_at-HasWriter name s d w done =
      let (x, left, t) = write_at B J name s d in
      let (h, f, opened, puts) = write_at-puts B J name s d left w t (λ i. (done i, left, t)) in
      subst (λ x. HasWriter x name w) (sym puts)
        (HasWriter-put d name h (record f { blob_w = some w }) w refl)

  write_at-keeps :
      (name other : Str) (s : B.State) (d : Dir) (w v : ℕ)
      → (write_at B J other s d).0 ≡ ok w
      → other ≢ name
      → HasWriter d name v
      → HasWriter (write_at B J other s d).1 name v
  write_at-keeps name other s d w v done ne has =
      let (x, left, t) = write_at B J other s d in
      let (h, f, opened, puts) = write_at-puts B J other s d left w t (λ i. (done i, left, t)) in
      subst (λ x. HasWriter x name v) (sym puts) (HasWriter-put_ne d name other _ v ne has)

  write_at-created :
      (name : Str) (s : B.State) (d : Dir) (w : ℕ)
      → (write_at B J name s d).0 ≡ ok w
      → B.blob_create s ≡ (ok w, (write_at B J name s d).2)
  unfolding write_at write_into
  write_at-created name s d w done = elim (Result-cases (open_entry name (find name (entries d)))) [
    | inr (e, failed) ↦ absurd (ground arith)
    | inl ((h, f), opened) ↦ elim (Result-cases (B.blob_create s).0) [
      | inr (e, failed) ↦ absurd (ground arith)
      | inl (v, created) ↦ ground arith
    ]
  ]

  -- The writer is the one that the storage has created.
  pub write-created :
      (name : Str) (s : B.State) (r : Root) (w : ℕ)
      → (get_dir B J true front (write_at B J name) s r).0 ≡ ok w
      → B.blob_create s ≡ (ok w, (get_dir B J true front (write_at B J name) s r).2)
  write-created name s r w done =
      let (end, (same, state, kept, ends)) =
        get_dir-ok B J true front (write_at B J name) s r w done in
      write_at-created name s end w (sym same ∙ done) ∙ ap (λ t. (ok w, t)) (sym state)

  -- A directory at the end of the path that has the writer.
  abbrev pub Writing : Root → Str → ℕ → Type 0
  Writing r name w = (end : Dir) × RootEndsAt front r end × HasWriter end name w

  -- A write that succeeds.
  pub write-Writing :
      (name : Str) (s : B.State) (r : Root) (w : ℕ)
      → (get_dir B J true front (write_at B J name) s r).0 ≡ ok w
      → Writing (get_dir B J true front (write_at B J name) s r).1 name w
  write-Writing name s r w done =
      let (end, (same, state, kept, ends)) =
        get_dir-ok B J true front (write_at B J name) s r w done in
      ((write_at B J name s end).1, ends, write_at-HasWriter name s end w (sym same ∙ done))

  -- Another write in the directory: both writers are there.
  pub write-Writing_both :
      (name other : Str) (s : B.State) (r : Root) (v w : ℕ)
      → r.readonly ≡ false
      → other ≢ name
      → Writing r name v
      → (get_dir B J true front (write_at B J other) s r).0 ≡ ok w
      → (end : Dir) × RootEndsAt front (get_dir B J true front (write_at B J other) s r).1 end
        × HasWriter end name v
        × HasWriter end other w
  write-Writing_both name other s r v w writable ne (end, ends, has) done =
      let (same, state, kept, ends') =
        get_dir-RootEndsAt B J true front (write_at B J other) s r end (rw writable) ends in
      let ran = sym same ∙ done in
      (
        (write_at B J other s (clear_hash end)).1,
        ends',
        write_at-keeps name other s (clear_hash end) w v ran ne (HasWriter-clear end name v has),
        write_at-HasWriter other s (clear_hash end) w ran,
      )

  read_at-HasWriter :
      (name : Str) (u : B.State) (d : Dir) (w : ℕ) (h : Str)
      → HasWriter d name w
      → B.blob_hash u w ≡ ok h
      → h ≢ []
      → read_at B J name u d ≡ (
        B.blob_open u h,
        put_in name (file_entry h (some (record { hash = h; blob_w = none }))) d,
        u,
      )
  unfolding read_at read_hashed
  read_at-HasWriter name u d w h (k, f, found, writer) hashed ne =
      rw (found, read_at) (rw (hash_file-written B u f h (rw writer hashed) ne))

  -- A read of a file whose writer is closed gives its blob; the writers of other files stay.
  pub read-HasWriter :
      (name : Str) (u : B.State) (r : Root) (end : Dir) (w : ℕ) (h : Str)
      → RootEndsAt front r end
      → HasWriter end name w
      → B.blob_hash u w ≡ ok h
      → h ≢ []
      → let x = get_dir B J false front (read_at B J name) u r in
        (x.0 ≡ B.blob_open u h)
        × (x.2 ≡ u)
        × ((other : Str) (v : ℕ) → name ≢ other → HasWriter end other v → Writing x.1 other v)
  read-HasWriter name u r end w h ends has hashed filled =
      let (same, state, kept, ends') =
        get_dir-RootEndsAt B J false front (read_at B J name) u r end (&&-false r.readonly) ends in
      let e = read_at-HasWriter name u end w h has hashed filled in
      (
        same ∙ ap (λ x. x.0) e,
        state ∙ ap (λ x. x.2) e,
        λ other v ne has'. (
          (read_at B J name u end).1,
          ends',
          subst (λ x. HasWriter x other v) (sym (ap (λ x. x.1) e))
              (HasWriter-put_ne end other name _ v ne has'),
        ),
      )
