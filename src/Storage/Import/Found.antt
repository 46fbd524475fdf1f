-- ===== src/Storage/Import/Found.antt =====
-- What an import has of an archive: its files, and the cases of an entry.
-- under the digest of its bytes.
use httplock.Base.{
  ◌≡◌, refl, ◌∙◌, sym, ap, [], Str, str_eq, str_eq_iff, ok, err, Result-cases, Bool-cases, inl, inr,
  arith, if◌then◌else◌,
}
use httplock.Hasher.{Bytes}
use httplock.Storage.Errors.{Res, Status, hash_mismatch}
use httplock.Storage.Backend.{Backend, Codec, IsReliable, push}
use httplock.Storage.Tree.{File, Dir, DirEntry, Entries}
use httplock.Storage.Filesystem.Os.{Disk, open_file}
use package.httplock.Storage.Import.{
  inside, next_entry, dir_or_error, in_dir_entry, in_file_entry, import_file, copied, file_or_error,
  verified,
}

-- A call that returns a value.
abbrev pub Gives : {A S : Type 0} → Res A × S → Type 0
Gives {A} r = (x : A) × (r.0 ≡ ok x)

module _ (digest : Bytes → Str) (B : Backend) (R : IsReliable digest B) (J : Codec) (tmp_dir : Str)
    (d : Disk) where
  -- The archive has a file with that digest under its name.
  abbrev pub HasFile : Str → Type 0
  HasFile hash = (b : Bytes) × (open_file d (inside tmp_dir hash) ≡ ok (ok b)) × (digest b ≡ hash)

  verified-push :
      (hash : Str) (s : B.State) (b : Bytes)
      → (verified B J tmp_dir d hash (push B s [] b)).0
        ≡ (if str_eq (digest b) hash then ok tt else err (hash_mismatch (digest b) hash))
  unfolding verified
  verified-push hash s b =
      let P : push B s [] b ≡ (ok tt, digest b, (push B s [] b).2) =
        λ i. (R.push_ok s [] b i, R.push_hash s [] b i, (push B s [] b).2) in
      ap (λ p. (verified B J tmp_dir d hash p).0) P

  pub verified-only :
      (hash : Str) (s : B.State) (b : Bytes)
      → (verified B J tmp_dir d hash (push B s [] b)).0 ≡ ok tt
      → digest b ≡ hash
  verified-only hash s b done = elim (Bool-cases (str_eq (digest b) hash)) [
    | inl same ↦ (str_eq_iff (digest b) hash).0 same
    | inr other ↦ absurd (ground (arith, verified-push hash s b, done))
  ]

  pub verified-good :
      (hash : Str) (s : B.State) (b : Bytes)
      → digest b ≡ hash
      → (verified B J tmp_dir d hash (push B s [] b)).0 ≡ ok tt
  verified-good hash s b same =
      verified-push hash s b ∙ rw ((str_eq_iff (digest b) hash).1 same) refl

  file-only :
      (hash : Str) (r : Status × B.State) → Gives (file_or_error B J tmp_dir d hash r) → r.0 ≡ ok tt
  file-only hash (err e, s) (f, done) = absurd (ground arith)
  file-only hash (ok u, s) (f, done) = refl

  file-good :
      (hash : Str) (r : Status × B.State) → r.0 ≡ ok tt → Gives (file_or_error B J tmp_dir d hash r)
  file-good hash (err e, s) done = absurd (ground arith)
  file-good hash (ok u, s) done = (_, refl)

  copied-only :
      (hash : Str) (s : B.State) (content : Res Bytes)
      → Gives (copied B J tmp_dir d hash s content)
      → (b : Bytes) × (content ≡ ok b) × (digest b ≡ hash)
  copied-only hash s (ok b) gives = (
    b,
    refl,
    verified-only hash s b (file-only hash (verified B J tmp_dir d hash (push B s [] b)) gives),
  )
  copied-only hash s (err e) (f, done) = elim (Result-cases (B.blob_create s).0) [
    | inl (w, created) ↦ absurd (ground arith)
    | inr (x, failed) ↦ absurd (ground arith)
  ]

  pub import_file-only :
      (hash : Str) (s : B.State) → Gives (import_file B J tmp_dir d hash s) → HasFile hash
  unfolding import_file
  import_file-only hash s (f, done) = elim (Result-cases (open_file d (inside tmp_dir hash))) [
    | inr (e, failed) ↦ absurd (ground arith)
    | inl (content, opened) ↦
        let e : import_file B J tmp_dir d hash s ≡ copied B J tmp_dir d hash s content =
          rw (opened, import_file) in
        let (b, same, named) = copied-only hash s content (f, ap (λ x. x.0) (sym e) ∙ done) in
        (b, opened ∙ ap ok same, named)
  ]

  pub import_file-good :
      (hash : Str) (s : B.State) → HasFile hash → Gives (import_file B J tmp_dir d hash s)
  unfolding import_file
  import_file-good hash s (b, opened, named) =
      rw (opened, import_file)
        (file-good hash (verified B J tmp_dir d hash (push B s [] b))
          (verified-good hash s b named))

  pub in_dir-only :
      (h : Str) (r : Res Dir × B.State) → Gives (in_dir_entry B J tmp_dir d h r) → Gives r
  in_dir-only h (err e, s) (x, done) = absurd (ground arith)
  in_dir-only h (ok c, s) (x, done) = (c, refl)

  pub in_dir-good :
      (h : Str) (r : Res Dir × B.State) → Gives r → Gives (in_dir_entry B J tmp_dir d h r)
  in_dir-good h (err e, s) (x, done) = absurd (ground arith)
  in_dir-good h (ok c, s) (x, done) = (_, refl)

  pub in_file-only :
      (h : Str) (r : Res File × B.State) → Gives (in_file_entry B J tmp_dir d h r) → Gives r
  in_file-only h (err e, s) (x, done) = absurd (ground arith)
  in_file-only h (ok f, s) (x, done) = (f, refl)

  pub in_file-good :
      (h : Str) (r : Res File × B.State) → Gives r → Gives (in_file_entry B J tmp_dir d h r)
  in_file-good h (err e, s) (x, done) = absurd (ground arith)
  in_file-good h (ok f, s) (x, done) = (_, refl)

  pub next-only :
      (k : Str) (r : Res DirEntry) (s : B.State) (rest : Res Entries × B.State)
      → Gives (next_entry B J tmp_dir d k r s rest)
      → Gives (r, s) × Gives rest
  next-only k (err e) s rest (x, done) = absurd (ground arith)
  next-only k (ok e) s (err y, t) (x, done) = absurd (ground arith)
  next-only k (ok e) s (ok es, t) (x, done) = ((e, refl), (es, refl))

  pub next-good :
      (k : Str) (r : Res DirEntry) (s : B.State) (rest : Res Entries × B.State)
      → Gives (r, s)
      → Gives rest
      → Gives (next_entry B J tmp_dir d k r s rest)
  next-good k (err e) s rest (x, done) more = absurd (ground arith)
  next-good k (ok e) s (err y, t) here (x, done) = absurd (ground arith)
  next-good k (ok e) s (ok es, t) here more = (_, refl)

  pub dir-only :
      (hash : Str) (r : Res Entries × B.State) → Gives (dir_or_error B J tmp_dir d hash r) → Gives r
  dir-only hash (err e, s) (x, done) = absurd (ground arith)
  dir-only hash (ok es, s) (x, done) = (es, refl)

  pub dir-good :
      (hash : Str) (r : Res Entries × B.State) → Gives r → Gives (dir_or_error B J tmp_dir d hash r)
  dir-good hash (err e, s) (x, done) = absurd (ground arith)
  dir-good hash (ok es, s) (x, done) = (_, refl)
