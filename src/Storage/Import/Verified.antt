-- ===== src/Storage/Import/Verified.antt =====
-- What an import leaves in a storage that is reliable: every blob has the name that its bytes have.
use mathlib.Core.Path.{subst}
use httplock.Base.{
  ℕ, zero, suc, ◌≡◌, refl, sym, ap, some, [], Str, str_eq, str_eq_iff, ok, err, Bool-cases,
  Result-cases, inl, inr, arith, ne_of_str_eq,
}
use httplock.Hasher.{Bytes}
use httplock.Storage.Errors.{Res, Status}
use httplock.Storage.Backend.{Backend, Codec, IsReliable, push}
use httplock.Storage.Tree.{
  File, Dir, directory, Entries, nil, cons, DirEntry, dir_entry, file_entry, no_dir, to_dir,
  dir_hash, from_listing,
}
use httplock.Storage.Filesystem.Os.{Disk, open_file, read_file}
use package.httplock.Storage.Import.{
  inside, verified, file_or_error, copied, in_dir_entry, in_file_entry, next_entry, dir_or_error,
  then_entries, Importer, import_file, import_entry, import_entries, import_bytes, import_dir,
}

module _ (digest : Bytes → Str) (B : Backend) where
  -- The storage has a blob of that name, and its digest is the name.
  abbrev pub HasBlob : B.State → Str → Type 0
  HasBlob s h = (b : Bytes) × (B.blob_open s h ≡ ok b) × (digest b ≡ h)

  -- It has the blobs of a directory and of all that is below it.
  unfoldable mutual
    pub HasDir : B.State → Dir → Type 0
    HasDir s (directory h es) = HasBlob s h × HasEntries s es

    pub HasEntries : B.State → Entries → Type 0
    HasEntries s nil = Unit
    HasEntries s (cons k e es) = HasEntry s e × HasEntries s es

    pub HasEntry : B.State → DirEntry → Type 0
    HasEntry s (dir_entry h no_dir) = HasBlob s h
    HasEntry s (dir_entry h (to_dir d)) = (dir_hash d ≡ h) × HasDir s d
    HasEntry s (file_entry h f) = HasBlob s h

  -- What the first storage has, the second has as well.
  abbrev pub Grows : B.State → B.State → Type 0
  Grows s t = (h : Str) → HasBlob s h → HasBlob t h

  mutual
    unfolding HasDir HasEntries HasEntry

    HasDir-Grows : {s t : B.State} → Grows s t → (d : Dir) → HasDir s d → HasDir t d
    HasDir-Grows g (directory h es) (blob, below) = (g h blob, HasEntries-Grows g es below)

    HasEntries-Grows :
        {s t : B.State} → Grows s t → (es : Entries) → HasEntries s es → HasEntries t es
    HasEntries-Grows g nil have = tt
    HasEntries-Grows g (cons k e es) (here, rest) =
        (HasEntry-Grows g e here, HasEntries-Grows g es rest)

    HasEntry-Grows : {s t : B.State} → Grows s t → (e : DirEntry) → HasEntry s e → HasEntry t e
    HasEntry-Grows g (dir_entry h no_dir) have = g h have
    HasEntry-Grows g (dir_entry h (to_dir d)) (same, have) = (same, HasDir-Grows g d have)
    HasEntry-Grows g (file_entry h f) have = g h have

  module _ (R : IsReliable digest B) where
    push-Grows : (s : B.State) (old : Str) (c : Bytes) → Grows s (push B s old c).2
    push-Grows s old c h (b, there, named) = elim (Bool-cases (str_eq h (digest c))) [
      | inl same ↦
          let e = (str_eq_iff h (digest c)).0 same in
          (
            c,
            subst (λ x. B.blob_open (push B s old c).2 x ≡ ok c) (sym e) (R.push_stores s old c),
            sym e,
          )
      | inr other ↦ (b, R.push_keeps s old c h there (ne_of_str_eq h (digest c) other), named)
    ]

    push-HasBlob : (s : B.State) (old : Str) (c : Bytes) → HasBlob (push B s old c).2 (digest c)
    push-HasBlob s old c = (c, R.push_stores s old c, refl)

    module _ (J : Codec) (tmp_dir : Str) (d : Disk) where
      -- A call that, if it returns a value, has kept what was there, and the value is good.
      abbrev IsFine : {A : Type 0} → B.State → (B.State → A → Type 0) → Res A × B.State → Type 0
      IsFine {A} s P r = (x : A) → r.0 ≡ ok x → Grows s r.1 × P r.1 x

      verified-IsFine :
          (hash : Str) (s : B.State) (b : Bytes)
          → IsFine s (λ t u. HasBlob t hash) (verified B J tmp_dir d hash (push B s [] b))
      unfolding verified
      verified-IsFine hash s b u done =
          let P : push B s [] b ≡ (ok tt, digest b, (push B s [] b).2) =
            λ i. (R.push_ok s [] b i, R.push_hash s [] b i, (push B s [] b).2) in
          let e = ap (verified B J tmp_dir d hash) P in
          elim (Bool-cases (str_eq (digest b) hash)) [
            | inr other ↦ absurd (ground (arith, ap (λ (x : Status × B.State). x.0) e))
            | inl same ↦
                subst (λ t. Grows s t × HasBlob t hash) (sym (ap (λ (x : Status × B.State). x.1) e))
                  (
                    push-Grows s [] b,
                    subst (HasBlob (push B s [] b).2) ((str_eq_iff (digest b) hash).0 same)
                        (push-HasBlob s [] b),
                  )
          ]

      file-IsFine :
          (hash : Str) (s : B.State) (r : Status × B.State)
          → IsFine s (λ t u. HasBlob t hash) r
          → IsFine s (λ t f. HasBlob t hash) (file_or_error B J tmp_dir d hash r)
      file-IsFine hash s (err e, t) fine f done = ground arith
      file-IsFine hash s (ok u, t) fine f done = fine u refl

      copied-IsFine :
          (hash : Str) (s : B.State) (content : Res Bytes)
          → IsFine s (λ t f. HasBlob t hash) (copied B J tmp_dir d hash s content)
      copied-IsFine hash s (ok b) f done = file-IsFine hash s _ (verified-IsFine hash s b) f done
      copied-IsFine hash s (err e) f done = elim (Result-cases (B.blob_create s).0) [
        | inl (w, created) ↦ absurd (ground arith)
        | inr (x, failed) ↦ absurd (ground arith)
      ]

      import_file-opened :
          (hash : Str) (s : B.State) (content : Res Bytes)
          → open_file d (inside tmp_dir hash) ≡ ok content
          → import_file B J tmp_dir d hash s ≡ copied B J tmp_dir d hash s content
      unfolding import_file
      import_file-opened hash s content opened = rw (opened, import_file)

      import_file-IsFine :
          (hash : Str) (s : B.State)
          → IsFine s (λ t f. HasBlob t hash) (import_file B J tmp_dir d hash s)
      unfolding import_file
      import_file-IsFine hash s f done = elim (Result-cases (open_file d (inside tmp_dir hash))) [
        | inr (e, failed) ↦ absurd (ground arith)
        | inl (content, opened) ↦
            subst (IsFine s (λ t f. HasBlob t hash))
              (sym (import_file-opened hash s content opened)) (copied-IsFine hash s content) f done
      ]

      -- What is asked of an importer of directories.
      abbrev IsGood : Importer B J tmp_dir d → Type 0
      IsGood go = (h : Str) (s : B.State) → IsFine s (λ t c. (dir_hash c ≡ h) × HasDir t c) (go h s)

      in_dir-IsFine :
          (h : Str) (s : B.State) (r : Res Dir × B.State)
          → IsFine s (λ t c. (dir_hash c ≡ h) × HasDir t c) r
          → IsFine s HasEntry (in_dir_entry B J tmp_dir d h r)
      unfolding HasEntry
      in_dir-IsFine h s (err e, t) fine e' done = ground arith
      in_dir-IsFine h s (ok c, t) fine e' done =
          let same : dir_entry h (to_dir c) ≡ e' = cc done in
          ((fine c refl).0, subst (HasEntry t) same (fine c refl).1)

      in_file-IsFine :
          (h : Str) (s : B.State) (r : Res File × B.State)
          → IsFine s (λ t f. HasBlob t h) r
          → IsFine s HasEntry (in_file_entry B J tmp_dir d h r)
      unfolding HasEntry
      in_file-IsFine h s (err e, t) fine e' done = ground arith
      in_file-IsFine h s (ok f, t) fine e' done =
          let same : file_entry h (some f) ≡ e' = cc done in
          ((fine f refl).0, subst (HasEntry t) same (fine f refl).1)

      import_entry-IsFine :
          (go : Importer B J tmp_dir d)
          → IsGood go
          → (e : DirEntry) (s : B.State) → IsFine s HasEntry (import_entry B J tmp_dir d go e s)
      unfolding import_entry
      import_entry-IsFine go good (dir_entry h c) s = in_dir-IsFine h s (go h s) (good h s)
      import_entry-IsFine go good (file_entry h f) s =
          in_file-IsFine h s (import_file B J tmp_dir d h s) (import_file-IsFine h s)

      next-IsFine :
          (k : Str) (s : B.State) (r : Res DirEntry) (t : B.State) (rest : Res Entries × B.State)
          → IsFine s HasEntry (r, t)
          → IsFine t HasEntries rest
          → IsFine s HasEntries (next_entry B J tmp_dir d k r t rest)
      unfolding HasEntries
      next-IsFine k s (err e) t rest here after x done = ground arith
      next-IsFine k s (ok e) t (err y, u) here after x done = ground arith
      next-IsFine k s (ok e) t (ok es, u) here after x done =
          let (grew, has) = here e refl in
          let (grew', have) = after es refl in
          let same : cons k e es ≡ x = cc done in
          (
            λ h blob. grew' h (grew h blob),
            subst (HasEntries u) same (HasEntry-Grows grew' e has, have),
          )

      import_entries-IsFine :
          (go : Importer B J tmp_dir d)
          → IsGood go
          → (es : Entries) (s : B.State)
          → IsFine s HasEntries (import_entries B J tmp_dir d go es s)
      unfolding import_entries HasEntries
      import_entries-IsFine go good nil s x done =
          let same : nil ≡ x = cc done in (λ h blob. blob, subst (HasEntries s) same tt)
      import_entries-IsFine go good (cons k e es) s x done =
          let (r, t) = import_entry B J tmp_dir d go e s in
          next-IsFine k s r t (import_entries B J tmp_dir d go es t)
            (import_entry-IsFine go good e s) (import_entries-IsFine go good es t) x done

      dir-IsFine :
          (hash : Str) (s t : B.State) (r : Res Entries × B.State)
          → Grows s t × HasBlob t hash
          → IsFine t HasEntries r
          → IsFine s (λ u c. (dir_hash c ≡ hash) × HasDir u c) (dir_or_error B J tmp_dir d hash r)
      unfolding HasDir
      dir-IsFine hash s t (err e, u) before fine c done = ground arith
      dir-IsFine hash s t (ok es, u) (grew, blob) fine c done =
          let (grew', have) = fine es refl in
          let same : directory hash es ≡ c = cc done in
          (
            λ h b. grew' h (grew h b),
            subst (λ x. (dir_hash x ≡ hash) × HasDir u x) same (refl, (grew' hash blob, have)),
          )

      then-IsFine :
          (go : Importer B J tmp_dir d)
          → IsGood go
          → (hash : Str) (es : Entries) (s : B.State) (r : Status × B.State)
          → IsFine s (λ t u. HasBlob t hash) r
          → IsFine s
              (λ t c. (dir_hash c ≡ hash) × HasDir t c)
              (then_entries B J tmp_dir d go hash es r)
      then-IsFine go good hash es s (err e, t) fine c done = ground arith
      then-IsFine go good hash es s (ok u, t) fine c done =
          dir-IsFine hash s t (import_entries B J tmp_dir d go es t) (fine u refl)
            (import_entries-IsFine go good es t) c done

      import_bytes-IsFine :
          (go : Importer B J tmp_dir d)
          → IsGood go
          → (hash : Str) (b : Bytes) (s : B.State)
          → IsFine s
              (λ t c. (dir_hash c ≡ hash) × HasDir t c)
              (import_bytes B J tmp_dir d go hash b s)
      unfolding import_bytes
      import_bytes-IsFine go good hash b s c done = elim (Result-cases (J.unmarshal b)) [
        | inr (e, failed) ↦ absurd (ground arith)
        | inl (l, decoded) ↦
            let e : import_bytes B J tmp_dir d go hash b s
                ≡ then_entries B J tmp_dir d go hash (from_listing l)
                    (verified B J tmp_dir d hash (push B s [] b)) =
              rw (decoded, import_bytes) in
            subst (IsFine s (λ t c. (dir_hash c ≡ hash) × HasDir t c)) (sym e)
              (then-IsFine go good hash (from_listing l) s _ (verified-IsFine hash s b)) c done
      ]

      import_dir-IsGood : (n : ℕ) → IsGood (import_dir B J tmp_dir d n)
      unfolding import_dir
      import_dir-IsGood zero hash s c done = ground arith
      import_dir-IsGood (suc n) hash s c done =
          elim (Result-cases (read_file d (inside tmp_dir hash))) [
            | inr (e, failed) ↦ absurd (ground arith)
            | inl (b, found) ↦
                let e : import_dir B J tmp_dir d (suc n) hash s
                    ≡ import_bytes B J tmp_dir d (import_dir B J tmp_dir d n) hash b s =
                  rw (found, import_dir) in
                subst (IsFine s (λ t c. (dir_hash c ≡ hash) × HasDir t c)) (sym e)
                  (import_bytes-IsFine _ (import_dir-IsGood n) hash b s) c done
          ]

      -- In a storage that is reliable, an import of a directory that succeeds gives a directory
      -- with the hash that was asked for, the storage then has a blob for it and for every
      -- directory and file below it whose digest is the hash it is named by, and keeps the blobs of
      -- that kind that it had.
      pub import_dir-HasDir :
          (n : ℕ) (hash : Str) (s t : B.State) (c : Dir)
          → import_dir B J tmp_dir d n hash s ≡ (ok c, t)
          → (dir_hash c ≡ hash) × HasDir t c × Grows s t
      import_dir-HasDir n hash s t c done =
          let (grew, (same, has)) =
            import_dir-IsGood n hash s c (ap (λ (x : Res Dir × B.State). x.0) done) in
          subst (λ u. (dir_hash c ≡ hash) × HasDir u c × Grows s u)
            (ap (λ (x : Res Dir × B.State). x.1) done) (same, has, grew)
