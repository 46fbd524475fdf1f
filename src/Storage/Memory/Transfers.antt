-- ===== src/Storage/Memory/Transfers.antt =====
-- A comparison, an export and an import of roots, as calls on the storage in memory.
use mathlib.Core.Path.{subst}
use native.Mathlib.Decide.{ℕ_discrete}
use httplock.Base.{
  ℕ, ◌==◌, ◌≡◌, ◌∙◌, none, some, List, Str, get_elem?, set, get_elem?-set_self, get_elem?-set_ne,
  get_elem?-length, Option-cases, Bool-cases, inl, inr, ok, err, arith,
}
use httplock.Hasher.{Bytes}
use httplock.Storage.Errors.{Res, Status}
use httplock.Storage.Backend.{Codec}
use httplock.Storage.Tree.{Dir}
use httplock.Storage.Root.{Root, save}
use httplock.Storage.Root.Frozen.{IsKept, IsKept-refl, IsKept-trans, save-IsKept}
use httplock.Storage.Root.Report.{report}
use httplock.Storage.Root.Walking.{WalkFns, walk_root}
use httplock.Storage.Root.Walking.Frozen.{walk_root-IsKept, report-IsKept}
use httplock.Storage.Diff.{Diffed, hash_root}
use httplock.Storage.Diff.Frozen.{
  BothKept, hash_root-IsKept, hash_first-BothKept, diff_roots-BothKept,
}
use httplock.Storage.Filesystem.Os.{Disk}
use httplock.Storage.Import.{import_dir}
use httplock.Storage.Import.Archive
use httplock.Storage.Import.Archive.{Tar, Readers, import_archive, import_root, save_imported}
use httplock.Storage.Export
use httplock.Storage.Export.{TarWriter, Encoders, export_archive, export_root}
use httplock.Api.Reply.{abort_with_status}
use httplock.Api.Roots
use package.httplock.Storage.Memory.{MemStorage, root_open, root_save, on_root}
use package.httplock.Storage.Memory.Blobs.{MemBlobs, memory}
use package.httplock.Storage.Memory.Index.{
  IsSound, AllKept, AllKept-set, AllKept-append, objects-IsSound, on_root-IsSound,
  root_open-IsSound, record_saved-IsSound, some_eq,
}

pub root_save-IsSound :
    (digest : Bytes → Str) (J : Codec) (m : MemStorage) (p now : ℕ)
    → IsSound m
    → IsSound (root_save digest J p now m).1
unfolding root_save
root_save-IsSound digest J m p now sound =
    let (hash, m') = on_root (save (memory digest) J) p m in
    record_saved-IsSound now hash m'
      (on_root-IsSound (save (memory digest) J) p m (save-IsKept (memory digest) J) sound)

-- Both roots of a comparison.
AllKept-set_two :
    (os : List Root) (p q : ℕ) (r1 r2 r1' r2' : Root)
    → get_elem? os p ≡ some r1
    → get_elem? os q ≡ some r2
    → IsKept r1 r1'
    → IsKept r2 r2'
    → AllKept os (set (set os q r2') p r1')
AllKept-set_two os p q r1 r2 r1' r2' at1 at2 kept1 kept2 i x at = elim (ℕ_discrete p i) [
  | yes same ↦
      let (y, there, k) = AllKept-set os q r2 r2' at2 kept2 p r1 at1 in
      let again = subst (λ n. get_elem? os n ≡ some r1) same at1 in
      (
        r1',
        subst (λ n. get_elem? (set (set os q r2') p r1') n ≡ some r1') same
            (get_elem?-set_self (set os q r2') p _ (get_elem?-length (set os q r2') p there)),
        subst (λ z. IsKept z r1') (some_eq (get_elem? os i) r1 x again at) kept1,
      )
  | no ne ↦
      let (y, there, k) = AllKept-set os q r2 r2' at2 kept2 i x at in
      (y, get_elem?-set_ne (set os q r2') p i r1' ne ∙ there, k)
]

module _ (digest : Bytes → Str) (J : Codec) where
  module _ (turns depth : ℕ) where
    diff_objects-BothKept :
        (p q : ℕ) (m : MemStorage) (r1 r2 : Root)
        → get_elem? m.objects p ≡ some r1
        → get_elem? m.objects q ≡ some r2
        → BothKept (memory digest) J r1 r2 (Roots.diff_objects digest J turns depth p q m r1 r2)
    diff_objects-BothKept p q m r1 r2 at1 at2 = elim (Bool-cases (p == q)) [
      | inl same ↦
          let e : r1 ≡ r2 =
            some_eq (get_elem? m.objects p) r1 r2 at1
              (subst (λ i. get_elem? m.objects i ≡ some r2) (ground (arith, same)) at2) in
          let kept = hash_root-IsKept (memory digest) J 1 m.blobs r1 in
          rw same (
            hash_first-BothKept (memory digest) J turns depth r1 r2 _ _ kept
              (subst (λ r. IsKept r (hash_root (memory digest) J 1 m.blobs r1).1) e kept))
      | inr other ↦ rw other (diff_roots-BothKept (memory digest) J turns depth m.blobs r1 r2)
    ]

    diff_reply-IsSound :
        (p q : ℕ) (m : MemStorage) (r1 r2 : Root) (x : Diffed (memory digest) J)
        → get_elem? m.objects p ≡ some r1
        → get_elem? m.objects q ≡ some r2
        → BothKept (memory digest) J r1 r2 x
        → IsSound m
        → IsSound (Roots.diff_reply digest J turns depth p q m x).1
    unfolding abort_with_status
    diff_reply-IsSound p q m r1 r2 (none, lines, q1, q2, s) at1 at2 (k1, k2) sound =
        objects-IsSound m _ s (AllKept-set_two m.objects p q r1 r2 q1 q2 at1 at2 k1 k2) sound
    diff_reply-IsSound p q m r1 r2 (some e, lines, q1, q2, s) at1 at2 (k1, k2) sound =
        objects-IsSound m _ s (AllKept-set_two m.objects p q r1 r2 q1 q2 at1 at2 k1 k2) sound

    pub diff_opened-IsSound :
        (p q : ℕ) (m : MemStorage)
        → IsSound m
        → IsSound (Roots.diff_opened digest J turns depth p q m).1
    unfolding abort_with_status
    diff_opened-IsSound p q m sound = elim (Option-cases (get_elem? m.objects p)) [
      | inl gone ↦ rw (gone, Roots.diff_opened) sound
      | inr (r1, at1) ↦ elim (Option-cases (get_elem? m.objects q)) [
        | inl gone ↦ rw (at1, gone, Roots.diff_opened) sound
        | inr (r2, at2) ↦
            rw (at1, at2, Roots.diff_opened)
              (diff_reply-IsSound p q m r1 r2 _ at1 at2 (diff_objects-BothKept p q m r1 r2 at1 at2)
                sound)
      ]
    ]

  module _ (T : TarWriter) (E : Encoders) (n : ℕ) where
    walk_after-IsKept :
        (r : Root) (s : MemBlobs) (x : Status × T.Out)
        → IsKept r (Export.walk_after T (memory digest) J n r s x).2
    walk_after-IsKept r s (err e, o) = IsKept-refl r
    walk_after-IsKept r s (ok u, o) = walk_root-IsKept (memory digest) J _ n o s r

    report_after-IsKept :
        (r : Root) (o : T.Out) (s : MemBlobs) (x : Res Str × Root)
        → IsKept r x.1
        → IsKept r (Export.report_after T (memory digest) J n o s x).2
    report_after-IsKept r o s (err e, r') kept = kept
    report_after-IsKept r o s (ok lines, r') kept =
        IsKept-trans r r' _ kept (walk_after-IsKept r' s _)

    rest_after-IsKept :
        (r : Root) (s : MemBlobs) (x : Status × T.Out)
        → IsKept r (Export.rest_after T (memory digest) J n r s x).2
    rest_after-IsKept r s (err e, o) = IsKept-refl r
    rest_after-IsKept r s (ok u, o) =
        report_after-IsKept r o s _ (report-IsKept (memory digest) J n s r)

    at_root-IsKept :
        (o : T.Out) (s : MemBlobs) (r : Root) → IsKept r (Export.at_root T digest J E n o s r).1
    unfolding export_root
    at_root-IsKept o s r = rest_after-IsKept r s _

    closed-IsSound :
        (o : T.Out) (x : Res (Status × T.Out) × MemStorage)
        → IsSound x.1
        → IsSound (Export.closed T digest J o x).2
    closed-IsSound o (err e, m) sound = sound
    closed-IsSound o (ok x, m) sound = sound

    export_opened-IsSound :
        (o : T.Out) (x : Res ℕ × MemStorage)
        → IsSound x.1
        → IsSound (Export.export_opened T digest J E n o x).2
    export_opened-IsSound o (err e, m) sound = sound
    export_opened-IsSound o (ok p, m) sound =
        closed-IsSound o _
          (on_root-IsSound (Export.at_root T digest J E n o) p m (at_root-IsKept o) sound)

    pub export_archive-IsSound :
        (id : Str) (now : ℕ) (o : T.Out) (m : MemStorage)
        → IsSound m
        → IsSound (export_archive T digest J E n id now o m).2
    unfolding export_archive
    export_archive-IsSound id now o m sound =
        export_opened-IsSound o (root_open id now m) (root_open-IsSound m id now sound)

  module _ (X : Readers) (n : ℕ) (id : Str) (now : ℕ) where
    blobs-IsSound : (m : MemStorage) (s : MemBlobs) → IsSound m → IsSound (record m { blobs = s })
    blobs-IsSound m s sound = record { leads = sound.leads }

    same_hash-IsSound :
        (x : Res Str × MemStorage) → IsSound x.1 → IsSound (Archive.same_hash X digest J n id x).1
    same_hash-IsSound (err e, m) sound = sound
    same_hash-IsSound (ok hash, m) sound = sound

    save_imported-IsSound :
        (m : MemStorage) (x : Res Dir × MemBlobs)
        → IsSound m
        → IsSound (save_imported X digest J n id now m x).1
    unfolding save_imported
    save_imported-IsSound m (err e, s) sound = blobs-IsSound m s sound
    save_imported-IsSound m (ok c, s) sound = same_hash-IsSound _ (
        root_save-IsSound digest J _ _ now
          (objects-IsSound m _ s (AllKept-append m.objects _) sound))

    stopped_or-IsSound :
        (x : Status × MemStorage) (m : MemStorage) (stop : Archive.Stop)
        → IsSound x.1
        → IsSound m
        → IsSound (Archive.stopped_or X digest J n x m stop).1
    stopped_or-IsSound x m none done sound = done
    stopped_or-IsSound x m (some st) done sound = sound

    import_root-IsSound :
        (tmp_dir : Str) (m : MemStorage) (d : Disk)
        → IsSound m
        → IsSound (import_root X digest J n id now tmp_dir m d).1
    unfolding import_root
    import_root-IsSound tmp_dir m d sound =
        save_imported-IsSound m (import_dir (memory digest) J tmp_dir d n id m.blobs) sound

    import_tar-IsSound :
        (tmp_dir : Str) (m : MemStorage) (d : Disk) (tar : Res Tar)
        → IsSound m
        → IsSound (Archive.import_tar X digest J n id now tmp_dir m d tar).1
    import_tar-IsSound tmp_dir m d (err e) sound = sound
    import_tar-IsSound tmp_dir m d (ok tar) sound =
        stopped_or-IsSound _ m _ (import_root-IsSound tmp_dir m _ sound) sound

    import_to-IsSound :
        (archive : Bytes) (m : MemStorage) (x : Res Str × Disk)
        → IsSound m
        → IsSound (Archive.import_to X digest J n id now archive m x).1
    import_to-IsSound archive m (err e, d) sound = sound
    import_to-IsSound archive m (ok tmp_dir, d) sound =
        import_tar-IsSound tmp_dir m d (X.gunzip archive) sound

    pub import_archive-IsSound :
        (archive : Bytes) (m : MemStorage) (d : Disk)
        → IsSound m
        → IsSound (import_archive X digest J n id now archive m d).1
    unfolding import_archive
    import_archive-IsSound archive m d sound = import_to-IsSound archive m _ sound

  -- What a walk, and a report, give at the root that a pointer leads to.
  abbrev pub walk_act :
      {K : Type 0}
      → WalkFns (memory digest) J K
      → ℕ
      → K
      → MemBlobs
      → Root
      → Res (Status × K) × Root × MemBlobs
  walk_act fns n k s r =
      let (st, k', r', s') = walk_root (memory digest) J fns n k s r in (ok (st, k'), r', s')

  abbrev pub report_act : ℕ → MemBlobs → Root → Res Str × Root × MemBlobs
  report_act n s r = let (x, r') = report (memory digest) J n s r in (x, r', s)
