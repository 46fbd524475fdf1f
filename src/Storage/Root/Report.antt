-- ===== src/Storage/Root/Report.antt =====
-- `report` and `reportDir` (internal/storage/root.go): a line for each entry of a tree, which is
-- loaded on the way. `n` is the depth to which it may go.
use httplock.Base.{ℕ, zero, suc, none, some, List, [], ◌∷◌, ◌++◌, Str, text, ok, err, sort_strs}
use httplock.Storage.Errors.{Res, out_of_turns, panic}
use httplock.Storage.Backend.{Backend, Codec}
use httplock.Storage.Tree.{
  Dir, directory, Entries, nil, cons, dir_entry, file_entry, DirRef, no_dir, to_dir, find, put,
}
use package.httplock.Storage.Root.{Root, load_dir}

-- `strings.Join` with a separator.
unfoldable pub join_strs : Str → List Str → Str
join_strs sep [] = []
join_strs sep (s ∷ []) = s
join_strs sep (s ∷ t ∷ l) = s ++ (sep ++ join_strs sep (t ∷ l))

abbrev names : Entries → List Str
names nil = []
names (cons k e es) = k ∷ names es

-- `fmt.Sprintf("%s- [%s](./%s)", prefix, name, hash)`
abbrev link_line : Str → Str → Str → Str
link_line prefix name hash = prefix ++ (text "- [" ++ (name ++ (text "](./" ++ (hash ++ text ")"))))

-- 10 is the end of a line.
abbrev end_of_line : Str
end_of_line = 10 ∷ []

module _ (B : Backend) (J : Codec) where
  abbrev Reporter : Type 0
  Reporter = Dir → Str → List Str → Res (List Str) × Dir

  abbrev pub loaded : B.State → Str → DirRef → Res Dir
  loaded s h no_dir = load_dir B J s h
  loaded s h (to_dir d) = ok d

  -- The lines of one entry, and the entries with what was loaded for it.
  unfoldable pub report_entry :
      Reporter → B.State → Str → List Str → Entries → Str → Res (List Str) × Entries
  report_entry go s prefix lines es name = elim (find name es) [
    | none ↦ (err panic, es)
    | some (file_entry h f) ↦ (ok (lines ++ (link_line prefix name h ∷ [])), es)
    | some (dir_entry h x) ↦ elim (loaded s h x) [
      | err e ↦ (err e, es)
      | ok d ↦
          let (r, d') = go d (prefix ++ text "  ") (lines ++ (link_line prefix name h ∷ [])) in
          (r, put name (dir_entry h (to_dir d')) es)
    ]
  ]

  unfoldable pub report_names :
      Reporter → B.State → Str → List Str → List Str → Entries → Res (List Str) × Entries
  report_names go s prefix [] lines es = (ok lines, es)
  report_names go s prefix (name ∷ keys) lines es =
      let (r, es') = report_entry go s prefix lines es name in
      elim r [ err e ↦ (err e, es') | ok more ↦ report_names go s prefix keys more es' ]

  -- `reportDir`, in the order of the names.
  unfoldable pub report_dir : ℕ → B.State → Reporter
  report_dir zero s d prefix lines = (err out_of_turns, d)
  report_dir (suc n) s (directory h es) prefix lines =
      let (r, es') = report_names (report_dir n s) s prefix (sort_strs (names es)) lines es in
      (r, directory h es')

  abbrev joined : Res (List Str) → Res Str
  joined (err e) = err e
  joined (ok lines) = ok (join_strs end_of_line lines ++ end_of_line)

  -- `report`
  unfoldable pub report : ℕ → B.State → Root → Res Str × Root
  report n s r = elim (loaded s r.hash r.dir) [
    | err e ↦ (err e, r)
    | ok d ↦
        let first = text "[" ++ (r.hash ++ (text "](./" ++ (r.hash ++ text ")"))) in
        let (lines, d') = report_dir n s d [] (first ∷ [] ∷ []) in
        (joined lines, record r { dir = to_dir d' })
  ]
