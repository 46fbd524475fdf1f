-- ===== src/Tests/Diffs.antt =====
-- Two roots compared.
use httplock.Base.{
  arith, ◌≡◌, refl, true, none, List, [], ◌∷◌, Str, str_eq, str_lt, compare_str, sort_strs,
  insert_str, text,
}
use httplock.Base.Dict.{lookup}
use httplock.Storage.Kind.{kind_file}
use httplock.Storage.Backend.{Listing}
use httplock.Storage.Tree.{
  Dir, directory, nil, cons, dir_entry, file_entry, no_dir, to_dir, find, from_listing, put,
}
use httplock.Storage.Root.{Root, load_root, load_dir}
use httplock.Storage.Memory.Blobs.{MemBlobs, no_blobs, blob_open}
use httplock.Storage.Diff.{
  keys, diff_roots, hash_first, hash_second, hash_root, require_root_hash, compare_roots,
  new_diff_iter, compare_loop, compare_turn, side, cmp_paths, next, turn, visit, enter, leave,
  after_first, after_second, after_both, compare_files, deleted, added, changed, DiffEntry,
}
use httplock.Storage.Diff.Files.{Walks, ended, a_file, a_dir, files, turns, shows}
use httplock.Storage.Diff.Correct.{Reports, diff_roots-Reports}
use package.httplock.Tests.Sample.{backend, codec}

abbrev sub_listing : Listing
sub_listing = (text "x", record { hash = text "hx"; kind = kind_file }) ∷ []

abbrev blobs : MemBlobs
blobs = record no_blobs { blobs = (text "hd", codec.marshal sub_listing) ∷ [] }

abbrev sub_dir : Dir
sub_dir = directory [] (from_listing sub_listing)

abbrev old_dir : Dir
old_dir = directory [] (
    cons (text "d") (dir_entry (text "hd") no_dir)
      (cons (text "b") (file_entry (text "h1") none) nil))

abbrev new_dir : Dir
new_dir = directory [] (
    cons (text "b") (file_entry (text "h2") none)
      (cons (text "e") (file_entry (text "h3") none) nil))

abbrev saved : Str → Dir → Root
saved h d = record { hash = h; dir = to_dir d; readonly = true }

abbrev old_root : Root
old_root = saved (text "old") old_dir

abbrev new_root : Root
new_root = saved (text "new") new_dir

abbrev report : List DiffEntry
report =
    changed (text "b" ∷ []) (text "h1") (text "h2")
    ∷ deleted (text "d" ∷ text "x" ∷ []) (text "hx")
    ∷ added (text "e" ∷ []) (text "h3")
    ∷ []

diff_runs : (diff_roots backend codec 9 9 blobs old_root new_root).1.entries ≡ report
unfolding diff_roots hash_first hash_second hash_root require_root_hash compare_roots new_diff_iter
    compare_loop compare_turn side cmp_paths next turn visit enter leave after_first after_second
    after_both compare_files keys sort_strs insert_str str_lt str_eq compare_str find put load_root
    load_dir blob_open lookup codec from_listing
diff_runs = refl

old_walk : Walks backend codec blobs (shows old_dir) (keys old_dir)
unfolding keys sort_strs insert_str str_lt find str_eq load_dir blob_open lookup codec from_listing
old_walk = a_file (text "b") (text "h1") refl (
    a_dir (text "d") (text "hd") sub_dir refl refl (tt, tt)
      (a_file (text "x") (text "hx") refl ended) ended)

new_walk : Walks backend codec blobs (shows new_dir) (keys new_dir)
unfolding keys sort_strs insert_str str_lt find str_eq
new_walk = a_file (text "b") (text "h2") refl (a_file (text "e") (text "h3") refl ended)

diff_roots-Reports_example :
    Reports backend codec
      (text "old")
      (text "new")
      (files backend codec blobs old_walk)
      (files backend codec blobs new_walk)
      (diff_roots backend codec 9 9 blobs old_root new_root)
unfolding old_walk new_walk hash_root require_root_hash files turns load_root compare_str
diff_roots-Reports_example =
    diff_roots-Reports backend codec blobs blobs blobs 8 9 old_root new_root old_root new_root
      (text "old") (text "new") old_dir new_dir old_walk new_walk refl refl refl refl
      ((refl, tt), (tt, tt)) ((refl, tt), (tt, tt)) (omega arith) (omega arith) (omega arith)
