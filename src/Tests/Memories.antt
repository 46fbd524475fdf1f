-- ===== src/Tests/Memories.antt =====
-- A storage in memory: a root is created, written to, saved and opened again.
use httplock.Base.{◌≡◌, ◌≢◌, refl, true, some, none, List, [], ◌∷◌, Str, text, ok, err, get_elem?}
use httplock.Base.Dict.{lookup}
use httplock.Storage.Errors.{Res, read_only}
use httplock.Storage.Backend.{IsReliable, push}
use httplock.Storage.Tree.{listing, sort_listing, insert_sorted}
use httplock.Storage.Root.Hash.{hash_file, hash_dir, push_dir, file_entry_hashed, dir_entry_hashed}
use httplock.Storage.Memory.{
  MemStorage, new_memory, root_create, root_create_from, root_open, root_save, on_root,
  record_saved,
}
use httplock.Storage.Memory.Blobs.{memory}
use httplock.Storage.Memory.Reliable.{memory-IsReliable}
use httplock.Storage.Memory.Calls.{Reach, start, next, create, saving, act_link, Reach-open}
use httplock.Storage.Root.{Root, new_root_hash, link, save}
use package.httplock.Tests.Sample.{digest, backend, codec}
use package.httplock.Tests.Roots.{write_file}

abbrev path : List Str
path = text "f" ∷ []

memory-IsReliable_example : IsReliable digest (memory digest)
memory-IsReliable_example = memory-IsReliable digest

abbrev created : MemStorage
created = (root_create (text "1") new_memory).1

abbrev recorded : MemStorage
recorded = (on_root (link backend codec path (text "h")) 0 created).1

abbrev name_or_empty : Res Str × MemStorage → Str
name_or_empty (ok h, m) = h
name_or_empty (err e, m) = []

saved : Res Str × MemStorage
unfolding root_save on_root record_saved save hash_dir push_dir push file_entry_hashed
    dir_entry_hashed listing sort_listing insert_sorted hash_file root_open root_create
    root_create_from new_memory new_root_hash write_file
saved = root_save digest codec 0 5 recorded

abbrev hash : Str
hash = name_or_empty saved

history : Reach digest codec saved.1
unfolding saved
history =
    next (next (next start (create new_memory (text "1"))) (act_link created 0 path (text "h")))
      (saving recorded 0 5)

Reach-open_example :
    (r : Root) × (get_elem? saved.1.objects 1 ≡ some r)
    × (r.readonly ≡ true → (r.hash ≡ hash) × (lookup hash saved.1.index ≢ none))
unfolding saved
Reach-open_example = Reach-open digest codec hash 9 1 history refl

-- The saved root is read-only.
open_runs : (on_root (link backend codec path (text "x")) 1 saved.1).0 ≡ err read_only
unfolding saved
open_runs = refl
