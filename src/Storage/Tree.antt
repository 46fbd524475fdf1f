-- ===== src/Storage/Tree.antt =====
-- The in-memory tree of a root (`Dir`, `DirEntry` and `File` of internal/storage/root.go). Each
-- `*Dir` is reached from one entry only, so the tree itself stands for the heap: a nil pointer is
-- `no_dir` or `none`. The kind of an entry is its constructor; the pointer of the other kind is
-- nil in every entry that the code builds.
pub mod Laws
use httplock.Base.{ℕ, Option, none, some, [], ◌∷◌, Str, str_eq, str_lt, if◌then◌else◌}
use httplock.Storage.Kind.{EntryKind, kind_dir, kind_file}
use httplock.Storage.Backend.{Info, Listing}

-- `blob_w` is the number of the blob writer.
pub record File : Type 0 where
  pub hash : Str
  pub blob_w : Option ℕ

mutual
  pub data Dir : Type 0 where
    directory : Str → Entries → Dir

  -- The map of the entries, in the order in which a `range` visits them.
  pub data Entries : Type 0 where
    nil : Entries
    cons : Str → DirEntry → Entries → Entries

  pub data DirEntry : Type 0 where
    dir_entry : Str → DirRef → DirEntry
    file_entry : Str → Option File → DirEntry

  pub data DirRef : Type 0 where
    no_dir : DirRef
    to_dir : Dir → DirRef

abbrev pub dir_hash : Dir → Str
dir_hash (directory h es) = h

abbrev pub entries : Dir → Entries
entries (directory h es) = es

-- `dCur.hash = ""`
abbrev pub clear_hash : Dir → Dir
clear_hash (directory h es) = directory [] es

abbrev pub empty_dir : Dir
empty_dir = directory [] nil

abbrev pub entry_hash_field : DirEntry → Str
entry_hash_field (dir_entry h d) = h
entry_hash_field (file_entry h f) = h

abbrev pub entry_kind : DirEntry → EntryKind
entry_kind (dir_entry h d) = kind_dir
entry_kind (file_entry h f) = kind_file

-- `d.Entries[name]`
unfoldable pub find : Str → Entries → Option DirEntry
find k nil = none
find k (cons j e es) = if str_eq j k then some e else find k es

-- `d.Entries[name] = e`, and any change through the pointer that the map holds.
unfoldable pub put : Str → DirEntry → Entries → Entries
put k e nil = cons k e nil
put k e (cons j f es) = if str_eq j k then cons j e es else cons j f (put k e es)

abbrev pub put_in : Str → DirEntry → Dir → Dir
put_in k e (directory h es) = directory h (put k e es)

abbrev pub info : DirEntry → Info
info e = record { hash = entry_hash_field e; kind = entry_kind e }

-- What JSON shows of a directory, in the order of the map.
unfoldable pub listing : Entries → Listing
listing nil = []
listing (cons k e es) = (k, info e) ∷ listing es

-- The order of the names, by insertion.
unfoldable pub insert_sorted : Str → Info → Listing → Listing
insert_sorted k i [] = (k, i) ∷ []
insert_sorted k i ((j, x) ∷ l) =
    if str_lt k j then (k, i) ∷ (j, x) ∷ l else (j, x) ∷ insert_sorted k i l

unfoldable pub sort_listing : Listing → Listing
unfolding insert_sorted
sort_listing [] = []
sort_listing ((k, i) ∷ l) = insert_sorted k i (sort_listing l)

-- The entries that `json.Unmarshal` builds: hashes and kinds, and no pointers.
abbrev pub unloaded : Info → DirEntry
unloaded i = elim i.kind [ kind_dir ↦ dir_entry i.hash no_dir | kind_file ↦ file_entry i.hash none ]

unfoldable pub from_listing : Listing → Entries
from_listing [] = nil
from_listing ((k, i) ∷ l) = cons k (unloaded i) (from_listing l)
