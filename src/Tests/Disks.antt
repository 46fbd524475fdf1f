-- ===== src/Tests/Disks.antt =====
-- A storage in a directory: a blob is pushed, with and without a rename that fails, and a root is
-- saved and opened again by a second storage.
use httplock.Base.{
  All, ℕ, Bool, ◌≡◌, refl, sym, ◌∙◌, ap, true, str_eq, Option, some, none, List, [], ◌∷◌, Str, text,
  ok, err, zero, suc,
}
use httplock.Base.Dict.{Dict, lookup, insert, erase}
use httplock.Hasher.{Bytes, Wrote}
use httplock.Hasher
use httplock.Storage.Errors.{Res}
use httplock.Storage.Backend.{push}
use httplock.Storage.Blob
use httplock.Storage.Blob.{new_blob_writer, join_errors}
use httplock.Storage.Tree.{listing, find, put, sort_listing, insert_sorted}
use httplock.Storage.Root.Hash.{hash_file, hash_dir, push_dir, file_entry_hashed, dir_entry_hashed}
use httplock.Storage.Memory.{MemStorage}
use httplock.Storage.Memory
use httplock.Storage.Root.{new_root, new_root_hash, link, save, get_dir, load_root, walk}
use httplock.Storage.Filesystem.{
  FsStorage, IndexCodec, IsFaithfulIndex, index_file, new_filesystem, fs_storage, read_index,
  root_create, root_save, on_root, record_saved, write_index, after_stat, root_create_from,
  root_open,
}
use httplock.Storage.Filesystem.Paths.{join_path, clean, split_path, join_parts, parent, prefixes}
use httplock.Storage.Filesystem.Os.{
  Disk, Node, directory, Fault, attempt, is_dir, stat, mkdir_all, create, create_temp, try_names,
  file_write, file_close, append_file, rename, remove, read_file,
}
use httplock.Storage.Filesystem.Blobs.{
  tmp_dir, FsBlobs, filesystem, blob_create, blob_write, blob_close, blob_hash, lend, take_back,
  file_blob,
}
use httplock.Storage.Filesystem.Names.{with_names, names_of, names-same}
use httplock.Storage.Filesystem.Restart.{Opens, new_filesystem-root_save}
use httplock.Storage.Filesystem.Filing.{Pushed, IsFiled, HasNoOther, push-IsFiled, push-HasNoOther}
use package.httplock.Tests.Sample.{digest, codec, encode_text}

encode_index : Dict ℕ → Bytes
encode_index [] = []
encode_index ((k, n) ∷ m) = encode_text k (n ∷ encode_index m)

abbrev longer : ℕ → Dict ℕ → Dict ℕ
longer c [] = []
longer c ((k, n) ∷ m) = (c ∷ k, n) ∷ m

decode_index : Bytes → Dict ℕ
decode_index [] = []
decode_index (zero ∷ []) = []
decode_index (zero ∷ n ∷ rest) = ([], n) ∷ decode_index rest
decode_index (suc c ∷ rest) = longer c (decode_index rest)

decode_index-text :
    (k : Str) (n : ℕ) (rest : Bytes)
    → decode_index (encode_text k (n ∷ rest)) ≡ (k, n) ∷ decode_index rest
unfolding decode_index encode_text
decode_index-text [] n rest = refl
decode_index-text (c ∷ k) n rest = ap (longer c) (decode_index-text k n rest)

decode_index-encode_index : (m : Dict ℕ) → decode_index (encode_index m) ≡ m
unfolding decode_index encode_index
decode_index-encode_index [] = refl
decode_index-encode_index ((k, n) ∷ m) =
    rw (decode_index-text k n (encode_index m)) (ap (λ t. (k, n) ∷ t) (decode_index-encode_index m))

abbrev index_codec : IndexCodec
index_codec = record {
  marshal_index = λ m. ok (encode_index m);
  unmarshal_index = decode_index;
  IsText = λ s. Unit {0};
}

saved_texts : (m : Dict ℕ) → All (λ (e : Str × ℕ). index_codec.IsText e.0) m
saved_texts [] = tt
saved_texts (e ∷ m) = (tt, saved_texts m)

index_codec-IsFaithfulIndex : IsFaithfulIndex index_codec
index_codec-IsFaithfulIndex = record {
  unmarshal-marshal = λ m b hash texts encoded.
      let e : encode_index m ≡ b = cc encoded in
      ap (λ x. lookup hash (decode_index x)) (sym e)
      ∙ ap (lookup hash) (decode_index-encode_index m);
}

-- An empty disk, where the third call and those after it meet the faults.
abbrev disk : List (Option Fault) → Disk
disk faults = record {
  nodes = [];
  unreadable = [];
  faults = faults;
  names = λ n. b'a' ∷ [];
  drawn = 0;
}

clean_test : join_path (text "./data//x/..") (text "a/./b") ≡ text "data/a/b"
unfolding join_path clean split_path join_parts str_eq
clean_test = refl

parent_test : parent (text "/data/tmp") ≡ text "/data"
unfolding parent split_path join_parts
parent_test = refl

-- A directory that has been made is ready for blobs.
abbrev home : Dict Node
home = (text "data", directory) ∷ (text "data/tmp", directory) ∷ []

opened_test : new_filesystem index_codec (text "data") (disk []) ≡ (
  ok (fs_storage index_codec (text "data") (record (disk []) { nodes = home })),
  record (disk []) { nodes = home },
)
unfolding new_filesystem stat mkdir_all attempt is_dir join_path clean split_path join_parts
    prefixes fs_storage read_index read_file lookup insert str_eq
opened_test = refl

abbrev blobs : List (Option Fault) → FsBlobs
blobs faults = record {
  dir = text "data";
  disk = record (disk faults) { nodes = home };
  writers = [];
}

abbrev body : Bytes
body = text "hello"

push-IsFiled_example : Pushed digest (blobs []) [] body (IsFiled digest (blobs []) body)
unfolding join_path clean split_path join_parts parent is_dir lookup str_eq Hasher.from_bytes
    Hasher.hex
push-IsFiled_example =
    push-IsFiled digest (blobs []) [] body (refl, refl) (refl, refl) refl refl refl refl

-- The disk is full when the file is renamed.
abbrev full : List (Option Fault)
full = none ∷ none ∷ none ∷ some (record { error = 28; written = 0 }) ∷ []

push-HasNoOther_example : Pushed digest (blobs full) [] body (HasNoOther digest (blobs full))
unfolding join_path clean split_path join_parts is_dir lookup str_eq
push-HasNoOther_example =
    push-HasNoOther digest (blobs full) [] body (record { error = 28; written = 0 }) (refl, refl)
      refl refl refl refl

abbrev storage : FsStorage
storage = record { index = (text "old", 3) ∷ []; roots = []; objects = []; blobs = blobs [] }

names-same_example :
    (with_names (root_create (text "1") storage) ≡ Memory.root_create (text "1") (names_of storage))
    × (with_names (root_create_from (text "old") (text "1") storage)
        ≡ Memory.root_create_from (text "old") (text "1") (names_of storage))
    × (with_names (root_open (text "old") 7 storage)
        ≡ Memory.root_open (text "old") 7 (names_of storage))
names-same_example = names-same (text "old") (text "1") 7 storage

abbrev recorded : FsStorage
recorded =
    (on_root (link (filesystem digest) codec (text "f" ∷ []) (text "h")) 0
      (root_create (text "1") storage).1).1

saved : Res Str × FsStorage
unfolding root_save on_root record_saved write_index save hash_dir push_dir push file_entry_hashed
    dir_entry_hashed listing sort_listing insert_sorted hash_file root_create new_root new_root_hash
    link blob_create blob_write blob_close blob_hash Blob.write Blob.close Blob.hash Hasher.write
    Hasher.from_bytes Hasher.hex new_blob_writer join_errors lend take_back file_blob create_temp
    try_names file_write file_close append_file rename remove create attempt is_dir join_path clean
    split_path join_parts parent get_dir load_root walk find put encode_index encode_text lookup
    insert erase str_eq codec
saved = root_save digest codec index_codec 0 5 recorded

abbrev name_or_empty : Res Str × FsStorage → Str
name_or_empty (ok h, f) = h
name_or_empty (err e, f) = []

abbrev hash : Str
hash = name_or_empty saved

saved_done : root_save digest codec index_codec 0 5 recorded ≡ (ok hash, saved.1)
unfolding saved
saved_done = refl

index_readable :
    lookup (join_path saved.1.blobs.dir index_file) saved.1.blobs.disk.unreadable ≡ none
unfolding saved
index_readable = refl

-- What looking for the directory of the temporary files gives after the save.
abbrev looked : Res Bool × Disk
looked = stat (join_path saved.1.blobs.dir tmp_dir) saved.1.blobs.disk

looked_done : looked.0 ≡ ok true
unfolding saved stat
looked_done = refl

abbrev again : FsStorage
again = fs_storage index_codec saved.1.blobs.dir looked.1

again_done : new_filesystem index_codec saved.1.blobs.dir saved.1.blobs.disk ≡ (ok again, looked.1)
unfolding new_filesystem
again_done = ap (λ found. after_stat index_codec saved.1.blobs.dir (found, looked.1)) looked_done

new_filesystem-root_save_example :
    ((name : Str) → lookup name again.index ≡ lookup name saved.1.index)
    × (lookup hash again.index ≡ some 5)
    × Opens 9 hash again
new_filesystem-root_save_example =
    new_filesystem-root_save digest codec index_codec index_codec-IsFaithfulIndex recorded 0 5 9
      hash (saved_texts recorded.index) tt saved_done index_readable again_done
