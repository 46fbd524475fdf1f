-- ===== src/Tests/Imports.antt =====
-- An archive of a directory with one file is imported.
use httplock.Base.{◌≡◌, ◌↔◌, refl, none, [], ◌∷◌, Str, text, str_eq, ok, err}
use httplock.Base.Dict.{Dict, lookup, insert}
use httplock.Hasher
use httplock.Hasher.{Bytes}
use httplock.Storage.Errors.{Res, Status}
use httplock.Storage.Kind.{kind_file}
use httplock.Storage.Backend.{push}
use httplock.Storage.Tree.{Dir, empty_dir, dir_hash, from_listing}
use httplock.Storage.Memory.{MemStorage, new_memory}
use httplock.Storage.Memory.Blobs.{
  MemBlobs, no_blobs, memory, blob_create, blob_write, blob_close, blob_hash,
}
use httplock.Storage.Memory.Reliable.{memory-IsReliable}
use httplock.Storage.Blob
use httplock.Storage.Blob.{new_blob_writer, join_errors}
use httplock.Storage.Filesystem.Paths.{join_path, clean, split_path, join_parts}
use httplock.Storage.Filesystem.Os.{Disk, Node, regular, open_file, read_file}
use httplock.Storage.Import.{
  inside, verified, import_file, import_entry, import_entries, import_bytes, import_dir,
}
use httplock.Storage.Import.Archive.{Readers, type_reg, import_archive}
use httplock.Storage.Import.Verified.{HasDir, Grows, import_dir-HasDir}
use httplock.Storage.Import.Complete.{HasTree, import_dir-HasTree}
use package.httplock.Tests.Sample.{digest, codec, encode_text}

abbrev file_hash : Str
file_hash = text "sha256:05"

-- The directory, as the codec of the samples writes it.
abbrev dir_bytes : Bytes
dir_bytes = codec.marshal ((text "f", record { hash = file_hash; kind = kind_file }) ∷ [])

abbrev id : Str
id = digest dir_bytes

abbrev tmp_dir : Str
tmp_dir = text "/t"

abbrev disk : Dict Node → Disk
disk nodes = record {
  nodes = nodes;
  unreadable = [];
  faults = [];
  names = λ n. b'a' ∷ [];
  drawn = 0;
}

abbrev unpacked : Disk
unpacked =
    disk (
      (text "/t/sha256:0d", regular dir_bytes) ∷ (text "/t/sha256:05", regular (text "hello")) ∷ [])

abbrev imported : Res Dir × MemBlobs
imported = import_dir (memory digest) codec tmp_dir unpacked 2 (text "sha256:0d") no_blobs

abbrev dir_or_empty : Res Dir → Dir
dir_or_empty (ok d) = d
dir_or_empty (err e) = empty_dir

abbrev dir : Dir
dir = dir_or_empty imported.0

imported_done : imported.0 ≡ ok dir
unfolding import_dir import_bytes import_entries import_entry import_file verified inside join_path
    clean split_path join_parts str_eq read_file open_file lookup insert push blob_create blob_write
    blob_close blob_hash Hasher.from_bytes Hasher.hex Hasher.write Blob.write Blob.close Blob.hash
    new_blob_writer join_errors codec encode_text from_listing
imported_done = refl

import_dir-HasDir_example :
    (dir_hash dir ≡ text "sha256:0d")
    × HasDir digest (memory digest) imported.1 dir
    × Grows digest (memory digest) no_blobs imported.1
import_dir-HasDir_example =
    import_dir-HasDir digest (memory digest) (memory-IsReliable digest) codec tmp_dir unpacked 2
      (text "sha256:0d") no_blobs imported.1 dir (λ i. (imported_done i, imported.1))

import_dir-HasTree_example :
    ((c : Dir) × (imported.0 ≡ ok c))
    ↔ HasTree digest
        (memory digest)
        (memory-IsReliable digest)
        codec
        tmp_dir
        unpacked
        2
        (text "sha256:0d")
import_dir-HasTree_example =
    import_dir-HasTree digest (memory digest) (memory-IsReliable digest) codec tmp_dir unpacked 2
      (text "sha256:0d") no_blobs

abbrev readers : Readers
readers = record {
  gunzip = λ b. ok (record {
    items =
        record {
          name = text "httplock";
          flag = type_reg;
          size = 3;
          content = text "1.0";
          broken = none;
        }
        ∷ record {
          name = text "index.json";
          flag = type_reg;
          size = 9;
          content = text "sha256:0d";
          broken = none;
        }
        ∷ record {
          name = text "sha256:0d";
          flag = type_reg;
          size = 13;
          content = dir_bytes;
          broken = none;
        }
        ∷ record {
          name = text "sha256:05";
          flag = type_reg;
          size = 5;
          content = text "hello";
          broken = none;
        }
        ∷ [];
    broken = none;
  });
  unmarshal_version = λ b. ok b;
  unmarshal_index = λ b. ok ((b, 0) ∷ []);
}

abbrev archived : Status × MemStorage × Disk
archived = import_archive readers digest codec 2 (text "sha256:0d") 4 [] new_memory (disk [])
