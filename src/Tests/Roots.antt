-- ===== src/Tests/Roots.antt =====
-- A root that files are written to: runs, and the theorems of Storage/Root at them.
use httplock.Base.{
  ℕ, ◌≡◌, ◌≢◌, refl, some, none, inl, List, [], ◌∷◌, Str, str_eq, str_lt, ne_of_str_eq, text, ok,
  err, false,
}
use httplock.Base.Dict.{lookup, insert}
use httplock.Hasher
use httplock.Hasher.{Bytes, from_bytes, hex}
use httplock.Storage.Blob
use httplock.Storage.Blob.{new_blob_writer}
use httplock.Storage.Errors.{Res, not_a_file}
use httplock.Storage.Tree.{
  Dir, directory, Entries, nil, cons, DirEntry, file_entry, no_dir, to_dir, empty_dir, find, put,
  from_listing, listing, sort_listing, insert_sorted,
}
use httplock.Storage.Memory.Blobs.{
  MemBlobs, no_blobs, blob_write, blob_close, blob_open, blob_hash, blob_create,
}
use httplock.Storage.Memory.Reliable.{memory-IsReliable}
use httplock.Storage.Root.{
  Root, new_root, write, write_at, read, read_at, link, save, get_dir, load_root, load_dir, walk,
  entered, open_entry,
}
use httplock.Storage.Backend.{push}
use httplock.Storage.Root.Walking.{
  entry_hash, list_hashes, walk_root, walk_dir, walk_entries, walk_entry,
}
use httplock.Storage.Root.Walking.Entry.{entry_hash-link}
use httplock.Storage.Root.Hash.{hash_file, hash_dir, push_dir, file_entry_hashed, dir_entry_hashed}
use httplock.Storage.Root.Digest.{IsCoherent}
use httplock.Storage.Root.Order.{same_dir, swap}
use httplock.Storage.Root.Saving.{save-digest, save-SameDir, Named}
use httplock.Storage.Root.ReadWrite.{read-write, read-link}
use package.httplock.Tests.Sample.{digest, sha256, backend, codec}

abbrev host_dir : List Str
host_dir = text "a.com" ∷ text "http://a.com/x" ∷ []

abbrev pub path : List Str
path = text "a.com" ∷ text "http://a.com/x" ∷ text "1-resp-body" ∷ []

abbrev body : Bytes
body = text "hello"

abbrev pub write_rest : Bytes → MemBlobs → Res ℕ → MemBlobs
write_rest b s (ok w) = (blob_close digest (blob_write digest s w b).1 w).1
write_rest b s (err e) = s

-- A file is written and its writer closed.
unfoldable pub write_file : List Str → Bytes → MemBlobs → Root → MemBlobs × Root
unfolding write write_at get_dir load_root load_dir walk entered open_entry find put new_root
    new_blob_writer blob_create blob_write blob_close blob_open blob_hash Blob.write Blob.close
    Blob.hash Hasher.write from_bytes hex codec lookup insert str_eq str_lt read read_at link
    hash_file from_listing
write_file p b s r = let (w, r', s') = write backend codec p s r in (write_rest b s' w, r')

abbrev written : MemBlobs × Root
written = write_file path body no_blobs new_root

write_runs : (write backend codec path no_blobs new_root).0 ≡ ok 0
unfolding write_file
write_runs = refl

read_runs : (read backend codec path written.0 written.1).0 ≡ ok body
unfolding write_file
read_runs = refl

-- A directory on the way is no file.
read_directory :
    (read backend codec host_dir written.0 written.1).0 ≡ err (not_a_file (text "http://a.com/x"))
unfolding write_file
read_directory = refl

read-write_example : (read backend codec path written.0 written.1).0 ≡ ok body
unfolding write_file
read-write_example =
    read-write backend codec path no_blobs new_root (write backend codec path no_blobs new_root).1 0
      (write backend codec path no_blobs new_root).2 refl written.0 (digest body) body refl
      (λ e. cc e) refl

read-link_example :
    (read backend codec path written.0 (link backend codec path (text "h") no_blobs new_root).1).0
    ≡ blob_open written.0 (text "h")
unfolding write_file
read-link_example =
    read-link backend codec path (text "h") no_blobs new_root
      (link backend codec path (text "h") no_blobs new_root).1 tt
      (link backend codec path (text "h") no_blobs new_root).2 refl (λ e. cc e) written.0

entry_hash-link_example :
    (entry_hash backend codec path written.0
      (link backend codec path (text "h") no_blobs new_root).1).0
    ≡ ok (text "h")
unfolding write_file
entry_hash-link_example =
    entry_hash-link backend codec path (text "h") no_blobs new_root
      (link backend codec path (text "h") no_blobs new_root).1 tt
      (link backend codec path (text "h") no_blobs new_root).2 refl (λ e. cc e) written.0

-- A root lists the hashes of its directories and files.
list_runs : (list_hashes backend codec 9 written.0 written.1).0 ≢ ok []
unfolding write_file list_hashes walk_root walk_dir walk_entries walk_entry hash_dir push_dir push
    file_entry_hashed dir_entry_hashed listing sort_listing insert_sorted
list_runs e = cc e

abbrev tree : Dir
tree = elim written.1.dir [ to_dir d ↦ d | no_dir ↦ empty_dir ]

written-IsCoherent : IsCoherent digest backend codec written.0 tree
unfolding write_file IsCoherent
written-IsCoherent = (
  refl,
  (inl refl, (refl, (inl refl, (refl, ((digest body, refl, λ e. cc e), inl refl), tt)), tt)),
  tt,
)

save-digest_example :
    Named sha256 backend codec written.0 tree (save backend codec written.0 written.1)
unfolding write_file
save-digest_example =
    save-digest sha256 backend codec (memory-IsReliable digest) written.0 written.1 tree refl refl
      written-IsCoherent

abbrev linked : Str → DirEntry
linked blob = file_entry [] (some (record { hash = blob; blob_w = none }))

-- Two files in either order.
abbrev one_way : Entries
one_way = cons (text "b") (linked (text "h1")) (cons (text "a") (linked (text "h2")) nil)

abbrev other_way : Entries
other_way = cons (text "a") (linked (text "h2")) (cons (text "b") (linked (text "h1")) nil)

abbrev root_of : Entries → Root
root_of es = record { hash = []; dir = to_dir (directory [] es); readonly = false }

save-SameDir_example :
    (save backend codec no_blobs (root_of one_way)).0
    ≡ (save backend codec no_blobs (root_of other_way)).0
unfolding IsCoherent find str_eq
save-SameDir_example =
    save-SameDir sha256 backend codec (memory-IsReliable digest) no_blobs (root_of one_way)
      (root_of other_way) (directory [] one_way) (directory [] other_way)
      (
        refl,
        refl,
        (
          refl,
          ((text "h1", refl, λ e. cc e), inl refl),
          (refl, ((text "h2", refl, λ e. cc e), inl refl), tt),
        ),
      )
      (
        refl,
        refl,
        (
          refl,
          ((text "h2", refl, λ e. cc e), inl refl),
          (refl, ((text "h1", refl, λ e. cc e), inl refl), tt),
        ),
      )
      (same_dir (swap (ne_of_str_eq (text "b") (text "a") refl)))

-- A file that is overwritten after a save: the root reads the new contents, but its next save gives
-- the hash of the old ones, since the entry of the file has kept its hash.
abbrev short : List Str
short = text "f" ∷ []

first : MemBlobs × Root
unfolding write_file
first = write_file short (text "hello") no_blobs new_root

saved : Res Str × Root × MemBlobs
unfolding first save hash_dir push_dir push file_entry_hashed listing sort_listing insert_sorted
saved = save backend codec first.0 first.1

second : MemBlobs × Root
unfolding saved
second = write_file short (text "hi") saved.2 saved.1

overwritten_runs :
    ((read backend codec short second.0 second.1).0 ≡ ok (text "hi"))
    × ((save backend codec second.0 second.1).0 ≡ saved.0)
unfolding second
overwritten_runs = (refl, refl)
