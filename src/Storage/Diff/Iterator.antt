-- ===== src/Storage/Diff/Iterator.antt =====
-- The iterator gives the files of the tree one after the other, and then the end.
use mathlib.Core.Path.{ap₂, subst}
use httplock.Base.{
  ℕ, zero, suc, ◌+◌, ◌<◌, ◌≡◌, refl, ◌∙◌, sym, ap, Option, none, some, List, [], ◌∷◌, ◌++◌, Str,
  map, ok, str_eq_iff, arith,
}
use httplock.Storage.Kind.{kind_dir, kind_file}
use httplock.Storage.Backend.{Backend, Codec, Info}
use httplock.Storage.Tree.{
  File, Dir, DirEntry, dir_entry, file_entry, DirRef, to_dir, entries, find, put_in,
}
use httplock.Storage.Tree.Laws.{find-put_in}
use httplock.Storage.Root.{Root, load_dir}
use package.httplock.Storage.Diff.{
  Frame, DiffIter, path_to, cur_path, new_frame, point_to, in_root, leave, Advance, moved, eof,
  next, Turn, stop, again, turn, visit, enter, keys,
}
use package.httplock.Storage.Diff.Merge.{Files}
use package.httplock.Storage.Diff.Files.{
  shown, shows, Walks, ended, a_file, a_dir, files, turns, under,
}

-- Where an entry points to is not shown.
shows-put :
    (k j h : Str) (c x : DirRef) (d : Dir)
    → find k (entries d) ≡ some (dir_entry h x)
    → shows (put_in k (dir_entry h c) d) j ≡ shows d j
shows-put k j h c x d found = ground (arith, find-put_in k j (dir_entry h c) d, str_eq_iff k j)

shows-point_at :
    (k j : Str) (c : DirRef) (d : Dir) (o : Option DirEntry)
    → find k (entries d) ≡ o
    → shows (point_to k c d) j ≡ shows d j
shows-point_at k j c d none found = rw (found, point_to)
shows-point_at k j c d (some (file_entry h x)) found = rw (found, point_to)
shows-point_at k j c d (some (dir_entry h x)) found =
    rw (found, point_to) (shows-put k j h c x d found)

shows-point_to : (k j : Str) (c : DirRef) (d : Dir) → shows (point_to k c d) j ≡ shows d j
shows-point_to k j c d = shows-point_at k j c d (find k (entries d)) refl

shown-dir :
    (o : Option DirEntry) (h : Str)
    → shown o ≡ some (record { hash = h; kind = kind_dir })
    → (x : DirRef) × (o ≡ some (dir_entry h x))
shown-dir none h found = absurd (ground arith)
shown-dir (some (dir_entry i x)) h found = (x, cc)
shown-dir (some (file_entry i x)) h found = absurd (ground arith)

shown-file :
    (o : Option DirEntry) (h : Str)
    → shown o ≡ some (record { hash = h; kind = kind_file })
    → (x : Option File) × (o ≡ some (file_entry h x))
shown-file none h found = absurd (ground arith)
shown-file (some (file_entry i x)) h found = (x, cc)
shown-file (some (dir_entry i x)) h found = absurd (ground arith)

module _ (B : Backend) (J : Codec) (s : B.State) where
  -- What the frames of an iterator still have before them.
  pub data Ahead : List Frame → Type 0 where
    nothing : Ahead []
    in_dir :
        (d : Dir) (ks : List Str) (name : Str) (look : Str → Option Info) {fs : List Frame}
        → ((k : Str) → shows d k ≡ look k)
        → Walks B J s look ks
        → Ahead fs
        → Ahead (record { dir = d; remaining = ks; name = name } ∷ fs)

  abbrev place : List Frame → List Str × Str → List Str × Str
  place fs (p, h) = (path_to fs p, h)

  unfoldable pub ahead : {fs : List Frame} → Ahead fs → Files
  ahead nothing = []
  ahead (in_dir d ks name look {fs} same w a) = map (place fs) (files B J s w) ++ ahead a

  unfoldable pub ahead_turns : {fs : List Frame} → Ahead fs → ℕ
  ahead_turns nothing = 0
  ahead_turns (in_dir d ks name look same w a) = suc (turns B J s w + ahead_turns a)

  -- An iterator that stands at the first of some files, with the others before it, or at the end.
  -- At most `n` turns are left.
  abbrev pub Holds : ℕ → Files → DiffIter → Type 0
  Holds n [] di = di.frames ≡ []
  Holds n ((p, h) ∷ xs) di =
      (cur_path di ≡ p)
      × (di.cur_file_hash ≡ h)
      × ((a : Ahead di.frames) × (ahead a ≡ xs) × (ahead_turns a < n))

  abbrev reply : Files → Advance
  reply [] = eof
  reply ((p, h) ∷ xs) = moved p

  abbrev pub Arrives : ℕ → Files → Advance × DiffIter → Type 0
  Arrives n xs (x, di) = (x ≡ reply xs) × Holds n xs di

  abbrev iter : Root → List Frame → Str → DiffIter
  iter r fs h = record { r = r; frames = fs; cur_file_hash = h }

  map-place-under :
      (k : Str) (f : Frame) (fs : List Frame) (xs : Files)
      → f.name ≡ k
      → map (place (f ∷ fs)) xs ≡ map (place fs) (map (under B J s k) xs)
  map-place-under k f fs [] same = refl
  map-place-under k f fs ((p, h) ∷ xs) same =
      ap₂ (λ x zs. x ∷ zs) (λ i. (path_to fs (same i ∷ p), h)) (map-place-under k f fs xs same)

  append_assoc : (xs ys zs : Files) → (xs ++ ys) ++ zs ≡ xs ++ (ys ++ zs)
  append_assoc [] ys zs = refl
  append_assoc (x ∷ xs) ys zs = ap (λ t. x ∷ t) (append_assoc xs ys zs)

  map-append :
      (fs : List Frame) (xs ys : Files)
      → map (place fs) (xs ++ ys) ≡ map (place fs) xs ++ map (place fs) ys
  map-append fs [] ys = refl
  map-append fs (x ∷ xs) ys = ap (λ t. place fs x ∷ t) (map-append fs xs ys)

  -- The files of a directory that is entered, and those after it.
  place-enter :
      (k : Str) (f : Frame) (fs : List Frame) (inside rest after : Files)
      → f.name ≡ k
      → map (place (f ∷ fs)) inside ++ (map (place fs) rest ++ after)
        ≡ map (place fs) (map (under B J s k) inside ++ rest) ++ after
  place-enter k f fs inside rest after same =
      ap (λ t. t ++ (map (place fs) rest ++ after)) (map-place-under k f fs inside same)
      ∙ sym (append_assoc (map (place fs) (map (under B J s k) inside)) (map (place fs) rest) after)
      ∙ ap (λ t. t ++ after) (sym (map-append fs (map (under B J s k) inside) rest))

  -- A frame whose directory is pointed elsewhere has the same before it.
  repoint :
      (k : Str) (c : DirRef) (d : Dir) (look : Str → Option Info)
      → ((j : Str) → shows d j ≡ look j)
      → (j : Str) → shows (point_to k c d) j ≡ look j
  repoint k c d look same j = shows-point_to k j c d ∙ same j

  enter-Arrives :
      (n : ℕ) (k : Str) (f : Frame) (fs : List Frame) (inside rest after : Files)
      → f.name ≡ k
      → (got : Advance × DiffIter)
      → Arrives n (map (place (f ∷ fs)) inside ++ (map (place fs) rest ++ after)) got
      → Arrives n (map (place fs) (map (under B J s k) inside ++ rest) ++ after) got
  enter-Arrives n k f fs inside rest after same got arrives =
      subst (λ xs. Arrives n xs got) (place-enter k f fs inside rest after same) arrives

  abbrev frame : Dir → List Str → Str → Frame
  frame d ks name = record { dir = d; remaining = ks; name = name }

  proceed : ℕ → Turn → Advance × DiffIter
  proceed m t = elim t [ stop a di ↦ (a, di) | again di ↦ next B J m s di ]

  next-file :
      (m : ℕ) (r : Root) (d : Dir) (k : Str) (ks : List Str) (name : Str) (fs : List Frame)
      (hash h : Str) {x : Option File}
      → find k (entries d) ≡ some (file_entry h x)
      → next B J (suc m) s (iter r (frame d (k ∷ ks) name ∷ fs) hash)
        ≡ (moved (path_to fs (k ∷ [])), iter r (frame d ks k ∷ fs) h)
  unfolding next turn visit proceed
  next-file m r d k ks name fs hash h found =
      ap
        (λ o.
          proceed m (visit B J s o (frame d ks k) fs (iter r (frame d (k ∷ ks) name ∷ fs) hash)))
        found

  next-dir :
      (m : ℕ) (r : Root) (d : Dir) (k : Str) (ks : List Str) (name : Str) (fs : List Frame)
      (hash h : Str) {x : DirRef} (c : Dir)
      → find k (entries d) ≡ some (dir_entry h x)
      → load_dir B J s h ≡ ok c
      → next B J (suc m) s (iter r (frame d (k ∷ ks) name ∷ fs) hash)
        ≡ next B J m s (iter r (new_frame c ∷ frame (point_to k (to_dir c) d) ks k ∷ fs) [])
  unfolding next turn visit enter proceed
  next-dir m r d k ks name fs hash h c found loaded =
      ap
        (λ o.
          proceed m (visit B J s o (frame d ks k) fs (iter r (frame d (k ∷ ks) name ∷ fs) hash)))
        found
      ∙ ap
          (λ l.
            proceed m (enter B J k l (frame d ks k) fs (iter r (frame d (k ∷ ks) name ∷ fs) hash)))
          loaded

  pub next-Arrives :
      (m n : ℕ) (r : Root) {fs : List Frame} (hash : Str) (a : Ahead fs)
      → ahead_turns a < m
      → ahead_turns a < suc n
      → Arrives n (ahead a) (next B J m s (iter r fs hash))
  unfolding next turn visit enter leave ahead ahead_turns files turns
  next-Arrives zero n r hash a enough bound = absurd (omega arith)
  next-Arrives (suc m) n r hash nothing enough bound = (refl, refl)
  next-Arrives (suc m) n r hash (in_dir d ks name look same ended nothing) enough bound =
      next-Arrives m n (in_root d r) [] nothing (omega arith) (omega arith)
  next-Arrives (suc m) n r hash
        (in_dir d ks name look same ended (in_dir d' ks' name' look' same' w a)) enough bound =
      next-Arrives m n r []
        (in_dir (point_to name' (to_dir d) d') ks' name' look'
          (repoint name' (to_dir d) d' look' same') w a)
        (omega arith) (omega arith)
  next-Arrives (suc m) n r hash (in_dir d ks name look {fs} same (a_file k {ks = ks'} h found w) a)
        enough bound =
      let (x, e) = shown-file (find k (entries d)) h (same k ∙ found) in
      subst (Arrives n ((path_to fs (k ∷ []), h) ∷ (map (place fs) (files B J s w) ++ ahead a)))
        (sym (next-file m r d k ks' name fs hash h e))
        (refl, (refl, refl, (in_dir d ks' k look same w a, refl, omega arith)))
  next-Arrives (suc m) n r hash
        (in_dir d ks name look {fs} same (a_dir k {ks = ks'} h c found loaded up inside w) a) enough
        bound =
      let (x, e) = shown-dir (find k (entries d)) h (same k ∙ found) in
      subst (Arrives n _) (sym (next-dir m r d k ks' name fs hash h c e loaded)) (
        enter-Arrives n k (frame (point_to k (to_dir c) d) ks' k) fs (files B J s inside)
          (files B J s w) (ahead a) refl _
          (next-Arrives m n r []
            (in_dir c (keys c) [] (shows c) (λ j. refl) inside
              (in_dir (point_to k (to_dir c) d) ks' k look (repoint k (to_dir c) d look same) w a))
            (omega arith) (omega arith)))
