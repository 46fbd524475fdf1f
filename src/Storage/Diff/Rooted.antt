-- ===== src/Storage/Diff/Rooted.antt =====
-- A step of an iterator leaves the root under it as it was, but for its directory.
use httplock.Base.{ℕ, zero, suc, ◌≡◌, refl, ◌∙◌, Option, none, some, List, [], ◌∷◌, Str, ok, err}
use httplock.Storage.Errors.{Res}
use httplock.Storage.Backend.{Backend, Codec}
use httplock.Storage.Tree.{Dir, DirEntry, dir_entry, file_entry}
use httplock.Storage.Root.{Root}
use httplock.Storage.Root.Frozen.{IsKept}
use package.httplock.Storage.Diff.{
  DiffIter, Frame, Advance, Turn, stop, again, leave, enter, visit, turn, next,
}

-- The root under an iterator, but for its directory.
abbrev pub Same : Root → Root → Type 0
Same r r' = (r'.readonly ≡ r.readonly) × (r'.hash ≡ r.hash)

pub Same-trans : (r r' r'' : Root) → Same r r' → Same r' r'' → Same r r''
Same-trans r r' r'' (a, b) (c, e) = (c ∙ a, e ∙ b)

pub Same-IsKept : (r r' : Root) → Same r r' → IsKept r r'
Same-IsKept r r' (a, b) = record { readonly_kept = a; hash_kept = λ frozen. b }

abbrev iter_of : Turn → DiffIter
iter_of (stop a di) = di
iter_of (again di) = di

leave-Same : (d : Dir) (fs : List Frame) (di : DiffIter) → Same di.r (leave d fs di).r
unfolding leave
leave-Same d [] di = (refl, refl)
leave-Same d (f ∷ fs) di = (refl, refl)

module _ (B : Backend) (J : Codec) where
  enter-Same :
      (name : Str) (x : Res Dir) (f : Frame) (fs : List Frame) (di : DiffIter)
      → Same di.r (iter_of (enter B J name x f fs di)).r
  unfolding enter
  enter-Same name (err e) f fs di = (refl, refl)
  enter-Same name (ok c) f fs di = (refl, refl)

  visit-Same :
      (s : B.State) (e : Option DirEntry) (f : Frame) (fs : List Frame) (di : DiffIter)
      → Same di.r (iter_of (visit B J s e f fs di)).r
  unfolding visit
  visit-Same s none f fs di = (refl, refl)
  visit-Same s (some (file_entry h x)) f fs di = (refl, refl)
  visit-Same s (some (dir_entry h x)) f fs di = enter-Same f.name _ f fs di

  leaf-Same :
      (s : B.State) (r : Root) (h name : Str) (d : Dir) (remaining : List Str) (fs : List Frame)
      → Same r
          (iter_of (
            turn B J s (record {
              r = r;
              frames = record { dir = d; remaining = remaining; name = name } ∷ fs;
              cur_file_hash = h;
            }))).r
  unfolding turn
  leaf-Same s r h name d [] fs = leave-Same d fs _
  leaf-Same s r h name d (k ∷ ks) fs = visit-Same s _ _ fs _

  frames-Same :
      (s : B.State) (r : Root) (h : Str) (frames : List Frame)
      → Same r (iter_of (turn B J s (record { r = r; frames = frames; cur_file_hash = h }))).r
  unfolding turn
  frames-Same s r h [] = (refl, refl)
  frames-Same s r h (f ∷ fs) = leaf-Same s r h f.name f.dir f.remaining fs

  turn-Same : (s : B.State) (di : DiffIter) → Same di.r (iter_of (turn B J s di)).r
  turn-Same s di = frames-Same s di.r di.cur_file_hash di.frames

  abbrev went : ℕ → B.State → Turn → Advance × DiffIter
  went n s t = elim t [ stop a di ↦ (a, di) | again di ↦ next B J n s di ]

  went-Same :
      (n : ℕ) (s : B.State) (r : Root) (t : Turn)
      → ((di : DiffIter) → Same di.r (next B J n s di).1.r)
      → Same r (iter_of t).r
      → Same r (went n s t).1.r
  went-Same n s r (stop a di) after here = here
  went-Same n s r (again di) after here = Same-trans r di.r (next B J n s di).1.r here (after di)

  pub next-Same : (n : ℕ) (s : B.State) (di : DiffIter) → Same di.r (next B J n s di).1.r
  unfolding next
  next-Same zero s di = (refl, refl)
  next-Same (suc n) s di =
      went-Same n s di.r (turn B J s di) (λ x. next-Same n s x) (turn-Same s di)
