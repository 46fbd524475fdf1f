-- ===== src/Storage/Root/Order.antt =====
-- The order in which Go visits the entries of a map does not reach the hash of a directory.
use mathlib.Core.Path.{ap₂}
use httplock.Base.{
  ◌≡◌, ◌≢◌, refl, ◌∙◌, sym, ap, inl, inr, [], ◌∷◌, Str, str_lt, str_lt_total, str_lt_trans,
  str_lt_irrefl, Bool-cases, true, false,
}
use httplock.Hasher.{Bytes}
use httplock.Storage.Backend.{Backend, Codec, Info, Listing}
use httplock.Storage.Tree.{
  Dir, directory, Entries, nil, cons, DirEntry, dir_entry, to_dir, entry_kind, insert_sorted,
  sort_listing,
}
use package.httplock.Storage.Root.Digest.{dir_digest, infos, entry_digest}

-- The same directory with its entries, and those of the directories in it, in another order, and
-- with other hashes cached for the directories.
mutual
  pub data SameDir : Dir → Dir → Type 0 where
    same_dir :
        {h h' : Str} {es fs : Entries}
        → SameEntries es fs
        → SameDir (directory h es) (directory h' fs)

  pub data SameEntries : Entries → Entries → Type 0 where
    same_nil : SameEntries nil nil
    keep :
        {k : Str} {e f : DirEntry} {es fs : Entries}
        → SameEntry e f
        → SameEntries es fs
        → SameEntries (cons k e es) (cons k f fs)
    swap :
        {k j : Str} {e f : DirEntry} {es : Entries}
        → k ≢ j
        → SameEntries (cons k e (cons j f es)) (cons j f (cons k e es))
    trans : {es fs gs : Entries} → SameEntries es fs → SameEntries fs gs → SameEntries es gs

  pub data SameEntry : DirEntry → DirEntry → Type 0 where
    same_entry : {e : DirEntry} → SameEntry e e
    same_sub :
        {h h' : Str} {d d' : Dir}
        → SameDir d d'
        → SameEntry (dir_entry h (to_dir d)) (dir_entry h' (to_dir d'))

str_lt_asymm : (k j : Str) → str_lt k j ≡ true → str_lt j k ≡ false
str_lt_asymm k j lt = elim (Bool-cases (str_lt j k)) [
  | inl gt ↦ cc (str_lt_trans k j k lt gt, str_lt_irrefl k)
  | inr ge ↦ ge
]

insert_sorted_comm_lt :
    (k j : Str) (x y : Info) (l : Listing)
    → str_lt k j ≡ true
    → insert_sorted k x (insert_sorted j y l) ≡ insert_sorted j y (insert_sorted k x l)
unfolding insert_sorted
insert_sorted_comm_lt k j x y [] lt = simp (lt, str_lt_asymm k j lt)
insert_sorted_comm_lt k j x y ((i, z) ∷ l) lt = elim (Bool-cases (str_lt j i)) [
  | inl ji ↦ simp (ji, str_lt_trans k j i lt ji, lt, str_lt_asymm k j lt)
  | inr ij ↦ elim (Bool-cases (str_lt k i)) [
    | inl ki ↦ simp (ij, ki, str_lt_asymm k j lt)
    | inr ik ↦ simp (ij, ik, insert_sorted_comm_lt k j x y l lt)
  ]
]

-- Two insertions under different names commute.
insert_sorted_comm :
    (k j : Str) (x y : Info) (l : Listing)
    → k ≢ j
    → insert_sorted k x (insert_sorted j y l) ≡ insert_sorted j y (insert_sorted k x l)
insert_sorted_comm k j x y l ne = elim (str_lt_total k j) [
  | inl lt ↦ insert_sorted_comm_lt k j x y l lt
  | inr (inl gt) ↦ sym (insert_sorted_comm_lt j k y x l gt)
  | inr (inr eq) ↦ absurd (ne eq)
]

module _ (digest : Bytes → Str) (B : Backend) (J : Codec) (s : B.State) where
  mutual
    unfolding dir_digest sort_listing

    pub dir_digest-SameDir :
        {d d' : Dir} → SameDir d d' → dir_digest digest B J s d ≡ dir_digest digest B J s d'
    dir_digest-SameDir (same_dir p) = ap (λ l. digest (J.marshal l)) (sort_infos-SameEntries p)

    sort_infos-SameEntries :
        {es fs : Entries}
        → SameEntries es fs
        → sort_listing (infos digest B J s es) ≡ sort_listing (infos digest B J s fs)
    sort_infos-SameEntries same_nil = refl
    sort_infos-SameEntries (keep {k} e p) =
        ap₂ (insert_sorted k) (entry_info-SameEntry e) (sort_infos-SameEntries p)
    sort_infos-SameEntries (swap {k} {j} {e} {f} {es} ne) =
        insert_sorted_comm k j _ _ (sort_listing (infos digest B J s es)) ne
    sort_infos-SameEntries (trans p q) = sort_infos-SameEntries p ∙ sort_infos-SameEntries q

    entry_info-SameEntry :
        {e f : DirEntry}
        → SameEntry e f
        → ◌≡◌ {A = Info}
            (record { hash = entry_digest digest B J s e; kind = entry_kind e })
            (record { hash = entry_digest digest B J s f; kind = entry_kind f })
    entry_info-SameEntry same_entry = refl
    entry_info-SameEntry (same_sub p) = rw (dir_digest-SameDir p)
