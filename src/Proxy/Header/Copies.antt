-- ===== src/Proxy/Header/Copies.antt =====
-- A header that is copied into an empty one.
use httplock.Base.{
  Bool-cases, inl, inr, ◌≡◌, ◌≢◌, refl, ◌∙◌, sym, ap, none, true, List, [], ◌∷◌, ◌++◌, Str, str_eq,
  str_eq_iff, str_eq_refl, map, arith,
}
use httplock.Base.Dict.{lookup, insert, erase, lookup-erase}
use httplock.Base.Absent.{insert-absent, insert-last, lookup-last, erase-absent}
use package.httplock.Proxy.Header.{
  Header, canonical, contains, del_all, del_hop_headers, hop_headers, add, add_all, copy_header,
  values, values_or_none,
}
use package.httplock.Proxy.Header.Laws.{IsHeader, del_all-lookup, append_nil, append_assoc}

-- Each name has a value.
abbrev pub IsFull : Header → Type 0
IsFull [] = Unit
IsFull ((k, vv) ∷ h) = (vv ≢ []) × IsFull h

-- None of the names of the second header is in the first.
abbrev AreNew : Header → Header → Type 0
AreNew dst [] = Unit
AreNew dst ((k, vv) ∷ src) = (lookup k dst ≡ none) × AreNew dst src

AreNew-empty : (src : Header) → AreNew [] src
unfolding lookup
AreNew-empty [] = tt
AreNew-empty ((k, vv) ∷ src) = (refl, AreNew-empty src)

AreNew-last :
    (k : Str) (vv : List Str) (dst src : Header)
    → lookup k src ≡ none
    → AreNew dst src
    → AreNew (dst ++ ((k, vv) ∷ [])) src
unfolding lookup
AreNew-last k vv dst [] new news = tt
AreNew-last k vv dst ((j, ww) ∷ src) new (absent, news) = (
  ground (arith, lookup-last k j vv dst absent, str_eq_iff j k, str_eq_iff k j),
  AreNew-last k vv dst src (ground arith) news,
)

add-last :
    (k v : Str) (us : List Str) (dst : Header)
    → canonical k ≡ k
    → lookup k dst ≡ none
    → add k v (dst ++ ((k, us) ∷ [])) ≡ dst ++ ((k, us ++ (v ∷ [])) ∷ [])
add-last k v us dst canon new =
    let D = dst ++ ((k, us) ∷ []) in
    let there : values k D ≡ us = rw (lookup-last k k us dst new, str_eq_refl) refl in
    ap (λ z. insert z (values z D ++ (v ∷ [])) D) canon
    ∙ ap (λ z. insert k (z ++ (v ∷ [])) D) there
    ∙ insert-last k (us ++ (v ∷ [])) us dst new

add-absent :
    (k v : Str) (dst : Header)
    → canonical k ≡ k
    → lookup k dst ≡ none
    → add k v dst ≡ dst ++ ((k, v ∷ []) ∷ [])
add-absent k v dst canon new =
    ap (λ z. insert z (values z dst ++ (v ∷ [])) dst) canon
    ∙ ap (λ z. insert k (values_or_none z ++ (v ∷ [])) dst) new
    ∙ insert-absent k (v ∷ []) dst new

add_all-last :
    (k : Str) (us vv : List Str) (dst : Header)
    → canonical k ≡ k
    → lookup k dst ≡ none
    → add_all k vv (dst ++ ((k, us) ∷ [])) ≡ dst ++ ((k, us ++ vv) ∷ [])
add_all-last k us [] dst canon new = ap (λ z. dst ++ ((k, z) ∷ [])) (sym (append_nil us))
add_all-last k us (v ∷ vv) dst canon new =
    ap (add_all k vv) (add-last k v us dst canon new)
    ∙ add_all-last k (us ++ (v ∷ [])) vv dst canon new
    ∙ ap (λ z. dst ++ ((k, z) ∷ [])) (append_assoc us (v ∷ []) vv)

add_all-absent :
    (k : Str) (vv : List Str) (dst : Header)
    → canonical k ≡ k
    → lookup k dst ≡ none
    → vv ≢ []
    → add_all k vv dst ≡ dst ++ ((k, vv) ∷ [])
add_all-absent k [] dst canon new filled = absurd (filled refl)
add_all-absent k (v ∷ vv) dst canon new filled =
    ap (add_all k vv) (add-absent k v dst canon new) ∙ add_all-last k (v ∷ []) vv dst canon new

header-snoc :
    (xs : Header) (x : Str × List Str) (ys : Header) → (xs ++ (x ∷ [])) ++ ys ≡ xs ++ (x ∷ ys)
header-snoc [] x ys = refl
header-snoc (y ∷ xs) x ys = ap (λ t. y ∷ t) (header-snoc xs x ys)

header-nil : (xs : Header) → xs ++ [] ≡ xs
header-nil [] = refl
header-nil (y ∷ xs) = ap (λ t. y ∷ t) (header-nil xs)

copy_header-append :
    (dst src : Header)
    → IsHeader src
    → IsFull src
    → AreNew dst src
    → copy_header dst src ≡ dst ++ src
unfolding copy_header
copy_header-append dst [] good full news = sym (header-nil dst)
copy_header-append dst ((k, vv) ∷ src) (canon, once, good) (filled, full) (new, news) =
    ap (λ z. copy_header z src) (add_all-absent k vv dst canon new filled)
    ∙ copy_header-append (dst ++ ((k, vv) ∷ [])) src good full (AreNew-last k vv dst src once news)
    ∙ header-snoc dst (k, vv) src

-- A header whose names are canonical and distinct, each with a value, is copied as it is.
pub copy_header-same : (h : Header) → IsHeader h → IsFull h → copy_header [] h ≡ h
copy_header-same h good full = copy_header-append [] h good full (AreNew-empty h)

erase-IsHeader : (k : Str) (h : Header) → IsHeader h → IsHeader (erase k h)
unfolding erase
erase-IsHeader k [] good = tt
erase-IsHeader k ((j, vv) ∷ h) (canon, once, good) = elim (Bool-cases (str_eq j k)) [
  | inl same ↦ rw (same) (erase-IsHeader k h good)
  | inr other ↦
      rw (other) (canon, ground (arith, lookup-erase k j h, once), erase-IsHeader k h good)
]

erase-IsFull : (k : Str) (h : Header) → IsFull h → IsFull (erase k h)
unfolding erase
erase-IsFull k [] full = tt
erase-IsFull k ((j, vv) ∷ h) (filled, full) = elim (Bool-cases (str_eq j k)) [
  | inl same ↦ rw (same) (erase-IsFull k h full)
  | inr other ↦ rw (other) (filled, erase-IsFull k h full)
]

del_all-good :
    (ks : List Str) (h : Header)
    → IsHeader h
    → IsFull h
    → IsHeader (del_all ks h) × IsFull (del_all ks h)
del_all-good [] h good full = (good, full)
del_all-good (k ∷ ks) h good full =
    del_all-good ks (erase (canonical k) h) (erase-IsHeader (canonical k) h good)
      (erase-IsFull (canonical k) h full)

pub del_hop_headers-good :
    (h : Header) → IsHeader h → IsFull h → IsHeader (del_hop_headers h) × IsFull (del_hop_headers h)
unfolding del_hop_headers
del_hop_headers-good h good full = del_all-good hop_headers h good full

-- The names of the first list are among those of the second.
abbrev AreIn : List Str → List Str → Type 0
AreIn [] js = Unit
AreIn (k ∷ ks) js = (contains (canonical k) (map canonical js) ≡ true) × AreIn ks js

del_all-twice :
    (ks js : List Str) (h : Header) → AreIn ks js → del_all ks (del_all js h) ≡ del_all js h
del_all-twice [] js h among = refl
del_all-twice (k ∷ ks) js h (first, among) =
    ap (del_all ks) (
      erase-absent (canonical k) (del_all js h)
        (del_all-lookup (canonical k) js h ∙ rw (first) refl))
    ∙ del_all-twice ks js h among

pub del_hop_headers-twice : (h : Header) → del_hop_headers (del_hop_headers h) ≡ del_hop_headers h
unfolding del_hop_headers canonical str_eq
del_hop_headers-twice h =
    del_all-twice hop_headers hop_headers h
      (refl, (refl, (refl, (refl, (refl, (refl, (refl, (refl, tt))))))))
