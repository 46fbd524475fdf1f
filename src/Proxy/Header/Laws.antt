-- ===== src/Proxy/Header/Laws.antt =====
-- What is left of a header, and what comes to it.
use httplock.Base.{
  ◌≡◌, refl, ◌∙◌, sym, ap, none, List, [], ◌∷◌, ◌++◌, Str, text, str_eq, str_eq_iff, str_eq_refl,
  if◌then◌else◌, map, arith, Bool-cases, inl, inr,
}
use httplock.Base.Dict.{lookup, insert, erase, lookup-insert, lookup-erase}
use package.httplock.Proxy.Header.{
  Header, canonical, contains, del_all, del_hop_headers, hop_headers, add, add_all, copy_header,
  values, values_or_none,
}

pub del_all-lookup :
    (j : Str) (ks : List Str) (h : Header)
    → lookup j (del_all ks h) ≡ (if contains j (map canonical ks) then none else lookup j h)
del_all-lookup j [] h = refl
del_all-lookup j (k ∷ ks) h = ground (
  arith,
  del_all-lookup j ks (erase (canonical k) h),
  lookup-erase (canonical k) j h,
  str_eq_iff j (canonical k),
  str_eq_iff (canonical k) j,
)

-- After delHopHeaders the headers Connection, Keep-Alive, Proxy-Authenticate, Proxy-Authorization,
-- Te, Trailers, Transfer-Encoding and Upgrade are gone, and every other one is as it was.
pub del_hop_headers-lookup :
    (j : Str) (h : Header)
    → let removed =
        text "Connection"
        ∷ text "Keep-Alive"
        ∷ text "Proxy-Authenticate"
        ∷ text "Proxy-Authorization"
        ∷ text "Te"
        ∷ text "Trailers"
        ∷ text "Transfer-Encoding"
        ∷ text "Upgrade"
        ∷ [] in
      lookup j (del_hop_headers h) ≡ (if contains j removed then none else lookup j h)
unfolding del_hop_headers canonical
del_hop_headers-lookup j h = del_all-lookup j hop_headers h

-- A header whose names are canonical and distinct, as the server of net/http builds it.
abbrev pub IsHeader : Header → Type 0
IsHeader [] = Unit
IsHeader ((k, vv) ∷ h) = (canonical k ≡ k) × (lookup k h ≡ none) × IsHeader h

pub append_assoc : (xs ys zs : List Str) → (xs ++ ys) ++ zs ≡ xs ++ (ys ++ zs)
append_assoc [] ys zs = refl
append_assoc (x ∷ xs) ys zs = ap (λ t. x ∷ t) (append_assoc xs ys zs)

pub append_nil : (xs : List Str) → xs ++ [] ≡ xs
append_nil [] = refl
append_nil (x ∷ xs) = ap (λ t. x ∷ t) (append_nil xs)

values-insert :
    (k j : Str) (vv : List Str) (h : Header)
    → values j (insert k vv h) ≡ (if str_eq k j then vv else values j h)
values-insert k j vv h = ground (arith, lookup-insert k j vv h)

add-values :
    (k j v : Str) (dst : Header)
    → canonical k ≡ k
    → values j (add k v dst) ≡ (if str_eq k j then values k dst ++ (v ∷ []) else values j dst)
add-values k j v dst e =
    ap (λ z. values j (insert z (values z dst ++ (v ∷ [])) dst)) e ∙ values-insert k j _ dst

add_all-values :
    (k j : Str) (vv : List Str) (dst : Header)
    → canonical k ≡ k
    → values j (add_all k vv dst) ≡ (if str_eq k j then values k dst ++ vv else values j dst)
add_all-values k j [] dst e = elim (Bool-cases (str_eq k j)) [
  | inl same ↦
      rw (same)
        (ap (λ z. values z dst) (sym ((str_eq_iff k j).0 same)) ∙ sym (append_nil (values k dst)))
  | inr other ↦ rw (other)
]
add_all-values k j (v ∷ vv) dst e = elim (Bool-cases (str_eq k j)) [
  | inl same ↦
      add_all-values k j vv (add k v dst) e
      ∙ rw (same) (
          ap (λ z. z ++ vv) (add-values k k v dst e ∙ rw (str_eq_refl))
          ∙ append_assoc (values k dst) (v ∷ []) vv)
  | inr other ↦
      add_all-values k j vv (add k v dst) e ∙ rw (other) (add-values k j v dst e ∙ rw (other))
]

-- CopyHeader puts the values of each name behind those that are there, for a header whose names are
-- canonical and distinct.
pub copy_header-values :
    (j : Str) (dst src : Header)
    → IsHeader src
    → values j (copy_header dst src) ≡ values j dst ++ values j src
unfolding copy_header lookup
copy_header-values j dst [] good = sym (append_nil (values j dst))
copy_header-values j dst ((k, vv) ∷ src) (canon, new, good) =
    copy_header-values j (add_all k vv dst) src good ∙ elim (Bool-cases (str_eq k j)) [
      | inl same ↦
          let at = (str_eq_iff k j).0 same in
          ap (λ z. z ++ values j src) (add_all-values k j vv dst canon)
          ∙ rw (same) (
              ap (λ z. (values k dst ++ vv) ++ values_or_none z)
                (ap (λ z. lookup z src) (sym at) ∙ new)
              ∙ append_nil (values k dst ++ vv)
              ∙ ap (λ z. values z dst ++ vv) at)
      | inr other ↦ ap (λ z. z ++ values j src) (add_all-values k j vv dst canon) ∙ rw (other)
    ]
