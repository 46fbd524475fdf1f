-- ===== src/Storage/Memory/Index.antt =====
-- The names of the roots and the index of the saved ones, after any sequence of calls.
use mathlib.Core.Path.{subst}
use native.Mathlib.Decide.{ℕ_discrete}
use httplock.Base.{
  ℕ, ◌≡◌, ◌≢◌, refl, ◌∙◌, sym, true, Option, none, some, List, [], ◌∷◌, ◌++◌, Str, length, str_eq,
  str_eq_iff, get_elem?, set, get_elem?-append_old, get_elem?-append_new, get_elem?-set_self,
  get_elem?-set_ne, get_elem?-length, Option-cases, Bool-cases, inl, inr, ok, err, arith,
}
use httplock.Base.Dict.{lookup, insert, lookup-insert}
use httplock.Storage.Errors.{Res, panic}
use httplock.Storage.Root.{Root, new_root_hash}
use httplock.Storage.Root.Frozen.{IsKept}
use package.httplock.Storage.Memory.{
  MemStorage, register, uuid_name, root_create_from, root_open, on_root, record_saved,
}
use package.httplock.Storage.Memory.Opening.{root_open-named, root_open-listed, root_open-unknown}
use package.httplock.Storage.Memory.Blobs.{MemBlobs}

-- What a root has to do with the name it is found under: a read-only one has that name for its
-- hash, and the index lists it.
abbrev pub Fits : MemStorage → Str → Root → Type 0
Fits m name r = r.readonly ≡ true → (r.hash ≡ name) × (lookup name m.index ≢ none)

-- Every name leads to a root that fits it.
pub record IsSound (m : MemStorage) : Type 0 where
  pub leads :
      (name : Str) (p : ℕ)
      → lookup name m.roots ≡ some p
      → (r : Root) × (get_elem? m.objects p ≡ some r) × Fits m name r

pub register-IsSound :
    (m : MemStorage) (name : Str) (r : Root)
    → IsSound m
    → Fits m name r
    → IsSound (register name r m)
register-IsSound m name r sound fits = record {
  leads = λ j p found. elim (Bool-cases (str_eq name j)) [
    | inl here ↦
        let e : p ≡ length m.objects =
          ground (arith, lookup-insert name j (length m.objects) m.roots) in
        (
          r,
          rw e (get_elem?-append_new m.objects r),
          subst (λ n. Fits m n r) ((str_eq_iff name j).0 here) fits,
        )
    | inr elsewhere ↦
        let old : lookup j m.roots ≡ some p =
          ground (arith, lookup-insert name j (length m.objects) m.roots) in
        let (x, there, fit) = sound.leads j p old in
        (x, get_elem?-append_old m.objects (r ∷ []) p there, fit)
  ];
}

lookup-insert-ne-none :
    (hash j : Str) (now : ℕ) (m : MemStorage)
    → lookup j m.index ≢ none
    → lookup j (insert hash now m.index) ≢ none
lookup-insert-ne-none hash j now m listed gone =
    ground (arith, lookup-insert hash j now m.index, listed)

index-IsSound :
    (m : MemStorage) (hash : Str) (now : ℕ)
    → IsSound m
    → IsSound (record m { index = insert hash now m.index })
index-IsSound m hash now sound = record {
  leads = λ j p found.
      let (r, there, fits) = sound.leads j p found in
      (r, there, λ frozen. ((fits frozen).0, lookup-insert-ne-none hash j now m (fits frozen).1));
}

pub on_root-gone :
    {A : Type 0} (f : MemBlobs → Root → Res A × Root × MemBlobs) (p : ℕ) (m : MemStorage)
    → get_elem? m.objects p ≡ none
    → on_root f p m ≡ (err panic, m)
unfolding on_root
on_root-gone f p m gone = rw (gone, on_root)

pub on_root-there :
    {A : Type 0} (f : MemBlobs → Root → Res A × Root × MemBlobs) (p : ℕ) (m : MemStorage) (r : Root)
    → get_elem? m.objects p ≡ some r
    → on_root f p m ≡ (
      (f m.blobs r).0,
      record m { objects = set m.objects p (f m.blobs r).1; blobs = (f m.blobs r).2 },
    )
unfolding on_root
on_root-there f p m r there = rw (there, on_root)

Fits-kept :
    (m : MemStorage) (name : Str) (r r' : Root) → IsKept r r' → Fits m name r → Fits m name r'
Fits-kept m name r r' k fits frozen =
    let was = sym k.readonly_kept ∙ frozen in (k.hash_kept was ∙ (fits was).0, (fits was).1)

pub some_eq {ℓ} : {A : Type ℓ} (o : Option A) (x y : A) → o ≡ some x → o ≡ some y → x ≡ y
some_eq o x y p q = cc

-- Each root is still there, as read-only as before, and with its hash if it is.
abbrev pub AllKept : List Root → List Root → Type 0
AllKept os os' =
    (i : ℕ) (r : Root)
    → get_elem? os i ≡ some r
    → (r' : Root) × (get_elem? os' i ≡ some r') × IsKept r r'

pub AllKept-refl : (os : List Root) → AllKept os os
AllKept-refl os i r at = (r, at, record { readonly_kept = refl; hash_kept = λ frozen. refl })

pub AllKept-append : (os more : List Root) → AllKept os (os ++ more)
AllKept-append os more i r at = (
  r,
  get_elem?-append_old os more i at,
  record { readonly_kept = refl; hash_kept = λ frozen. refl },
)

pub AllKept-set :
    (os : List Root) (p : ℕ) (r r' : Root)
    → get_elem? os p ≡ some r
    → IsKept r r'
    → AllKept os (set os p r')
AllKept-set os p r r' there kept i x at = elim (ℕ_discrete p i) [
  | yes same ↦
      let again = subst (λ n. get_elem? os n ≡ some r) same there in
      (
        r',
        subst (λ n. get_elem? (set os p r') n ≡ some r') same
            (get_elem?-set_self os p _ (get_elem?-length os p there)),
        subst (λ y. IsKept y r') (some_eq (get_elem? os i) r x again at) kept,
      )
  | no ne ↦ (
    x,
    get_elem?-set_ne os p i r' ne ∙ at,
    record { readonly_kept = refl; hash_kept = λ frozen. refl },
  )
]

pub objects-IsSound :
    (m : MemStorage) (os : List Root) (s : MemBlobs)
    → AllKept m.objects os
    → IsSound m
    → IsSound (record m { objects = os; blobs = s })
objects-IsSound m os s kept sound = record {
  leads = λ j q found.
      let (x, at, fits) = sound.leads j q found in
      let (x', there, k) = kept q x at in (x', there, Fits-kept m j x x' k fits);
}

pub on_root-IsSound :
    {A : Type 0} (f : MemBlobs → Root → Res A × Root × MemBlobs) (p : ℕ) (m : MemStorage)
    → ((s : MemBlobs) (r : Root) → IsKept r (f s r).1)
    → IsSound m
    → IsSound (on_root f p m).1
on_root-IsSound f p m keeps sound = elim (Option-cases (get_elem? m.objects p)) [
  | inl gone ↦ rw (on_root-gone f p m gone) sound
  | inr (r, there) ↦ rw (on_root-there f p m r there) (
      objects-IsSound m _ (f m.blobs r).2
        (AllKept-set m.objects p r (f m.blobs r).1 there (keeps m.blobs r)) sound)
]

pub root_create_from-IsSound :
    (m : MemStorage) (hash u : Str) → IsSound m → IsSound (root_create_from hash u m).1
unfolding root_create_from
root_create_from-IsSound m hash u sound = elim (Option-cases (lookup hash m.index)) [
  | inl gone ↦ rw (gone, root_create_from) sound
  | inr (used, listed) ↦
      rw (listed, root_create_from) (register-IsSound m (uuid_name u) _ sound (λ frozen. cc frozen))
]

new_root_hash-Fits :
    (m : MemStorage) (hash : Str) (now : ℕ)
    → Fits (record m { index = insert hash now m.index }) hash (new_root_hash hash)
unfolding new_root_hash
new_root_hash-Fits m hash now frozen =
    (refl, λ gone. ground (arith, lookup-insert hash hash now m.index, str_eq_iff hash hash))

pub root_open-IsSound :
    (m : MemStorage) (name : Str) (now : ℕ) → IsSound m → IsSound (root_open name now m).1
root_open-IsSound m name now sound = elim (Option-cases (lookup name m.roots)) [
  | inr (p, named) ↦ rw (root_open-named name now m p named) sound
  | inl unnamed ↦ elim (Option-cases (lookup name m.index)) [
    | inl unknown ↦ rw (root_open-unknown name now m unnamed unknown) sound
    | inr (used, listed) ↦
        rw (root_open-listed name now m used unnamed listed) (
          register-IsSound _ name _ (index-IsSound m name now sound)
            (new_root_hash-Fits m name now))
  ]
]

pub record_saved-IsSound :
    (now : ℕ) (hash : Res Str) (m : MemStorage) → IsSound m → IsSound (record_saved now (hash, m)).1
unfolding record_saved
record_saved-IsSound now (err e) m sound = sound
record_saved-IsSound now (ok hash) m sound =
    register-IsSound _ hash _ (index-IsSound m hash now sound) (new_root_hash-Fits m hash now)
