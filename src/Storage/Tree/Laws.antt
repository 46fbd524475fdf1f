-- ===== src/Storage/Tree/Laws.antt =====
-- The laws of the map of a directory's entries.
use httplock.Base.{◌≡◌, ◌≢◌, refl, some, Str, str_eq, str_eq_iff, arith, if◌then◌else◌}
use package.httplock.Storage.Tree.{
  Dir, Entries, nil, cons, DirEntry, entries, find, put, put_in, directory,
}

pub find-put :
    (k j : Str) (e : DirEntry) (es : Entries)
    → find j (put k e es) ≡ (if str_eq k j then some e else find j es)
unfolding find put
find-put k j e nil = refl
find-put k j e (cons i f es) =
    ground (arith, str_eq_iff k j, str_eq_iff i k, str_eq_iff i j, find-put k j e es)

pub find-put_self : (k : Str) (e : DirEntry) (es : Entries) → find k (put k e es) ≡ some e
find-put_self k e es = ground (arith, find-put k k e es, str_eq_iff k k)

pub find-put_ne :
    (k j : Str) (e : DirEntry) (es : Entries) → k ≢ j → find j (put k e es) ≡ find j es
find-put_ne k j e es ne = ground (arith, find-put k j e es, str_eq_iff k j)

pub find-put_in :
    (k j : Str) (e : DirEntry) (d : Dir)
    → find j (entries (put_in k e d)) ≡ (if str_eq k j then some e else find j (entries d))
find-put_in k j e (directory h es) = find-put k j e es
