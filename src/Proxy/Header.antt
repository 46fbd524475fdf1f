-- ===== src/Proxy/Header.antt =====
-- `http.Header` of net/http and what internal/proxy does with one.
pub mod Laws
pub mod Copies
use httplock.Base.{
  ℕ, ◌+◌, ◌-◌, Bool, true, false, not, ◌&&◌, ◌||◌, Option, none, some, List, [], ◌∷◌, ◌++◌, Str,
  text, ◌==◌, str_eq, leb, if◌then◌else◌,
}
use httplock.Base.Dict.{Dict, lookup, insert, erase}

abbrev pub Header : Type 0
Header = Dict (List Str)

abbrev between : ℕ → ℕ → ℕ → Bool
between a b c = leb a c && leb c b

abbrev pub contains : Str → List Str → Bool
contains s [] = false
contains s (t ∷ ts) = str_eq s t || contains s ts

abbrev is_one_of : ℕ → Str → Bool
is_one_of c [] = false
is_one_of c (b ∷ bs) = (c == b) || is_one_of c bs

-- The bytes of a header's name: letters, digits and some marks.
abbrev is_token : ℕ → Bool
is_token c =
    between 97 122 c
    || (between 65 90 c || (between 48 57 c || is_one_of c (text "!#$%&'*+-.^_`|~")))

abbrev all_tokens : Str → Bool
all_tokens [] = true
all_tokens (c ∷ s) = is_token c && all_tokens s

-- A letter that begins a word is a capital, any other is not.
abbrev cased : Bool → ℕ → ℕ
cased upper c =
    if upper
    then (if between 97 122 c then c - 32 else c)
    else (if between 65 90 c then c + 32 else c)

abbrev capitals : Bool → Str → Str
capitals upper [] = []
capitals upper (c ∷ s) = cased upper c ∷ capitals (c == 45) s

-- `textproto.CanonicalMIMEHeaderKey`; 45 is the dash.
unfoldable pub canonical : Str → Str
canonical s = if all_tokens s then capitals true s else s

abbrev pub values_or_none : Option (List Str) → List Str
values_or_none none = []
values_or_none (some vv) = vv

-- `h[k]`, `h.Add`, `h.Set`, `h.Del` and `h.Get`
abbrev pub values : Str → Header → List Str
values k h = values_or_none (lookup k h)

abbrev pub add : Str → Str → Header → Header
add k v h = insert (canonical k) (values (canonical k) h ++ (v ∷ [])) h

abbrev pub set : Str → Str → Header → Header
set k v h = insert (canonical k) (v ∷ []) h

abbrev pub del : Str → Header → Header
del k h = erase (canonical k) h

abbrev pub get : Str → Header → Str
get k h = elim (values (canonical k) h) [ [] ↦ [] | v ∷ vv ↦ v ]

-- `hopHeaders`
abbrev pub hop_headers : List Str
hop_headers =
    text "Connection"
    ∷ text "Keep-Alive"
    ∷ text "Proxy-Authenticate"
    ∷ text "Proxy-Authorization"
    ∷ text "Te"
    ∷ text "Trailers"
    ∷ text "Transfer-Encoding"
    ∷ text "Upgrade"
    ∷ []

abbrev pub del_all : List Str → Header → Header
del_all [] h = h
del_all (k ∷ ks) h = del_all ks (del k h)

-- `delHopHeaders`
unfoldable pub del_hop_headers : Header → Header
del_hop_headers h = del_all hop_headers h

abbrev pub add_all : Str → List Str → Header → Header
add_all k [] dst = dst
add_all k (v ∷ vv) dst = add_all k vv (add k v dst)

-- `copyHeader`
unfoldable pub copy_header : Header → Header → Header
copy_header dst [] = dst
copy_header dst ((k, vv) ∷ src) = copy_header (add_all k vv dst) src

-- `strings.Join vv ", "`
abbrev pub join : List Str → Str
join [] = []
join (v ∷ []) = v
join (v ∷ w ∷ vv) = v ++ (text ", " ++ join (w ∷ vv))

abbrev forwarded_for : Option (List Str) → Str → Str
forwarded_for none host = host
forwarded_for (some prior) host = join prior ++ (text ", " ++ host)

-- `appendHostToXForwardHeader`
unfoldable pub append_host_to_x_forward_header : Header → Str → Header
append_host_to_x_forward_header h host =
    set (text "X-Forwarded-For") (forwarded_for (lookup (text "X-Forwarded-For") h) host) h

abbrev pub exclude_headers : List Str
exclude_headers = text "X-Forwarded-For" ∷ []

-- `includeHeader`
unfoldable pub include_header : Str → Bool
include_header header = not (contains header exclude_headers)

-- The headers that count for the hash of a request.
unfoldable pub included : Header → Header
included [] = []
included ((k, vv) ∷ h) = let rest = included h in if include_header k then (k, vv) ∷ rest else rest
