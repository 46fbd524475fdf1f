-- ===== src/Proxy/Filter/Headers.antt =====
-- Which headers the filters take out of a request.
use httplock.Base.{
  ◌≡◌, refl, ◌∙◌, ap, Bool, false, ◌||◌, Option, none, List, [], ◌∷◌, Str, str_eq, if◌then◌else◌,
  arith, Bool-cases, inl, inr,
}
use httplock.Base.Dict.{Dict, lookup, lookup-erase}
use httplock.Proxy.Header.{canonical}
use httplock.Proxy.Request.{Request, Formats}
use httplock.Config.{CfAction, action_strip, action_ignore, action_other, Filter}
use package.httplock.Proxy.Filter.{
  Filtered, filter_header, filter_query, filter_all, filter_req, applies,
}

-- Whether a filter names a header to be stripped or ignored, and whether it strips it.
abbrev named : Str → Dict CfAction → Bool
named j [] = false
named j ((name, action_strip) ∷ more) = str_eq (canonical name) j || named j more
named j ((name, action_ignore) ∷ more) = str_eq (canonical name) j || named j more
named j ((name, action_other n) ∷ more) = named j more

abbrev stripped : Str → Dict CfAction → Bool
stripped j [] = false
stripped j ((name, action_strip) ∷ more) = str_eq (canonical name) j || stripped j more
stripped j ((name, action_ignore) ∷ more) = stripped j more
stripped j ((name, action_other n) ∷ more) = stripped j more

-- Whether a filter that applies to the request does.
pub any_names : Str → List Filter → Request → Bool
any_names j [] req = false
any_names j (f ∷ fs) req =
    (if applies f req then named j f.req_header else false) || any_names j fs req

pub any_strips : Str → List Filter → Request → Bool
any_strips j [] req = false
any_strips j (f ∷ fs) req =
    (if applies f req then stripped j f.req_header else false) || any_strips j fs req

abbrev unless : Bool → Option (List Str) → Option (List Str)
unless b o = if b then none else o

filter_header-ignore :
    (j : Str) (m : Dict CfAction) (t : Filtered)
    → lookup j (filter_header m t).header_ignore ≡ unless (named j m) (lookup j t.header_ignore)
unfolding filter_header
filter_header-ignore j [] t = refl
filter_header-ignore j ((name, action_strip) ∷ m) t =
    filter_header-ignore j m _ ∙ ground (arith, lookup-erase (canonical name) j t.header_ignore)
filter_header-ignore j ((name, action_ignore) ∷ m) t =
    filter_header-ignore j m _ ∙ ground (arith, lookup-erase (canonical name) j t.header_ignore)
filter_header-ignore j ((name, action_other n) ∷ m) t = filter_header-ignore j m _

filter_header-strip :
    (j : Str) (m : Dict CfAction) (t : Filtered)
    → lookup j (filter_header m t).header_strip ≡ unless (stripped j m) (lookup j t.header_strip)
unfolding filter_header
filter_header-strip j [] t = refl
filter_header-strip j ((name, action_strip) ∷ m) t =
    filter_header-strip j m _ ∙ ground (arith, lookup-erase (canonical name) j t.header_strip)
filter_header-strip j ((name, action_ignore) ∷ m) t = filter_header-strip j m _
filter_header-strip j ((name, action_other n) ∷ m) t = filter_header-strip j m _

module _ (F : Formats) where
  -- Queries are filtered apart from headers.
  abbrev SameHeaders : Filtered → Filtered → Type 0
  SameHeaders t u = (t.header_ignore ≡ u.header_ignore) × (t.header_strip ≡ u.header_strip)

  filter_query-headers : (m : Dict CfAction) (t : Filtered) → SameHeaders (filter_query F m t) t
  unfolding filter_query
  filter_query-headers [] t = (refl, refl)
  filter_query-headers ((key, action_strip) ∷ m) t = filter_query-headers m _
  filter_query-headers ((key, action_ignore) ∷ m) t = filter_query-headers m _
  filter_query-headers ((key, action_other n) ∷ m) t = filter_query-headers m _

  filter_all-headers :
      (j : Str) (fs : List Filter) (req : Request) (t : Filtered)
      → (lookup j (filter_all F fs req t).header_ignore
          ≡ unless (any_names j fs req) (lookup j t.header_ignore))
        × (lookup j (filter_all F fs req t).header_strip
            ≡ unless (any_strips j fs req) (lookup j t.header_strip))
  unfolding filter_all any_names any_strips
  filter_all-headers j [] req t = (refl, refl)
  filter_all-headers j (f ∷ fs) req t =
      let u = filter_header f.req_header t in
      let v = filter_query F f.req_query u in
      let same = filter_query-headers f.req_query u in
      let (ih, ih') = filter_all-headers j fs req v in
      let (jh, jh') = filter_all-headers j fs req t in
      elim (Bool-cases (applies f req)) [
        | inl on ↦ rw (on) (
          ih
              ∙ ap (λ z. unless (any_names j fs req) (lookup j z)) same.0
              ∙ ground (arith, filter_header-ignore j f.req_header t),
          ih'
              ∙ ap (λ z. unless (any_strips j fs req) (lookup j z)) same.1
              ∙ ground (arith, filter_header-strip j f.req_header t),
        )
        | inr off ↦ rw (off) (jh, jh')
      ]

  -- The stored request is without the headers that an applying filter names, the one that is sent
  -- without those that it strips, and every other header is as it was.
  pub filter_req-headers :
      (j : Str) (fs : List Filter) (req : Request)
      → (lookup j (filter_req F fs req).0.header
          ≡ (if any_names j fs req then none else lookup j req.header))
        × (lookup j (filter_req F fs req).1.header
            ≡ (if any_strips j fs req then none else lookup j req.header))
  unfolding filter_req
  filter_req-headers j fs req = filter_all-headers j fs req _
