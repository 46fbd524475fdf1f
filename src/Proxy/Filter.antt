-- ===== src/Proxy/Filter.antt =====
-- `filterReq` (internal/proxy/proxy.go) with the filters of the configuration.
pub mod Headers
use httplock.Base.{
  Bool, true, false, ◌&&◌, ◌||◌, Option, none, some, List, [], ◌∷◌, Str, str_eq, has_prefix,
  if◌then◌else◌,
}
use httplock.Base.Dict.{Dict}
use httplock.Config.{CfAction, action_strip, action_ignore, action_other, Filter}
use httplock.Proxy.Header.{Header, del}
use httplock.Proxy.Request.{Url, Request, Formats}

abbrev is_empty : Str → Bool
is_empty [] = true
is_empty (c ∷ s) = false

abbrev pub at_prefix : Option Url → Url → Bool
at_prefix none u = true
at_prefix (some p) u =
    str_eq p.scheme u.scheme && (str_eq p.host u.host && has_prefix u.path p.path)

unfoldable pub applies : Filter → Request → Bool
applies f req = (is_empty f.method || str_eq f.method req.method) && at_prefix f.url_prefix req.url

abbrev pub without : Str → Request → Request
without name req = record req { header = del name req.header }

-- The two requests: the one that is stored and the one that is sent. Their headers are copies.
-- `url_ignore` is the URL of the stored one, which is that of the caller's request; the URL of the
-- one that is sent is a copy.
pub record Filtered : Type 0 where
  pub header_ignore : Header
  pub header_strip : Header
  pub url_ignore : Url
  pub url_strip : Url

unfoldable pub filter_header : Dict CfAction → Filtered → Filtered
filter_header [] t = t
filter_header ((name, action) ∷ more) t = filter_header more (elim action [
  | action_strip ↦ record t {
    header_ignore = del name t.header_ignore;
    header_strip = del name t.header_strip;
  }
  | action_ignore ↦ record t { header_ignore = del name t.header_ignore }
  | action_other n ↦ t
])

module _ (F : Formats) where
  abbrev pub drop_query : Str → Url → Url
  drop_query key u = record u { raw_query = F.del_query key u.raw_query }

  unfoldable pub filter_query : Dict CfAction → Filtered → Filtered
  filter_query [] t = t
  filter_query ((key, action) ∷ more) t = filter_query more (elim action [
    | action_strip ↦ record t {
      url_strip = drop_query key t.url_strip;
      url_ignore = drop_query key t.url_ignore;
    }
    | action_ignore ↦ record t { url_ignore = drop_query key t.url_ignore }
    | action_other n ↦ t
  ])

  -- The filters in their order. What a filter looks at is not changed by the ones before it.
  unfoldable pub filter_all : List Filter → Request → Filtered → Filtered
  filter_all [] req t = t
  filter_all (f ∷ fs) req t =
      if applies f req
      then filter_all fs req (filter_query f.req_query (filter_header f.req_header t))
      else filter_all fs req t

  -- The request that is stored, the one that is sent, and the caller's, whose URL the first has.
  unfoldable pub filter_req : List Filter → Request → Request × Request × Request
  filter_req fs req =
      let t = filter_all fs req (record {
        header_ignore = req.header;
        header_strip = req.header;
        url_ignore = req.url;
        url_strip = req.url;
      }) in
      (
        record req { header = t.header_ignore; url = t.url_ignore },
        record req { header = t.header_strip; url = t.url_strip },
        record req { url = t.url_ignore },
      )
