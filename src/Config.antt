-- ===== src/Config.antt =====
-- internal/config/config.go: the filters of the proxy, the defaults, the configuration file and the
-- flags. encoding/json and net/url are parameters.
pub mod Prefixes
use httplock.Base.{
  ℕ, ◌≡◌, Option, none, some, List, [], ◌∷◌, Str, text, str_eq, Result, ok, err, if◌then◌else◌,
}
use httplock.Base.Dict.{Dict}
use httplock.Hasher.{Bytes}
use httplock.Storage.Kind.{to_lower}
use httplock.Proxy.Request.{Url}

pub data CfAction : Type 0 where
  action_strip action_ignore : CfAction
  -- any other number: no text is read as one
  action_other : ℕ → CfAction

pub data ConfigError : Type 0 where
  -- "unknown action value …"
  unknown_action : Str → ConfigError
  -- an error of encoding/json, net/url or os
  failed : Str → ConfigError

unfoldable pub marshal_text : CfAction → Str
marshal_text action_strip = text "strip"
marshal_text action_ignore = text "ignore"
marshal_text (action_other n) = []

unfoldable pub unmarshal_text : Str → Result ConfigError CfAction
unmarshal_text b =
    if str_eq (to_lower b) (text "strip")
    then ok action_strip
    else if str_eq (to_lower b) (text "ignore")
    then ok action_ignore
    else err (unknown_action b)

pub record Filter : Type 0 where
  pub url_prefix_s : Str
  pub url_prefix : Option Url
  pub method : Str
  pub req_header : Dict CfAction
  pub resp_header : Dict CfAction
  pub req_query : Dict CfAction
  pub body_form : Dict CfAction

-- `API`, `Proxy` and `Storage` in one record.
pub record Config : Type 0 where
  pub api_addr : Str
  pub proxy_addr : Str
  pub filters : List Filter
  pub storage_kind : Str
  pub storage_directory : Str

pub record ConfigOpts : Type 0 where
  pub addr_api : Str
  pub addr_proxy : Str
  pub conf_file : Str

-- What `json.Decoder.Decode` leaves: it is at the end of an empty text, it fails, or it is done.
pub data Decoded : Type 0 where
  at_eof : Config → Decoded
  broken : ConfigError → Config → Decoded
  done : Config → Decoded

abbrev pub Answer : Type 0
Answer = Option ConfigError × Config

module _ (decode : Bytes → Config → Decoded) (parse : Str → Result ConfigError Url) where
  abbrev onto : Filter → Option ConfigError × List Filter → Option ConfigError × List Filter
  onto f (e, fs) = (e, f ∷ fs)

  abbrev pub prefixed :
      Filter
      → List Filter
      → Result ConfigError Url
      → Option ConfigError × List Filter
      → Option ConfigError × List Filter
  prefixed f fs (err e) rest = (some e, f ∷ fs)
  prefixed f fs (ok u) rest = onto (record f { url_prefix = some u }) rest

  -- A filter without a prefix is left as it is.
  abbrev pub parse_one :
      Filter
      → List Filter
      → Str
      → Option ConfigError × List Filter
      → Option ConfigError × List Filter
  parse_one f fs [] rest = onto f rest
  parse_one f fs (c ∷ s) rest = prefixed f fs (parse (c ∷ s)) rest

  -- The prefixes are parsed one after the other, up to one that is no URL.
  unfoldable pub parse_prefixes : List Filter → Option ConfigError × List Filter
  parse_prefixes [] = (none, [])
  parse_prefixes (f ∷ fs) = let rest = parse_prefixes fs in parse_one f fs f.url_prefix_s rest

  abbrev with_filters : Config → Option ConfigError × List Filter → Answer
  with_filters c (e, fs) = (e, record c { filters = fs })

  unfoldable pub load_decoded : Decoded → Answer
  load_decoded (broken e c) = (some e, c)
  load_decoded (at_eof c) = with_filters c (parse_prefixes c.filters)
  load_decoded (done c) = with_filters c (parse_prefixes c.filters)

  -- `LoadReader`
  unfoldable pub load_reader : Bytes → Config → Answer
  load_reader b c = load_decoded (decode b c)

  module _ (read_file : Str → Result ConfigError Bytes) where
    -- `LoadFile`
    unfoldable pub load_file : Str → Config → Answer
    load_file name c = elim (read_file name) [ err e ↦ (some e, c) | ok b ↦ load_reader b c ]

    abbrev pub defaults : Config
    defaults = record {
      api_addr = text "127.0.0.1:8081";
      proxy_addr = text "127.0.0.1:8080";
      filters = [];
      storage_kind = text "memory";
      storage_directory = [];
    }

    abbrev pub flag_or : Str → Str → Str
    flag_or [] old = old
    flag_or (c ∷ s) old = c ∷ s

    unfoldable pub with_flags : ConfigOpts → Answer → Answer
    with_flags opts (some e, c) = (some e, c)
    with_flags opts (none, c) = (
      none,
      record c {
        api_addr = flag_or opts.addr_api c.api_addr;
        proxy_addr = flag_or opts.addr_proxy c.proxy_addr;
      },
    )

    abbrev pub loaded : Str → Answer
    loaded [] = (none, defaults)
    loaded (c ∷ s) = load_file (c ∷ s) defaults

    -- `New`
    unfoldable pub new_config : ConfigOpts → Answer
    new_config opts = with_flags opts (loaded opts.conf_file)
