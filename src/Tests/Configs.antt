-- ===== src/Tests/Configs.antt =====
-- A configuration that is loaded from a file.
use httplock.Base.{str_eq, err, ◌≡◌, refl, none, [], ◌∷◌, Str, text, Result, ok, All, Option}
use httplock.Hasher.{Bytes}
use httplock.Storage.Kind.{to_lower}
use httplock.Proxy.Request.{Url}
use httplock.Config.{
  action_strip, action_ignore, action_other, unknown_action, marshal_text, unmarshal_text,
  ConfigError, Filter, Config, ConfigOpts, Decoded, done, new_config, with_flags, load_file,
  load_reader, load_decoded, parse_prefixes,
}
use httplock.Config.Prefixes.{IsParsed, new_config-IsParsed}

abbrev parse : Str → Result ConfigError Url
parse s = ok (record { scheme = text "http"; user = []; host = s; path = []; raw_query = [] })

abbrev filter : Filter
filter = record {
  url_prefix_s = text "h";
  url_prefix = none;
  method = [];
  req_header = [];
  resp_header = [];
  req_query = [];
  body_form = [];
}

abbrev decode : Bytes → Config → Decoded
decode b c = done (record c { filters = filter ∷ []; proxy_addr = text "file" })

abbrev read_file : Str → Result ConfigError Bytes
read_file name = ok []

abbrev opts : ConfigOpts
opts = record { addr_api = text "flag"; addr_proxy = []; conf_file = text "httplock.json" }

config : Option ConfigError × Config
unfolding new_config with_flags load_file load_reader load_decoded parse_prefixes
config = new_config decode parse read_file opts

-- A flag, a value of the file and a default.
config_runs :
    (config.1.api_addr ≡ text "flag")
    × (config.1.proxy_addr ≡ text "file")
    × (config.1.storage_kind ≡ text "memory")
unfolding config
config_runs = (refl, refl, refl)

new_config-IsParsed_example : All (IsParsed parse) config.1.filters
unfolding config
new_config-IsParsed_example = new_config-IsParsed decode parse read_file opts config.1 refl

-- The texts of the actions, which are read whatever the case of their letters.
marshal_text_runs :
    (marshal_text action_strip ≡ text "strip")
    × (marshal_text (action_other 7) ≡ [])
    × (unmarshal_text (text "IGNORE") ≡ ok action_ignore)
    × (unmarshal_text [] ≡ err (unknown_action []))
unfolding marshal_text unmarshal_text to_lower str_eq
marshal_text_runs = (refl, refl, refl, refl)
