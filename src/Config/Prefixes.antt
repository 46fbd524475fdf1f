-- ===== src/Config/Prefixes.antt =====
-- A configuration that was loaded has its prefixes parsed.
use mathlib.Core.Path.{subst}
use httplock.Base.{
  ◌≡◌, refl, ap, ◌⊎◌, inl, inr, Option, none, some, List, [], ◌∷◌, Str, Result, ok, err, All, arith,
}
use httplock.Hasher.{Bytes}
use httplock.Proxy.Request.{Url}
use package.httplock.Config.{
  ConfigError, Filter, Config, ConfigOpts, Decoded, at_eof, broken, done, parse_prefixes,
  load_decoded, load_reader, load_file, with_flags, new_config, defaults, prefixed, parse_one,
  loaded,
}

-- The prefix of a filter is the URL that its text is, if it has a text.
abbrev pub IsParsed : (Str → Result ConfigError Url) → Filter → Type 0
IsParsed parse f =
    (f.url_prefix_s ≡ []) ⊎ ((u : Url) × (parse f.url_prefix_s ≡ ok u) × (f.url_prefix ≡ some u))

module _ (decode : Bytes → Config → Decoded) (parse : Str → Result ConfigError Url) where
  abbrev Parsed : Option ConfigError × List Filter → Type 0
  Parsed (e, gs) = e ≡ none → All (IsParsed parse) gs

  prefixed-Parsed :
      (f : Filter) (fs : List Filter) (u : Result ConfigError Url)
      (rest : Option ConfigError × List Filter)
      → parse f.url_prefix_s ≡ u
      → Parsed rest
      → Parsed (prefixed decode parse f fs u rest)
  prefixed-Parsed f fs (err e) (x, gs) same parsed fine = absurd (ground arith)
  prefixed-Parsed f fs (ok u) (x, gs) same parsed fine = (inr (u, same, refl), parsed fine)

  parse_one-Parsed :
      (f : Filter) (fs : List Filter) (p : Str) (rest : Option ConfigError × List Filter)
      → f.url_prefix_s ≡ p
      → Parsed rest
      → Parsed (parse_one decode parse f fs p rest)
  parse_one-Parsed f fs [] (x, gs) same parsed fine = (inl same, parsed fine)
  parse_one-Parsed f fs (c ∷ s) (x, gs) same parsed fine =
      prefixed-Parsed f fs (parse (c ∷ s)) (x, gs) (ap parse same) parsed fine

  parse_prefixes-Parsed : (fs : List Filter) → Parsed (parse_prefixes decode parse fs)
  unfolding parse_prefixes
  parse_prefixes-Parsed [] fine = tt
  parse_prefixes-Parsed (f ∷ fs) fine =
      parse_one-Parsed f fs f.url_prefix_s (parse_prefixes decode parse fs) refl
        (parse_prefixes-Parsed fs) fine

  abbrev Loaded : Option ConfigError × Config → Type 0
  Loaded (e, c) = e ≡ none → All (IsParsed parse) c.filters

  load_decoded-Loaded : (d : Decoded) → Loaded (load_decoded decode parse d)
  unfolding load_decoded
  load_decoded-Loaded (broken e c) fine = absurd (ground arith)
  load_decoded-Loaded (at_eof c) fine = parse_prefixes-Parsed c.filters fine
  load_decoded-Loaded (done c) fine = parse_prefixes-Parsed c.filters fine

  module _ (read_file : Str → Result ConfigError Bytes) where
    file-Loaded :
        (b : Result ConfigError Bytes) (c : Config)
        → Loaded (elim b as (λ z. Option ConfigError × Config) [
          | err e ↦ (some e, c)
          | ok b ↦ load_reader decode parse b c
        ])
    unfolding load_reader
    file-Loaded (err e) c fine = absurd (ground arith)
    file-Loaded (ok b) c fine = load_decoded-Loaded (decode b c) fine

    loaded-Loaded : (name : Str) → Loaded (loaded decode parse read_file name)
    unfolding load_file
    loaded-Loaded [] fine = tt
    loaded-Loaded (c ∷ s) fine =
        file-Loaded (read_file (c ∷ s)) (defaults decode parse read_file) fine

    with_flags-Loaded :
        (opts : ConfigOpts) (a : Option ConfigError × Config)
        → Loaded a
        → Loaded (with_flags decode parse read_file opts a)
    unfolding with_flags
    with_flags-Loaded opts (some e, c) parsed fine = parsed fine
    with_flags-Loaded opts (none, c) parsed fine = parsed fine

    -- In a configuration that New returns without an error, the prefix of each filter that has a
    -- text for one is the URL that this text is.
    pub new_config-IsParsed :
        (opts : ConfigOpts) (c : Config)
        → new_config decode parse read_file opts ≡ (none, c)
        → All (IsParsed parse) c.filters
    unfolding new_config
    new_config-IsParsed opts c same =
        subst Loaded same
          (with_flags-Loaded opts (loaded decode parse read_file opts.conf_file)
            (loaded-Loaded opts.conf_file))
          refl
