-- ===== src/Bridge/Config/Loaded.antt =====
-- bridge/src/config.rs: what holds of every configuration that is loaded.
use asl_dmr_bridge.Base.{
  ℕ, ◌≡◌, ◌<◌, refl, arith, List, [], ◌∷◌, Bool, true, false, Option, none, some, ◌==◌,
  if◌then◌else◌, ap, sym, ◌∙◌,
}
use mathlib.Core.Path.{subst}
use asl_dmr_bridge.Ids.{Talkgroup}
use asl_dmr_bridge.Bridge.Provision.{ResolvedBrandmeisterApiConfig, has_key}
use asl_dmr_bridge.Bridge.Config.{
  Source, cli_file, environment, config_file, inline, keepalive_interval_zero,
  keepalive_missed_limit_zero, neural_both_non_neural, password_file, password_file_multiline,
  brandmeister_api_key_file, brandmeister_api_key_file_multiline,
  brandmeister_api_key_missing_for_statics, Loading, ok, err, then_load, BrandmeisterApiConfig,
  Config, RuntimeConfig, both_non_neural, validate, is_empty, candidate, candidates, the_password,
  the_api_key, declares, named_file, resolve_password, resolve_api_key, resolved_api, resolve,
  parsed, load_config, text_of, load,
}

then_load-ok :
    {A B : Type 0} (m : Loading A) (f : A → Loading B) (b : B)
    → then_load m f ≡ ok b
    → (a : A) × (m ≡ ok a) × (f a ≡ ok b)
then_load-ok (ok a) f b e = (a, refl, e)
then_load-ok (err x) f b e = ground arith

-- A key comes with the static talkgroups that need it, and it is not empty.
abbrev pub KeyFor : Option ResolvedBrandmeisterApiConfig → Type 0
KeyFor none = Unit {0}
KeyFor (some api) =
    (has_key api.api_key ≡ false
      → (api.static_talkgroups_ts1 ≡ none) × (api.static_talkgroups_ts2 ≡ none))
    × ((key : List ℕ) → api.api_key ≡ some key → is_empty key ≡ false)

pub record Sound (r : RuntimeConfig) : Type 0 where
  pub interval : 0 < r.network.keepalive_interval
  pub limit : 0 < r.network.keepalive_missed_limit
  pub password : is_empty r.network.password ≡ false
  pub halves : both_non_neural r.vocoder ≡ false
  pub key : KeyFor r.brandmeister_api

abbrev Validated : Config → Type 0
Validated c =
    (0 < c.network.keepalive_interval)
    × (0 < c.network.keepalive_missed_limit)
    × (both_non_neural c.vocoder ≡ false)

validate-ok : (c c' : Config) → validate c ≡ ok c' → (c ≡ c') × Validated c
unfolding validate
validate-ok c c' e =
    by_tests (c.network.keepalive_interval == 0) (c.network.keepalive_missed_limit == 0)
      (both_non_neural c.vocoder) e refl refl refl
  where
    config_or : Loading Config → Config
    config_or (ok x) = x
    config_or (err x) = c

    positive : (n : ℕ) → false ≡ (n == 0) → 0 < n
    positive n h = ground (arith, h)

    by_tests :
        (a b d : Bool)
        → (if a
            then err keepalive_interval_zero
            else if b
            then err keepalive_missed_limit_zero
            else if d
            then err neural_both_non_neural
            else ok c)
          ≡ ok c'
        → a ≡ (c.network.keepalive_interval == 0)
        → b ≡ (c.network.keepalive_missed_limit == 0)
        → d ≡ both_non_neural c.vocoder
        → (c ≡ c') × Validated c
    by_tests true b d f g h k = ground (arith, f)
    by_tests false true d f g h k = ground (arith, f)
    by_tests false false true f g h k = ground (arith, f)
    by_tests false false false f g h k = (ap config_or f, (positive _ g, positive _ h, sym k))

-- Every candidate has a text.
abbrev Texts : List (Source × List ℕ) → Type 0
Texts [] = Unit {0}
Texts ((name, secret) ∷ rest) = (is_empty secret ≡ false) × Texts rest

candidate-Texts :
    (name : Source) (secret : Option (List ℕ)) (rest : List (Source × List ℕ))
    → Texts rest
    → Texts (candidate name secret rest)
candidate-Texts name none rest h = h
candidate-Texts name (some []) rest h = h
candidate-Texts name (some (c ∷ text)) rest h = (refl, h)

candidates-Texts : (cli env file text : Option (List ℕ)) → Texts (candidates cli env file text)
candidates-Texts cli env file text = candidate-Texts cli_file cli _ (
    candidate-Texts environment env _
      (candidate-Texts config_file file _ (candidate-Texts inline text [] tt)))

the_password-ok :
    (cs : List (Source × List ℕ)) (secret : List ℕ)
    → Texts cs
    → the_password cs ≡ ok secret
    → is_empty secret ≡ false
the_password-ok [] secret h e = ground arith
the_password-ok ((name, s) ∷ []) secret (h, u) e =
    subst (λ x. is_empty x ≡ false) (ap (secret_or s) e) h
  where
    secret_or : List ℕ → Loading (List ℕ) → List ℕ
    secret_or d (ok x) = x
    secret_or d (err x) = d
the_password-ok (a ∷ b ∷ rest) secret h e = ground arith

abbrev key_or : Option (List ℕ) → Loading (Option (List ℕ)) → Option (List ℕ)
key_or d (ok x) = x
key_or d (err x) = d

not_true : true ≡ false → ⊥
not_true e = ground arith

none_declared :
    (t1 t2 : Option (List Talkgroup)) (key : Option (List ℕ))
    → (if declares t1
        then err (brandmeister_api_key_missing_for_statics 1)
        else if declares t2
        then err (brandmeister_api_key_missing_for_statics 2)
        else ok none)
      ≡ ok key
    → (t1 ≡ none) × (t2 ≡ none) × (none ≡ key)
none_declared none none key e = (refl, refl, ap (key_or none) e)
none_declared none (some tgs) key e = ground arith
none_declared (some tgs) t2 key e = ground arith

the_api_key-ok :
    (api : BrandmeisterApiConfig) (cs : List (Source × List ℕ)) (key : Option (List ℕ))
    → Texts cs
    → the_api_key api cs ≡ ok key
    → KeyFor (resolved_api key (some api))
the_api_key-ok api [] key h e =
    let (no_ts1, no_ts2, no_key) =
      none_declared api.static_talkgroups_ts1 api.static_talkgroups_ts2 key e in
    (λ u. (no_ts1, no_ts2), λ k f. absurd (apart k (no_key ∙ f)))
  where
    apart : (k : List ℕ) → none ≡ some k → ⊥
    apart k f = ground arith
the_api_key-ok api ((name, s) ∷ []) key (h, u) e =
    let same : some s ≡ key = ap (key_or none) e in
    (
      λ f. absurd (not_true (ap has_key same ∙ f)),
      λ k f. subst (λ x. is_empty x ≡ false) (ap (text_or s) (same ∙ f)) h,
    )
  where
    text_or : List ℕ → Option (List ℕ) → List ℕ
    text_or d none = d
    text_or d (some x) = x
the_api_key-ok api (a ∷ b ∷ rest) key h e = ground arith

module _ (read_file : ℕ → Option (List ℕ)) (from_str : List ℕ → Option Config) where
  resolve_password-ok :
      (c : Config) (cli env : Option (List ℕ)) (secret : List ℕ)
      → resolve_password read_file from_str c cli env ≡ ok secret
      → is_empty secret ≡ false
  unfolding resolve_password
  resolve_password-ok c cli env secret e =
      let (file, f, g) =
        then_load-ok
          (named_file read_file from_str password_file password_file_multiline
            c.network.password_file)
          (λ file. the_password (candidates cli env file c.network.password)) secret e in
      the_password-ok (candidates cli env file c.network.password) secret
        (candidates-Texts cli env file c.network.password) g

  resolve_api_key-ok :
      (api : Option BrandmeisterApiConfig) (cli env : Option (List ℕ)) (key : Option (List ℕ))
      → resolve_api_key read_file from_str api cli env ≡ ok key
      → KeyFor (resolved_api key api)
  unfolding resolve_api_key
  resolve_api_key-ok none cli env key e = tt
  resolve_api_key-ok (some api) cli env key e =
      let (file, f, g) =
        then_load-ok
          (named_file read_file from_str brandmeister_api_key_file
            brandmeister_api_key_file_multiline api.api_key_file)
          (λ file. the_api_key api (candidates cli env file api.api_key)) key e in
      the_api_key-ok api (candidates cli env file api.api_key) key
        (candidates-Texts cli env file api.api_key) g

  load_config-ok :
      (path : ℕ) (c : Config) → load_config read_file from_str path ≡ ok c → Validated c
  unfolding load_config parsed text_of
  load_config-ok path c e = of_text (read_file path) e
    where
      of_config : (r : Option Config) → parsed read_file from_str r ≡ ok c → Validated c
      of_config none f = ground arith
      of_config (some c') f = let (same, v) = validate-ok c' c f in subst Validated same v

      of_text : (r : Option (List ℕ)) → text_of read_file from_str r ≡ ok c → Validated c
      of_text none f = ground arith
      of_text (some text) f = of_config (from_str text) f

  -- Whatever the file and the other sources are, a configuration that is loaded has a positive interval and
  -- a positive limit of missed answers, a password that is not empty, a vocoder of which at least one half
  -- is neural where the neural one is configured, and, if it declares static talkgroups, a key for them,
  -- and no key that is empty.
  pub load-Sound :
      (path : ℕ) (password_cli password_env key_cli key_env : Option (List ℕ)) (r : RuntimeConfig)
      → load read_file from_str path password_cli password_env key_cli key_env ≡ ok r
      → Sound r
  unfolding load resolve
  load-Sound path password_cli password_env key_cli key_env r e =
      let (c, loaded, e1) = then_load-ok _ _ r e in
      let (password, found, e2) = then_load-ok _ _ r e1 in
      let (key, keyed, e3) = then_load-ok _ _ r e2 in
      let (interval, limit, halves) = load_config-ok path c loaded in
      subst Sound (ap (config_or (resolve c password key)) e3) (record {
        interval = interval;
        limit = limit;
        password = resolve_password-ok c password_cli password_env password found;
        halves = halves;
        key = resolve_api_key-ok c.brandmeister_api key_cli key_env key keyed;
      })
    where
      config_or : RuntimeConfig → Loading RuntimeConfig → RuntimeConfig
      config_or d (ok x) = x
      config_or d (err x) = d
