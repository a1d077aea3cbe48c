-- ===== src/Bridge/Config.antt =====
-- bridge/src/config.rs: the checks of the configuration and its secrets. Text is a list of code points, a
-- path a number. Reading of files and of TOML are parameters; sections that are only passed on are left out.
pub mod Loaded
pub mod Secrets
use asl_dmr_bridge.Base.{
  ℕ, ◌+◌, List, [], ◌∷◌, ◌++◌, Bool, true, false, ◌&&◌, ◌||◌, not, Option, none, some, leb, ◌==◌,
  if◌then◌else◌,
}
use asl_dmr_bridge.Ids.{Talkgroup}
use asl_dmr_bridge.Bridge.Provision.{ResolvedBrandmeisterApiConfig}

-- The names of the sources of a secret.
pub data Source : Type 0 where
  cli_file environment config_file inline : Source

pub data ConfigError : Type 0 where
  read parse password_missing password_file password_file_multiline keepalive_interval_zero
        keepalive_missed_limit_zero brandmeister_api_key_ambiguous brandmeister_api_key_file
        brandmeister_api_key_file_multiline neural_both_non_neural :
      ConfigError
  password_ambiguous : List Source → ConfigError
  brandmeister_api_key_missing_for_statics : ℕ → ConfigError

pub data Loading (A : Type 0) : Type 0 where
  ok : A → Loading A
  err : ConfigError → Loading A

abbrev pub then_load : {A B : Type 0} → Loading A → (A → Loading B) → Loading B
then_load (ok a) f = f a
then_load (err e) f = err e

pub data NeuralHalf : Type 0 where
  neural dynarmic thumbdv ambeserver : NeuralHalf

-- The vocoder's backend; the neural one has a section that may be missing.
pub data VocoderBackend : Type 0 where
  thumbdv_backend ambeserver_backend dynarmic_backend : VocoderBackend
  neural_backend : Option (NeuralHalf × NeuralHalf) → VocoderBackend

pub data Network : Type 0 where
  brandmeister : Network

pub record NetworkConfig : Type 0 where
  pub profile : Network
  pub host : List ℕ
  pub port : ℕ
  pub password : Option (List ℕ)
  pub password_file : Option ℕ
  pub keepalive_interval : ℕ
  pub keepalive_missed_limit : ℕ

pub record BrandmeisterApiConfig : Type 0 where
  pub api_key : Option (List ℕ)
  pub api_key_file : Option ℕ
  pub static_talkgroups_ts1 : Option (List Talkgroup)
  pub static_talkgroups_ts2 : Option (List Talkgroup)
  pub reconcile_interval : ℕ

pub record Config : Type 0 where
  pub vocoder : VocoderBackend
  pub network : NetworkConfig
  pub brandmeister_api : Option BrandmeisterApiConfig

pub record ResolvedNetworkConfig : Type 0 where
  pub profile : Network
  pub host : List ℕ
  pub port : ℕ
  pub password : List ℕ
  pub keepalive_interval : ℕ
  pub keepalive_missed_limit : ℕ

pub record RuntimeConfig : Type 0 where
  pub vocoder : VocoderBackend
  pub network : ResolvedNetworkConfig
  pub brandmeister_api : Option ResolvedBrandmeisterApiConfig

abbrev pub is_neural : NeuralHalf → Bool
is_neural neural = true
is_neural dynarmic = false
is_neural thumbdv = false
is_neural ambeserver = false

abbrev pub both_non_neural : VocoderBackend → Bool
both_non_neural (neural_backend (some (encoder, decoder))) =
    not (is_neural encoder) && not (is_neural decoder)
both_non_neural _ = false

unfoldable pub validate : Config → Loading Config
validate config =
    if config.network.keepalive_interval == 0
    then err keepalive_interval_zero
    else if config.network.keepalive_missed_limit == 0
    then err keepalive_missed_limit_zero
    else if both_non_neural config.vocoder
    then err neural_both_non_neural
    else ok config

-- The code points of White_Space.
abbrev pub is_whitespace : ℕ → Bool
is_whitespace c =
    (leb 9 c && leb c 13)
    || ((c == 32)
        || ((c == 0x85)
            || ((c == 0xa0)
                || ((c == 0x1680)
                    || ((leb 0x2000 c && leb c 0x200a)
                        || ((c == 0x2028)
                            || ((c == 0x2029)
                                || ((c == 0x202f) || ((c == 0x205f) || (c == 0x3000))))))))))

unfoldable pub trim_start : List ℕ → List ℕ
trim_start [] = []
trim_start (c ∷ text) = let rest = trim_start text in if is_whitespace c then rest else c ∷ text

-- A character before a text of which the end is trimmed.
abbrev pub before : ℕ → List ℕ → List ℕ
before c [] = if is_whitespace c then [] else c ∷ []
before c (d ∷ rest) = c ∷ d ∷ rest

unfoldable pub trim_end : List ℕ → List ℕ
trim_end [] = []
trim_end (c ∷ text) = before c (trim_end text)

abbrev pub is_empty : List ℕ → Bool
is_empty [] = true
is_empty (c ∷ text) = false

unfoldable pub has_newline : List ℕ → Bool
has_newline [] = false
has_newline (c ∷ text) = (c == 10) || has_newline text

pub data SecretFile : Type 0 where
  supplied : List ℕ → SecretFile
  not_supplied io_failed multiline : SecretFile

abbrev pub secret_of : List ℕ → SecretFile
secret_of trimmed =
    if is_empty trimmed
    then not_supplied
    else if has_newline trimmed
    then multiline
    else supplied trimmed

-- A file's text, or `none` where reading fails.
unfoldable pub read_secret_file : Option (List ℕ) → SecretFile
unfolding trim_start trim_end has_newline
read_secret_file none = io_failed
read_secret_file (some raw) = secret_of (trim_end (trim_start raw))

abbrev pub file_or : ConfigError → ConfigError → SecretFile → Loading (Option (List ℕ))
file_or io many (supplied secret) = ok (some secret)
file_or io many not_supplied = ok none
file_or io many io_failed = err io
file_or io many multiline = err many

-- `filter_map` with `non_empty`.
abbrev pub candidate : Source → Option (List ℕ) → List (Source × List ℕ) → List (Source × List ℕ)
candidate name none rest = rest
candidate name (some secret) rest = if is_empty secret then rest else (name, secret) ∷ rest

abbrev pub candidates :
    Option (List ℕ) → Option (List ℕ) → Option (List ℕ) → Option (List ℕ) → List (Source × List ℕ)
candidates cli env file text =
    candidate cli_file cli
      (candidate environment env (candidate config_file file (candidate inline text [])))

abbrev pub sources : List (Source × List ℕ) → List Source
sources [] = []
sources ((name, secret) ∷ rest) = name ∷ sources rest

abbrev pub the_password : List (Source × List ℕ) → Loading (List ℕ)
the_password [] = err password_missing
the_password ((name, secret) ∷ []) = ok secret
the_password (a ∷ b ∷ rest) = err (password_ambiguous (sources (a ∷ b ∷ rest)))

abbrev pub declares : Option (List Talkgroup) → Bool
declares none = false
declares (some tgs) = true

abbrev pub the_api_key : BrandmeisterApiConfig → List (Source × List ℕ) → Loading (Option (List ℕ))
the_api_key api [] =
    if declares api.static_talkgroups_ts1
    then err (brandmeister_api_key_missing_for_statics 1)
    else if declares api.static_talkgroups_ts2
    then err (brandmeister_api_key_missing_for_statics 2)
    else ok none
the_api_key api ((name, secret) ∷ []) = ok (some secret)
the_api_key api (a ∷ b ∷ rest) = err brandmeister_api_key_ambiguous

abbrev pub resolved_api :
    Option (List ℕ) → Option BrandmeisterApiConfig → Option ResolvedBrandmeisterApiConfig
resolved_api api_key none = none
resolved_api api_key (some api) = some (record {
  api_key = api_key;
  static_talkgroups_ts1 = api.static_talkgroups_ts1;
  static_talkgroups_ts2 = api.static_talkgroups_ts2;
  reconcile_interval = api.reconcile_interval;
})

unfoldable pub resolve : Config → List ℕ → Option (List ℕ) → RuntimeConfig
resolve config password api_key = record {
  vocoder = config.vocoder;
  network = record {
    profile = config.network.profile;
    host = config.network.host;
    port = config.network.port;
    password = password;
    keepalive_interval = config.network.keepalive_interval;
    keepalive_missed_limit = config.network.keepalive_missed_limit;
  };
  brandmeister_api = resolved_api api_key config.brandmeister_api;
}

module _ (read_file : ℕ → Option (List ℕ)) (from_str : List ℕ → Option Config) where
  -- The file that the configuration names, if it names one.
  pub named_file : ConfigError → ConfigError → Option ℕ → Loading (Option (List ℕ))
  named_file io many none = ok none
  named_file io many (some path) = file_or io many (read_secret_file (read_file path))

  unfoldable pub resolve_password : Config → Option (List ℕ) → Option (List ℕ) → Loading (List ℕ)
  unfolding named_file
  resolve_password config cli env =
      then_load (named_file password_file password_file_multiline config.network.password_file)
        (λ file. the_password (candidates cli env file config.network.password))

  unfoldable pub resolve_api_key :
      Option BrandmeisterApiConfig → Option (List ℕ) → Option (List ℕ) → Loading (Option (List ℕ))
  unfolding named_file
  resolve_api_key none cli env = ok none
  resolve_api_key (some api) cli env =
      then_load
        (named_file brandmeister_api_key_file brandmeister_api_key_file_multiline api.api_key_file)
        (λ file. the_api_key api (candidates cli env file api.api_key))

  pub parsed : Option Config → Loading Config
  unfolding validate
  parsed none = err parse
  parsed (some config) = validate config

  pub text_of : Option (List ℕ) → Loading Config
  unfolding parsed
  text_of none = err read
  text_of (some text) = parsed (from_str text)

  pub load_config : ℕ → Loading Config
  unfolding text_of
  load_config path = text_of (read_file path)

  -- The password and the key on the command line and in the environment.
  unfoldable pub load :
      ℕ
      → Option (List ℕ)
      → Option (List ℕ)
      → Option (List ℕ)
      → Option (List ℕ)
      → Loading RuntimeConfig
  unfolding load_config resolve_password resolve_api_key resolve
  load path password_cli password_env key_cli key_env = then_load (load_config path) (λ config.
      then_load (resolve_password config password_cli password_env) (λ password.
        then_load (resolve_api_key config.brandmeister_api key_cli key_env)
          (λ api_key. ok (resolve config password api_key))))
