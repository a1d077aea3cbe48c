-- ===== src/Tests/ConfigRuns.antt =====
-- The theorems on the configuration at a concrete one.
use asl_dmr_bridge.Base.{ℕ, zero, suc, ◌≡◌, refl, List, [], ◌∷◌, ◌++◌, Option, none, some, All}
use asl_dmr_bridge.Bridge.Config.{
  NetworkConfig, BrandmeisterApiConfig, Config, RuntimeConfig, neural_backend, neural, dynarmic,
  brandmeister, load, ok, read_secret_file, supplied,
}
use asl_dmr_bridge.Bridge.Config.Loaded.{Sound, load-Sound}
use asl_dmr_bridge.Bridge.Config.Secrets.{IsBlank, IsSecret, read_secret_file-IsSecret}

-- A secret on a line that ends like one of DOS, and a key with blanks around it.
abbrev files : ℕ → Option (List ℕ)
files zero = none
files (suc n) = some (b's' ∷ 13 ∷ 10 ∷ [])

abbrev network : NetworkConfig
network = record {
  profile = brandmeister;
  host = [];
  port = 62031;
  password = none;
  password_file = some 1;
  keepalive_interval = 5;
  keepalive_missed_limit = 3;
}

abbrev api : BrandmeisterApiConfig
api = record {
  api_key = some [];
  api_key_file = none;
  static_talkgroups_ts1 = some [];
  static_talkgroups_ts2 = none;
  reconcile_interval = 0;
}

abbrev config : Config
config = record {
  vocoder = neural_backend (some (neural, dynarmic));
  network = network;
  brandmeister_api = some api;
}

abbrev loaded : RuntimeConfig
loaded = record {
  vocoder = neural_backend (some (neural, dynarmic));
  network = record {
    profile = brandmeister;
    host = [];
    port = 62031;
    password = b's' ∷ [];
    keepalive_interval = 5;
    keepalive_missed_limit = 3;
  };
  brandmeister_api = some (record {
    api_key = some (b'k' ∷ []);
    static_talkgroups_ts1 = some [];
    static_talkgroups_ts2 = none;
    reconcile_interval = 0;
  });
}

config-loads : load files (λ text. some config) 2 none none none (some (b'k' ∷ [])) ≡ ok loaded
unfolding load read_secret_file
config-loads = refl

load-Sound_example : Sound loaded
load-Sound_example =
    load-Sound files (λ text. some config) 2 none none none (some (b'k' ∷ [])) loaded config-loads

secret-supplied :
    read_secret_file (some (32 ∷ b'p' ∷ 32 ∷ b'w' ∷ 13 ∷ 10 ∷ []))
    ≡ supplied (b'p' ∷ 32 ∷ b'w' ∷ [])
unfolding read_secret_file
secret-supplied = refl

read_secret_file_example :
    (front : List ℕ) × (back : List ℕ) × (32 ∷ b'p' ∷ 32 ∷ b'w' ∷ 13 ∷ 10 ∷ []
      ≡ front ++ ((b'p' ∷ 32 ∷ b'w' ∷ []) ++ back))
    × All IsBlank front
    × All IsBlank back
    × IsSecret (b'p' ∷ 32 ∷ b'w' ∷ [])
read_secret_file_example =
    read_secret_file-IsSecret (32 ∷ b'p' ∷ 32 ∷ b'w' ∷ 13 ∷ 10 ∷ []) (b'p' ∷ 32 ∷ b'w' ∷ [])
      secret-supplied
