-- ===== src/Config.antt =====
-- fm-demo/go-scripts/config/config.go: the networks' settings and the private key stores. A
-- `*NetworkConfig` is a position in the list of all such records, since the pointers are shared.
pub mod Loading
use chainlink_polkadot.Prelude.{
  ℕ, String, Bool, Option, none, some, List, [], ◌∷◌, length, get_elem?, set, if◌then◌else◌,
}
use chainlink_polkadot.Prelude.Int.{ℤ}
use chainlink_polkadot.Prelude.Text.{str_eq, lookup}
use chainlink_polkadot.Errors.{Error, no_network, no_keys}
use chainlink_polkadot.Program.{Outcome, ok, fail, panicked, and_then}

-- `LocalConfig` and `SecretConfig`; any other text is a `ConfigurationType` too.
abbrev pub ConfigurationType : Type 0
ConfigurationType = String

abbrev pub local_config : ConfigurationType
local_config = "local"

abbrev pub secret_config : ConfigurationType
secret_config = "secret"

-- The implementations of the interface. A nil slice is `none`.
pub data PrivateKeyStore : Type 0 where
  local_store : Option (List String) → PrivateKeyStore
  secret_store : String → PrivateKeyStore

pub record NetworkConfig : Type 0 where
  pub name : String
  pub url : String
  pub chain_id : ℤ
  pub private_keys : Option (List String)
  pub transaction_limit : ℕ
  pub timeout : ℤ
  pub link_token_address : String
  pub minimum_confirmations : ℤ
  pub gas_estimation_buffer : ℕ
  pub private_key_store : Option PrivateKeyStore

abbrev pub Heap : Type 0
Heap = List NetworkConfig

pub record Config : Type 0 where
  pub networks : List (String × ℕ)
  pub default_key_store : String

abbrev found : String → Option ℕ → Outcome ℕ
found name none = fail (no_network name)
found name (some p) = ok p

-- The pointer that the map holds.
unfoldable pub get_network_config : Config → String → Outcome ℕ
get_network_config c name = found name (lookup name c.networks)

unfoldable pub new_private_key_store : ConfigurationType → NetworkConfig → Option PrivateKeyStore
new_private_key_store config_type network =
    if str_eq config_type local_config
    then some (local_store network.private_keys)
    else (if str_eq config_type secret_config then some (secret_store network.name) else none)

unfoldable pub fetch : PrivateKeyStore → Outcome (List String)
fetch (local_store none) = fail no_keys
fetch (local_store (some raw_keys)) = ok raw_keys
fetch (secret_store network_name) = ok ("" ∷ [])

-- The library `viper`: what reading the file says, and what it decodes.
pub record Decoded : Type 0 where
  pub conf : Config
  pub heap : Heap
  pub error : Option Error

pub record Viper : Type 0 where
  pub read_in_config : String → Option Error
  pub unmarshal : String → Decoded

-- The assignment to `networkConf.PrivateKeyStore`. A nil pointer panics.
abbrev assign_at : ConfigurationType → Heap → ℕ → Option NetworkConfig → Outcome Heap
assign_at config_type heap p none = panicked
assign_at config_type heap p (some c) =
    ok (set heap p (record c { private_key_store = new_private_key_store config_type c }))

unfoldable pub assign_store : ConfigurationType → ℕ → Heap → Outcome Heap
assign_store config_type p heap = assign_at config_type heap p (get_elem? heap p)

-- The loop over the map, in some order of its entries.
unfoldable pub assign_stores : ConfigurationType → List (String × ℕ) → Heap → Outcome Heap
unfolding assign_store
assign_stores config_type [] heap = ok heap
assign_stores config_type ((_, p) ∷ networks) heap =
    and_then (assign_store config_type p heap) (assign_stores config_type networks)

abbrev pub Loaded : Type 0
Loaded = Config × Heap × Option Error

abbrev load : ConfigurationType → Decoded → Outcome Loaded
load config_type d =
    and_then (assign_stores config_type d.conf.networks d.heap) (λ heap. ok (d.conf, heap, d.error))

abbrev read_then : Option Error → Outcome Loaded → Outcome Loaded
read_then none rest = rest
read_then (some e) rest = fail e

abbrev pub path_or_default : String → String
path_or_default String.[] = "./"
path_or_default path = path

-- The configuration comes with the error of the decoding, if there is one.
unfoldable pub new_with_path : Viper → ConfigurationType → String → Outcome Loaded
unfolding assign_stores
new_with_path v config_type path =
    let p = path_or_default path in
    read_then (v.read_in_config p) (load config_type (v.unmarshal p))

unfoldable pub new_config : Viper → ConfigurationType → Outcome Loaded
unfolding new_with_path
new_config v config_type = new_with_path v config_type ""
