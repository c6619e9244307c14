-- ===== src/Relayer/Config.antt =====
-- relayer/pkg/config/config.go: the configuration, its validation, and how it is read from the
-- environment. Reading it from a file is viper's; the fee percentage, a float64 that nothing reads, is
-- left out.
use cosmos_swap.Prelude.{
  ℕ, Bool, true, false, ◌&&◌, not, String, string_eq, ◌==◌, if◌then◌else◌, Result, ok, err, check,
}
use cosmos_swap.Prelude.Int.{ℤ, pos}
pub mod Environment
mod Tests

pub record ChainConfig : Type 0 where
  pub chain_id : String
  pub rpc_endpoint : String
  pub ws_endpoint : String
  pub gas_price : String
  pub gas_limit : ℕ
  pub private_key : String
  pub mnemonic : String
  pub hd_path : String

pub record CronosContracts : Type 0 where
  pub escrow_factory : String
  pub escrow_resolver : String
  pub dutch_auction : String
  pub partial_fill : String
  pub ibc_bridge_adapter : String
  pub source_escrow_code_id : ℕ
  pub destination_escrow_code_id : ℕ

pub record EthereumContracts : Type 0 where
  pub escrow_factory : String
  pub resolver : String
  pub ibc_handler : String
  pub limit_order_protocol : String

-- Durations are nanoseconds, of an int64.
pub record RelayerConfig : Type 0 where
  pub block_poll_interval : ℤ
  pub event_poll_interval : ℤ
  pub order_update_interval : ℤ
  pub max_retries : ℤ
  pub retry_interval : ℤ
  pub transaction_timeout : ℤ
  pub batch_size : ℤ

pub record IbcConfig : Type 0 where
  pub cronos_to_eth_channel : String
  pub eth_to_cronos_channel : String
  pub transfer_port : String
  pub packet_timeout : ℤ
  pub relayer_endpoint : String

pub record DutchAuctionConfig : Type 0 where
  pub default_decay_rate : String
  pub default_minimum_price : String
  pub max_auction_duration : ℤ
  pub price_update_interval : ℤ

pub record LoggingConfig : Type 0 where
  pub level : String
  pub format : String
  pub output_path : String

pub record Config : Type 0 where
  pub cronos : ChainConfig
  pub ethereum : ChainConfig
  pub cronos_contracts : CronosContracts
  pub ethereum_contracts : EthereumContracts
  pub relayer : RelayerConfig
  pub ibc : IbcConfig
  pub dutch_auction : DutchAuctionConfig
  pub logging : LoggingConfig

-- Neither a key nor a mnemonic
abbrev pub has_no_key : ChainConfig → Bool
has_no_key c = c.private_key == "" && c.mnemonic == ""

unfoldable pub validate_config : Config → Result String (Unit {0})
validate_config c = check (c.cronos.chain_id == "") "cronos.chain_id is required" (
    check (c.cronos.rpc_endpoint == "") "cronos.rpc_endpoint is required" (
      check (c.ethereum.chain_id == "") "ethereum.chain_id is required" (
        check (c.ethereum.rpc_endpoint == "") "ethereum.rpc_endpoint is required" (
          check (has_no_key c.cronos) "cronos private_key or mnemonic is required" (
            check (has_no_key c.ethereum) "ethereum private_key or mnemonic is required" (
              check (c.cronos_contracts.escrow_factory == "")
                "contracts.cronos.escrow_factory is required"
                (check (c.ethereum_contracts.escrow_factory == "")
                  "contracts.ethereum.escrow_factory is required" (ok tt))))))))

-- An empty variable counts as one that is not set.
unfoldable pub get_env_or_default : (String → String) → String → String → String
get_env_or_default env key default_value = if env key == "" then default_value else env key

-- What a `Config` literal leaves out is zero.
abbrev pub no_relayer : RelayerConfig
no_relayer = record {
  block_poll_interval = pos 0;
  event_poll_interval = pos 0;
  order_update_interval = pos 0;
  max_retries = pos 0;
  retry_interval = pos 0;
  transaction_timeout = pos 0;
  batch_size = pos 0;
}

abbrev pub no_ibc : IbcConfig
no_ibc = record {
  cronos_to_eth_channel = "";
  eth_to_cronos_channel = "";
  transfer_port = "";
  packet_timeout = pos 0;
  relayer_endpoint = "";
}

abbrev pub no_auction : DutchAuctionConfig
no_auction = record {
  default_decay_rate = "";
  default_minimum_price = "";
  max_auction_duration = pos 0;
  price_update_interval = pos 0;
}

unfoldable pub config_of_env : (String → String) → Config
unfolding get_env_or_default
config_of_env env = record {
  cronos = record {
    chain_id = get_env_or_default env "BRIDGE_CRONOS_CHAIN_ID" "cronos_777-1";
    rpc_endpoint = get_env_or_default env "BRIDGE_CRONOS_RPC_ENDPOINT" "";
    ws_endpoint = get_env_or_default env "BRIDGE_CRONOS_WS_ENDPOINT" "";
    gas_price = get_env_or_default env "BRIDGE_CRONOS_GAS_PRICE" "5000000000000basecro";
    gas_limit = 300_000;
    private_key = get_env_or_default env "BRIDGE_CRONOS_PRIVATE_KEY" "";
    mnemonic = get_env_or_default env "BRIDGE_CRONOS_MNEMONIC" "";
    hd_path = get_env_or_default env "BRIDGE_CRONOS_HD_PATH" "m/44'/60'/0'/0/0";
  };
  ethereum = record {
    chain_id = get_env_or_default env "BRIDGE_ETHEREUM_CHAIN_ID" "1";
    rpc_endpoint = get_env_or_default env "BRIDGE_ETHEREUM_RPC_ENDPOINT" "";
    ws_endpoint = get_env_or_default env "BRIDGE_ETHEREUM_WS_ENDPOINT" "";
    gas_price = get_env_or_default env "BRIDGE_ETHEREUM_GAS_PRICE" "20000000000";
    gas_limit = 300_000;
    private_key = get_env_or_default env "BRIDGE_ETHEREUM_PRIVATE_KEY" "";
    mnemonic = get_env_or_default env "BRIDGE_ETHEREUM_MNEMONIC" "";
    hd_path = "";
  };
  cronos_contracts = record {
    escrow_factory = get_env_or_default env "BRIDGE_CRONOS_ESCROW_FACTORY" "";
    escrow_resolver = get_env_or_default env "BRIDGE_CRONOS_ESCROW_RESOLVER" "";
    dutch_auction = "";
    partial_fill = "";
    ibc_bridge_adapter = "";
    source_escrow_code_id = 0;
    destination_escrow_code_id = 0;
  };
  ethereum_contracts = record {
    escrow_factory = get_env_or_default env "BRIDGE_ETHEREUM_ESCROW_FACTORY" "";
    resolver = get_env_or_default env "BRIDGE_ETHEREUM_RESOLVER" "";
    ibc_handler = "";
    limit_order_protocol = get_env_or_default env "BRIDGE_ETHEREUM_LOP" "";
  };
  relayer = no_relayer;
  ibc = no_ibc;
  dutch_auction = no_auction;
  logging = record { level = ""; format = ""; output_path = "" };
}

abbrev pub validated : Config → Result String (Unit {0}) → Result String Config
validated c (ok _) = ok c
validated c (err e) = err e

unfoldable pub get_config_from_env : (String → String) → Result String Config
get_config_from_env env = let c = config_of_env env in validated c (validate_config c)
