-- ===== src/Relayer/Config/Tests.antt =====
-- An environment, and the theorem about it.
use cosmos_swap.Prelude.{◌≡◌, ◌↔◌, String, ok}
use cosmos_swap.Relayer.Config.{config_of_env, get_config_from_env}
use cosmos_swap.Relayer.Config.Environment.{IsSufficient, get_config_from_env-IsSufficient}

-- Every variable is set.
abbrev full : String → String
full key = "0x01"

get_config_from_env-IsSufficient_example :
    (get_config_from_env full ≡ ok (config_of_env full)) ↔ IsSufficient full
get_config_from_env-IsSufficient_example = get_config_from_env-IsSufficient full
