-- ===== src/Cronos/Migration.antt =====
-- x/cronos/migrations/v2/migrate.go: the parameters move from the params module into the store.
use cosmos_swap.Prelude.{ℕ, nat_eq, ◌==◌, if◌then◌else◌, ◌>>◌}
use cosmos_swap.Cronos.Types.{Params, params_key}
use cosmos_swap.Cronos.Environment.{Platform}
use cosmos_swap.Cronos.Keeper.{M, write}
use cosmos_swap.Cronos.Admin.{validate_params}

abbrev pub max_callback_gas_default_value : ℕ
max_callback_gas_default_value = 50000

abbrev pub with_callback_gas : Params → Params
with_callback_gas q = record q {
  max_callback_gas =
      if q.max_callback_gas == 0 then max_callback_gas_default_value else q.max_callback_gas;
}

module _ (p : Platform) where
  -- `Migrate`, of the parameters that the legacy subspace holds
  unfoldable pub migrate : Params → M p (Unit {0})
  migrate q = do validate_params p q; write p params_key (p.marshal (with_callback_gas q))
