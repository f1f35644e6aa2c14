-- ===== src/Payment/Connection.antt =====
-- backend/src/payment/payment-config.service.ts and payment-db.service.ts. A pool of the library pg
-- is a number; opening one takes the next, and closing one marks it. The query itself is in Crud.
pub mod Leaks
use vibe_ocpp.Prelude.{
  ℕ, ◌+◌, String, Bool, true, false, Option, none, some, List, Result, ok, err, internal, Action,
  ◌>>=◌, ◌>>◌, and_then, pure, throw, get_or, present, is_some, ◌==◌, nat_eq, if◌then◌else◌,
}
use vibe_ocpp.Prelude.Text.{◌+++◌}
use vibe_ocpp.Database.{Table}
use vibe_ocpp.Settings.Encryption.{EncryptionService}
use vibe_ocpp.Settings.Rows.{Setting, SettingHistory, SettingView}
use vibe_ocpp.Settings.Service
use vibe_ocpp.Settings.Service.{list, get_plaintext}
use vibe_ocpp.Citrineos.Config.{value_at}

pub record PaymentConfig : Type 0 where
  pub database_url : String
  pub table_prefix : String

-- An entry of the map `pools`.
pub record Entry : Type 0 where
  pub pool : ℕ
  pub database_url : String
  pub table_prefix : String

pub record PoolMap : Type 0 where
  pub entries : String → Option Entry
  pub closed : ℕ → Bool
  -- how many pools were opened
  pub opened : ℕ

abbrev pub set_entry : String → Entry → (String → Option Entry) → String → Option Entry
set_entry tenant_id e entries k = if k == tenant_id then some e else entries k

abbrev pub close : ℕ → (ℕ → Bool) → ℕ → Bool
close pool closed n = if nat_eq n pool then true else closed n

-- The pool that replaces what the map had for the tenant.
abbrev pub fresh_entry : PaymentConfig → PoolMap → Entry
fresh_entry cfg p = record {
  pool = p.opened;
  database_url = cfg.database_url;
  table_prefix = cfg.table_prefix;
}

abbrev pub open_pool : String → PaymentConfig → PoolMap → PoolMap
open_pool tenant_id cfg p = record {
  entries = set_entry tenant_id (fresh_entry cfg p) p.entries;
  closed = p.closed;
  opened = p.opened + 1;
}

-- `getPool` once the configuration is read: the entry in use, and the pools afterwards.
unfoldable pub pooled : String → PaymentConfig → Option Entry → PoolMap → (ℕ × String) × PoolMap
pooled tenant_id cfg none p = ((p.opened, cfg.table_prefix), open_pool tenant_id cfg p)
pooled tenant_id cfg (some e) p =
    if e.database_url == cfg.database_url then ((e.pool, cfg.table_prefix), p) else (
      (p.opened, cfg.table_prefix),
      open_pool tenant_id cfg (record p { closed = close e.pool p.closed }),
    )

module _ (Settings : Table Setting (λ s. s.id)) (History : Table SettingHistory (λ h. h.id))
    (encryption : EncryptionService) where
  pub record World : Type 0 where
    pub settings : Service.World Settings History
    pub pools : PoolMap

  abbrev pub SettingsAct : Type 0 → Type 0
  SettingsAct A = Action (Service.World Settings History) A

  has_url : Bool → SettingsAct (Unit {0})
  has_url true = pure tt
  has_url false = throw (
      internal (
        "Payment integration is not configured yet — set settings/payment/databaseUrl first "
        +++ "(SuperAdmin > Stripe/Payment). It must point at the same Postgres database as the "
        +++ "citrineos-payment container."))

  url_or_throw : Option String → SettingsAct String
  url_or_throw url =
      if present url
      then pure (get_or url "")
      else throw (internal "settings/payment/databaseUrl is set but empty.")

  -- `value || 'payment_'`
  abbrev pub prefix_or_default : Option String → String
  prefix_or_default prefix = if present prefix then get_or prefix "" else "payment_"

  unfoldable pub get_config : String → SettingsAct PaymentConfig
  unfolding has_url url_or_throw
  get_config tenant_id = do
    views ← list Settings History encryption tenant_id (some "payment")
    has_url (is_some (value_at views "databaseUrl"))
    found ← get_plaintext Settings History encryption tenant_id "payment" "databaseUrl"
    url ← url_or_throw found
    pure (record {
      database_url = url;
      table_prefix = prefix_or_default (value_at views "tablePrefix");
    })

  unfoldable pub get_stripe_api_key : String → SettingsAct (Option String)
  get_stripe_api_key tenant_id =
      get_plaintext Settings History encryption tenant_id "payment" "stripeApiKey"

  unfoldable pub with_config :
      String
      → Result PaymentConfig × Service.World Settings History
      → World
      → Result (ℕ × String) × World
  with_config tenant_id (err e, s) w = (err e, record w { settings = s })
  with_config tenant_id (ok cfg, s) w =
      let (used, pools) = pooled tenant_id cfg (w.pools.entries tenant_id) w.pools in
      (ok used, record { settings = s; pools = pools })

  -- The pool and the table prefix of a tenant.
  unfoldable pub get_pool : String → Action World (ℕ × String)
  unfolding with_config
  get_pool tenant_id w = with_config tenant_id (get_config tenant_id w.settings) w

  -- `SELECT to_regclass($1)` on a pool says whether the table is there.
  operators_or_throw : Bool → String → Action World (Unit {0})
  operators_or_throw true table_prefix = pure tt
  operators_or_throw false table_prefix = throw (
      internal (
        "Connected to the database, but " +++ table_prefix +++ "operators does not exist yet — "
        +++ "has the citrineos-payment container started at least once?"))

  unfoldable pub test_connection : (ℕ → String → Bool) → String → Action World (Unit {0})
  unfolding operators_or_throw get_pool
  test_connection exists tenant_id = do
    used ← get_pool tenant_id
    operators_or_throw (exists used.0 (used.1 +++ "operators")) used.1
