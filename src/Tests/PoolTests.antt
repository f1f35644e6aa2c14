-- ===== src/Tests/PoolTests.antt =====
-- The pools of a backend that has just started.
use vibe_ocpp.Prelude.{false, none, some, [], arith}
use vibe_ocpp.Database.{Table}
use vibe_ocpp.Database.Shelf.{shelf, empty}
use vibe_ocpp.Settings.Encryption.{EncryptionService}
use vibe_ocpp.Settings.Encryption.Plain.{plain}
use vibe_ocpp.Settings.Rows.{Setting, SettingHistory, string}
use vibe_ocpp.Payment.Connection.{PoolMap, World, get_pool}
use vibe_ocpp.Payment.Connection.Leaks.{IsAccounted, Asked, get_pool-Asked}

abbrev settings : Table Setting (λ s. s.id)
settings = shelf (λ s. s.id)

abbrev history : Table SettingHistory (λ h. h.id)
history = shelf (λ h. h.id)

abbrev encryption : EncryptionService
encryption = record { crypto = plain; key = [] }

abbrev url_setting : Setting
url_setting = record {
  id = "s";
  tenant_id = "t";
  category = "payment";
  key = "databaseUrl";
  type = string;
  value = some "postgres://pay";
  encrypted_value = none;
  encryption_iv = none;
  encryption_tag = none;
  version = 1;
  updated_by = none;
  updated_at = 1;
}

abbrev no_pools : PoolMap
no_pools = record { entries = λ t. none; closed = λ n. false; opened = 0 }

no_pools-IsAccounted : IsAccounted no_pools
no_pools-IsAccounted = record {
  live = λ t e h. ground (arith, h);
  owned = λ t u e f h k q. ground (arith, h);
  accounted = λ n h. absurd (omega (arith, h));
  unopened = λ n h. ground (arith, h);
}

abbrev world : World settings history encryption
world = record {
  settings = record { settings = settings.create url_setting empty; history = empty };
  pools = no_pools;
}

get_pool-Asked_example :
    Asked settings history encryption "t" world (get_pool settings history encryption "t" world)
get_pool-Asked_example = get_pool-Asked settings history encryption "t" world no_pools-IsAccounted
