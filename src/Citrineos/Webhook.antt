-- ===== src/Citrineos/Webhook.antt =====
-- backend/src/citrineos/citrineos-webhook.controller.ts, with the services that it calls: tenants, the
-- settings, the message log and the reconciliation of stations.
pub mod Events
use vibe_ocpp.Prelude.{
  ℕ, String, Bool, true, false, Option, none, some, Result, ok, err, forbidden, internal, Action,
  ◌>>=◌, ◌>>◌, and_then, pure, throw, asks, ◌==◌, if◌then◌else◌,
}
use vibe_ocpp.Database.{Table}
use vibe_ocpp.Settings.Encryption.{EncryptionService}
use vibe_ocpp.Settings.Rows.{Setting, SettingHistory}
use vibe_ocpp.Settings.Service
use vibe_ocpp.Auth.Types.{Tenant}
use vibe_ocpp.Provisioning.Reconciliation
use vibe_ocpp.Provisioning.Reconciliation.{reconcile_incoming_connection}
use vibe_ocpp.Testsuite.Callback.{authorised}
use vibe_ocpp.Citrineos.Config.{get_webhook_secret}
use vibe_ocpp.Citrineos.Log.{MessageLog, IncomingEvent, is_boot, record_event}

pub record Services : Type 1 where
  pub Tenants : Table Tenant (λ t. t.id)
  pub Settings : Table Setting (λ s. s.id)
  pub History : Table SettingHistory (λ h. h.id)
  pub Log : Table MessageLog (λ m. m.id)
  pub provisioning : Reconciliation.Tables
  pub encryption : EncryptionService
  pub number : String → String

module _ (V : Services) where
  pub record World : Type 0 where
    pub tenants : V.Tenants.Store
    pub settings : Service.World V.Settings V.History
    pub log : V.Log.Store
    pub stations : Reconciliation.World V.provisioning

  abbrev pub Act : Type 0 → Type 0
  Act A = Action World A

  tenant_or_throw : Option Tenant → Act Tenant
  tenant_or_throw none =
      throw (internal "Default tenant not found — run the bootstrap seed before starting the app")
  tenant_or_throw (some t) = pure t

  webhook_secret : String → Act (Option String)
  webhook_secret tenant_id w =
      let (o, settings) =
        get_webhook_secret V.Settings V.History V.encryption V.number tenant_id w.settings in
      (o, record w { settings = settings })

  guard : Bool → Act (Unit {0})
  guard true = pure tt
  guard false = throw (forbidden "Invalid or missing webhook secret")

  recorded : String → IncomingEvent → String → ℕ → Act MessageLog
  recorded tenant_id dto fresh now w =
      let (o, log) = record_event V.Log tenant_id dto fresh now w.log in (o, record w { log = log })

  reconciled : String → IncomingEvent → String → ℕ → Act (Unit {0})
  reconciled tenant_id dto fresh now w =
      let (o, stations) =
        reconcile_incoming_connection V.provisioning tenant_id dto.ocpp_connection_name fresh now
          w.stations in
      (o, record w { stations = stations })

  boot : Bool → String → IncomingEvent → String → ℕ → Act (Unit {0})
  boot true tenant_id dto fresh now = reconciled tenant_id dto fresh now
  boot false tenant_id dto fresh now = pure tt

  -- `fresh` is the id of the row of the log, `fresh_charger` that of an unknown charger.
  unfoldable pub receive_event :
      Option String → IncomingEvent → String → String → ℕ → Act (Unit {0})
  unfolding tenant_or_throw webhook_secret guard recorded reconciled boot authorised
  receive_event secret dto fresh fresh_charger now = do
    found ← asks (λ w. V.Tenants.find (λ t. t.slug == "default") w.tenants)
    tenant ← tenant_or_throw found
    expected ← webhook_secret tenant.id
    guard (authorised secret expected)
    recorded tenant.id dto fresh now
    boot (is_boot dto) tenant.id dto fresh_charger now
