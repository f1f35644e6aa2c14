-- ===== src/Citrineos/Webhook/Events.antt =====
-- What an event that reaches backend/src/citrineos/citrineos-webhook.controller.ts leaves behind.
use mathlib.Core.Path.{subst}
use vibe_ocpp.Prelude.{
  ℕ, String, ◌≡◌, refl, sym, true, false, inl, inr, Option, some, Result, ok, err, Error, forbidden,
  internal, ◌==◌, Option-cases, Bool-cases,
}
use vibe_ocpp.Settings.Service.{get_plaintext}
use vibe_ocpp.Auth.Types.{Tenant}
use vibe_ocpp.Provisioning.Reconciliation.{reconcile_incoming_connection}
use vibe_ocpp.Testsuite.Callback.{authorised}
use vibe_ocpp.Citrineos.Config.{get_webhook_secret}
use vibe_ocpp.Citrineos.Log.{IncomingEvent, logged, is_boot, record_event}
use vibe_ocpp.Citrineos.Webhook.{Services, World, receive_event}

module _ (V : Services) where
  -- The webhook secret of a tenant, as the settings have it.
  abbrev pub expected_secret : World V → Tenant → Result (Option String)
  expected_secret w t =
      (get_webhook_secret V.Settings V.History V.encryption V.number t.id w.settings).0

  module _ (secret : Option String) (dto : IncomingEvent) (fresh fresh_charger : String) (now : ℕ)
      (w : World V) where
    -- Nothing is written, or the request shows the secret and its event is logged; and it counts
    -- as a connection of its charge point exactly if it is a BootNotification.
    pub data Received : Result (Unit {0}) × World V → Type 0 where
      rejected : (e : Error) → Received (err e, w)
      received :
          (t : Tenant) (expected : Option String)
          → V.Tenants.find (λ q. q.slug == "default") w.tenants ≡ some t
          → expected_secret w t ≡ ok expected
          → authorised secret expected ≡ true
          → is_boot dto ≡ false
          → Received (ok tt, record w { log = V.Log.create (logged t.id dto fresh now) w.log })
      booted :
          (t : Tenant) (expected : Option String)
          → V.Tenants.find (λ q. q.slug == "default") w.tenants ≡ some t
          → expected_secret w t ≡ ok expected
          → authorised secret expected ≡ true
          → is_boot dto ≡ true
          → Received (
            (reconcile_incoming_connection V.provisioning t.id dto.ocpp_connection_name
                fresh_charger now w.stations).0,
            record w {
              log = V.Log.create (logged t.id dto fresh now) w.log;
              stations =
                  (reconcile_incoming_connection V.provisioning t.id dto.ocpp_connection_name
                    fresh_charger now w.stations).1;
            },
          )

    with_secret :
        (t : Tenant) (o : Result (Option String))
        → V.Tenants.find (λ q. q.slug == "default") w.tenants ≡ some t
        → expected_secret w t ≡ o
        → Received (receive_event V secret dto fresh fresh_charger now w)
    unfolding receive_event get_webhook_secret get_plaintext record_event
    with_secret t (err x) a b =
        let e : receive_event V secret dto fresh fresh_charger now w ≡ (err x, w) =
          rw (a, b) refl in
        subst Received (sym e) (rejected x)
    with_secret t (ok expected) a b = elim (Bool-cases (authorised secret expected)) [
      | inr c ↦
          let e : receive_event V secret dto fresh fresh_charger now w
              ≡ (err (forbidden "Invalid or missing webhook secret"), w) =
            rw (a, b, c) refl in
          subst Received (sym e) (rejected _)
      | inl c ↦ elim (Bool-cases (is_boot dto)) [
        | inr d ↦
            let e : receive_event V secret dto fresh fresh_charger now w
                ≡ (ok tt, record w { log = V.Log.create (logged t.id dto fresh now) w.log }) =
              rw (a, b, c, d) refl in
            subst Received (sym e) (received t expected a b c d)
        | inl d ↦
            let e : receive_event V secret dto fresh fresh_charger now w ≡ (
              (reconcile_incoming_connection V.provisioning t.id dto.ocpp_connection_name
                  fresh_charger now w.stations).0,
              record w {
                log = V.Log.create (logged t.id dto fresh now) w.log;
                stations =
                    (reconcile_incoming_connection V.provisioning t.id dto.ocpp_connection_name
                      fresh_charger now w.stations).1;
              },
            ) =
              rw (a, b, c, d) refl in
            subst Received (sym e) (booted t expected a b c d)
      ]
    ]

    -- Every event is refused with nothing written, or shows the secret that is set and is logged
    -- once; only a BootNotification then counts as a connection of its charge point.
    pub receive_event-Received : Received (receive_event V secret dto fresh fresh_charger now w)
    unfolding receive_event
    receive_event-Received =
        elim (Option-cases (V.Tenants.find (λ q. q.slug == "default") w.tenants)) [
          | inl a ↦
              let e : receive_event V secret dto fresh fresh_charger now w ≡ (
                err (
                    internal
                      "Default tenant not found — run the bootstrap seed before starting the app"),
                w,
              ) =
                rw a refl in
              subst Received (sym e) (rejected _)
          | inr (t, a) ↦ with_secret t (expected_secret w t) a refl
        ]
