-- ===== src/Provisioning/Reconciliation.antt =====
-- backend/src/locations/station-reconciliation.service.ts: what it means that a charge point
-- shows up. The ids that the database makes and the clock are arguments.
use vibe_ocpp.Prelude.{ℕ, String, Option, none, some, Action, ◌>>=◌, ◌>>◌, pure, asks, modify}
use vibe_ocpp.Database.{Table}
use vibe_ocpp.Provisioning.Rows.{
  Location, Station, StationStatus, planned, linked, Connector, UnknownCharger,
}
use vibe_ocpp.Provisioning.Contents.{first_seen, seen_again, link, station_at, unknown_at}

-- The four tables and how each is keyed.
pub record Tables : Type 1 where
  pub Locations : Table Location (λ r. r.id)
  pub Stations : Table Station (λ r. r.id)
  pub Connectors : Table Connector (λ r. r.id)
  pub Unknown : Table UnknownCharger (λ r. r.id)

module _ (T : Tables) where
  open T use {Locations, Stations, Connectors, Unknown}

  pub record World : Type 0 where
    pub locations : Locations.Store
    pub stations : Stations.Store
    pub connectors : Connectors.Store
    pub unknown : Unknown.Store

  link_if_planned : ℕ → String → StationStatus → Action World (Unit {0})
  link_if_planned now id planned =
      modify (λ w. record w { stations = Stations.update id (link now) w.stations })
  link_if_planned now id linked = pure tt

  upsert_unknown : String → String → String → ℕ → Option UnknownCharger → Action World (Unit {0})
  upsert_unknown tenant_id chargebox_id fresh now (some u) =
      modify (λ w. record w { unknown = Unknown.update u.id (seen_again now) w.unknown })
  upsert_unknown tenant_id chargebox_id fresh now none = modify (λ w. record w {
    unknown = Unknown.create (first_seen tenant_id chargebox_id fresh now) w.unknown;
  })

  reconcile_found : String → String → String → ℕ → Option Station → Action World (Unit {0})
  unfolding link_if_planned upsert_unknown
  reconcile_found tenant_id chargebox_id fresh now (some s) = link_if_planned now s.id s.status
  reconcile_found tenant_id chargebox_id fresh now none = do
    unknown ← asks (λ w. Unknown.find (unknown_at tenant_id chargebox_id) w.unknown)
    upsert_unknown tenant_id chargebox_id fresh now unknown

  unfoldable pub reconcile_incoming_connection :
      String → String → String → ℕ → Action World (Unit {0})
  unfolding reconcile_found
  reconcile_incoming_connection tenant_id chargebox_id fresh now = do
    station ← asks (λ w. Stations.find (station_at tenant_id chargebox_id) w.stations)
    reconcile_found tenant_id chargebox_id fresh now station

  unfoldable pub mark_linked_and_clear_unknown :
      String → String → String → ℕ → Action World (Unit {0})
  mark_linked_and_clear_unknown tenant_id station_id chargebox_id now = do
    modify (λ w. record w { stations = Stations.update station_id (link now) w.stations })
    modify
        (λ w. record w { unknown = Unknown.remove (unknown_at tenant_id chargebox_id) w.unknown })
