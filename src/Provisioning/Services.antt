-- ===== src/Provisioning/Services.antt =====
-- backend/src/locations/locations.service.ts and
-- backend/src/unknown-chargers/unknown-chargers.service.ts. The ids that the database makes and
-- the clock are arguments; nothing here runs in a transaction.
pub mod Cases
pub mod Invariant
pub mod Planning
pub mod Requests
pub mod Outcomes
use vibe_ocpp.Prelude.{
  ℕ, String, Bool, true, false, ◌&&◌, not, Option, none, some, List, [], ◌∷◌, length, ok, not_found,
  conflict, Action, ◌>>=◌, ◌>>◌, and_then, pure, throw, asks, modify, get_or, ◌==◌, ltb,
}
use vibe_ocpp.Prelude.Text.{◌+++◌}
use vibe_ocpp.Database.{Table, update_row}
use vibe_ocpp.Provisioning.Rows.{
  Location, Station, Connector, UnknownCharger, CreateLocationDto, UpdateLocationDto,
  CreateStationDto, CreateConnectorDto,
}
use vibe_ocpp.Provisioning.Contents.{
  located, relocated, new_station, new_connector, dismissed_at, move_to, station_at, unknown_at,
  connector_at,
}
use vibe_ocpp.Provisioning.Reconciliation.{Tables, World, mark_linked_and_clear_unknown}

module _ (T : Tables) where
  open T use {Locations, Stations, Connectors, Unknown}

  abbrev Act : Type 0 → Type 0
  Act A = Action (World T) A

  -- locations.service.ts

  unfoldable pub create : String → CreateLocationDto → String → Act Location
  create tenant_id dto fresh = do
    modify
        (λ w. record w { locations = Locations.create (located tenant_id dto fresh) w.locations })
    pure (located tenant_id dto fresh)

  pub record Listed : Type 0 where
    pub location : Location
    pub stations : List (Station × List Connector)

  with_connectors : World T → List Station → List (Station × List Connector)
  with_connectors w [] = []
  with_connectors w (s ∷ ss) =
      (s, Connectors.list (λ c. c.station_id == s.id) w.connectors) ∷ with_connectors w ss

  with_stations : World T → List Location → List Listed
  unfolding with_connectors
  with_stations w [] = []
  with_stations w (l ∷ ls) =
      record {
        location = l;
        stations = with_connectors w (Stations.list (λ s. s.location_id == l.id) w.stations);
      }
      ∷ with_stations w ls

  -- The order by name is left out.
  unfoldable pub list : String → Act (List Listed)
  unfolding with_stations
  list tenant_id w =
      (ok (with_stations w (Locations.list (λ l. l.tenant_id == tenant_id) w.locations)), w)

  or_throw : {A : Type 0} → String → Option A → Act A
  or_throw text none = throw (not_found text)
  or_throw text (some a) = pure a

  get_location_or_throw : String → String → Act Location
  unfolding or_throw
  get_location_or_throw tenant_id id = do
    location ← asks (λ w. Locations.find (λ l. l.id == id && l.tenant_id == tenant_id) w.locations)
    or_throw "Location not found" location

  on_locations : {A : Type 0} → Action Locations.Store A → Act A
  on_locations m w = ((m w.locations).0, record w { locations = (m w.locations).1 })

  unfoldable pub update : String → String → UpdateLocationDto → Act Location
  unfolding get_location_or_throw on_locations update_row
  update tenant_id id dto = do
    location ← get_location_or_throw tenant_id id
    on_locations (update_row Locations id (relocated dto))

  remove_unless : Bool → String → Act (Unit {0})
  remove_unless true id = throw (conflict "Location still has stations — move or delete them first")
  remove_unless false id =
      modify (λ w. record w { locations = Locations.remove (λ l. l.id == id) w.locations })

  unfoldable pub remove : String → String → Act (Unit {0})
  unfolding get_location_or_throw remove_unless
  remove tenant_id id = do
    location ← get_location_or_throw tenant_id id
    stations ← asks (λ w. Stations.list (λ s. s.location_id == location.id) w.stations)
    remove_unless (ltb 0 (length stations)) id

  adopt : String → String → Station → ℕ → Option UnknownCharger → Act Station
  unfolding mark_linked_and_clear_unknown or_throw
  adopt tenant_id chargebox_id station now none = pure station
  adopt tenant_id chargebox_id station now (some u) = do
    mark_linked_and_clear_unknown T tenant_id station.id chargebox_id now
    stored ← asks (λ w. Stations.get station.id w.stations)
    or_throw "No record was found for a query." stored

  plan_station : String → String → CreateStationDto → String → ℕ → Option Station → Act Station
  unfolding adopt
  plan_station tenant_id location_id dto fresh now (some existing) =
      throw (conflict ("chargeboxId \"" +++ dto.chargebox_id +++ "\" is already planned"))
  plan_station tenant_id location_id dto fresh now none = do
    modify (λ w. record w {
      stations = Stations.create (new_station tenant_id location_id dto fresh) w.stations;
    })
    unknown ← asks (λ w. Unknown.find (unknown_at tenant_id dto.chargebox_id) w.unknown)
    adopt tenant_id dto.chargebox_id (new_station tenant_id location_id dto fresh) now unknown

  unfoldable pub create_station : String → String → CreateStationDto → String → ℕ → Act Station
  unfolding get_location_or_throw plan_station
  create_station tenant_id location_id dto fresh now = do
    get_location_or_throw tenant_id location_id
    existing ← asks (λ w. Stations.find (station_at tenant_id dto.chargebox_id) w.stations)
    plan_station tenant_id location_id dto fresh now existing

  plan_connector :
      String → String → CreateConnectorDto → ℕ → String → Option Connector → Act Connector
  plan_connector tenant_id station_id dto connector_id fresh (some existing) =
      throw (conflict "EVSE / Connector already exists on this station")
  plan_connector tenant_id station_id dto connector_id fresh none = do
    modify (λ w. record w {
      connectors =
          Connectors.create (new_connector tenant_id station_id dto connector_id fresh)
            w.connectors;
    })
    pure (new_connector tenant_id station_id dto connector_id fresh)

  find_station : String → String → Act (Option Station)
  find_station tenant_id id =
      asks (λ w. Stations.find (λ s. s.id == id && s.tenant_id == tenant_id) w.stations)

  unfoldable pub create_connector : String → String → CreateConnectorDto → String → Act Connector
  unfolding or_throw plan_connector find_station
  create_connector tenant_id station_id dto fresh = do
    station ← find_station tenant_id station_id
    or_throw "Station not found" station
    existing ← asks (λ w.
        Connectors.find (connector_at station_id dto.evse_id (get_or dto.connector_id 1))
          w.connectors)
    plan_connector tenant_id station_id dto (get_or dto.connector_id 1) fresh existing

  -- unknown-chargers.service.ts

  -- The order by `lastSeenAt` is left out.
  unfoldable pub list_unknown : String → Act (List UnknownCharger)
  list_unknown tenant_id w =
      (ok (Unknown.list (λ u. u.tenant_id == tenant_id && not u.dismissed) w.unknown), w)

  find_unknown : String → String → Act (Option UnknownCharger)
  find_unknown tenant_id id =
      asks (λ w. Unknown.find (λ u. u.id == id && u.tenant_id == tenant_id) w.unknown)

  pub clashes : Station → Option Station → Bool
  clashes station none = false
  clashes station (some clash) = not (clash.id == station.id)

  reassign : Bool → String → Station → String → ℕ → Act (Unit {0})
  unfolding mark_linked_and_clear_unknown
  reassign true tenant_id station chargebox_id now =
      throw (
        conflict ("chargeboxId \"" +++ chargebox_id +++ "\" is already planned on another station"))
  reassign false tenant_id station chargebox_id now = do
    modify
        (λ w. record w { stations = Stations.update station.id (move_to chargebox_id) w.stations })
    mark_linked_and_clear_unknown T tenant_id station.id chargebox_id now

  unfoldable pub assign_to_station : String → String → String → ℕ → Act (Unit {0})
  unfolding find_unknown find_station or_throw reassign clashes
  assign_to_station tenant_id unknown_charger_id station_id now = do
    found ← find_unknown tenant_id unknown_charger_id
    unknown ← or_throw "Unknown charger not found" found
    planned_one ← find_station tenant_id station_id
    station ← or_throw "Station not found" planned_one
    clash ← asks (λ w. Stations.find (station_at tenant_id unknown.chargebox_id) w.stations)
    reassign (clashes station clash) tenant_id station unknown.chargebox_id now

  -- `lastSeenAt` is an `@updatedAt` column, so every update of the row sets it.
  unfoldable pub dismiss : String → String → ℕ → Act (Unit {0})
  unfolding find_unknown or_throw
  dismiss tenant_id id now = do
    found ← find_unknown tenant_id id
    unknown ← or_throw "Unknown charger not found" found
    modify (λ w. record w { unknown = Unknown.update id (dismissed_at now) w.unknown })
