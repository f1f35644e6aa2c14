-- ===== src/Provisioning/Services/Cases.antt =====
-- The worlds that the operations on stations and chargers can leave behind.
use vibe_ocpp.Prelude.{
  ℕ, String, ◌≡◌, refl, Option, none, some, Option-cases, Bool-cases, inl, inr, false, ◌==◌, ◌&&◌,
  ltb, length, ◌⊎◌,
}
use vibe_ocpp.Provisioning.Rows.{
  Location, Station, StationStatus, planned, linked, UnknownCharger, CreateStationDto,
}
use vibe_ocpp.Provisioning.Contents.{
  first_seen, seen_again, link, new_station, move_to, dismissed_at, station_at, unknown_at,
}
use vibe_ocpp.Provisioning.Reconciliation.{Tables, World, reconcile_incoming_connection}
use vibe_ocpp.Provisioning.Services.{
  create_station, assign_to_station, dismiss, remove, or_throw, clashes,
}

pub StationStatus-cases : (x : StationStatus) → (x ≡ planned) ⊎ (x ≡ linked)
StationStatus-cases planned = inl refl
StationStatus-cases linked = inr refl

module _ {ℓ} (T : Tables) (P : World T → Type ℓ) (w : World T) (before : P w) where
  open T use {Locations, Stations, Unknown}

  or_throw_cases :
      (text : String) {w' : World T} (o : Option Station) → P w' → P (or_throw T text o w').1
  unfolding or_throw
  or_throw_cases text none h = h
  or_throw_cases text (some s) h = h

  pub reconcile_cases :
      (tenant_id chargebox_id fresh : String) (now : ℕ)
      → ((s : Station)
          → Stations.find (station_at tenant_id chargebox_id) w.stations ≡ some s
          → s.status ≡ planned
          → P (record w { stations = Stations.update s.id (link now) w.stations }))
      → ((u : UnknownCharger)
          → Stations.find (station_at tenant_id chargebox_id) w.stations ≡ none
          → Unknown.find (unknown_at tenant_id chargebox_id) w.unknown ≡ some u
          → P (record w { unknown = Unknown.update u.id (seen_again now) w.unknown }))
      → (Stations.find (station_at tenant_id chargebox_id) w.stations ≡ none
          → Unknown.find (unknown_at tenant_id chargebox_id) w.unknown ≡ none
          → P (record w {
            unknown = Unknown.create (first_seen tenant_id chargebox_id fresh now) w.unknown;
          }))
      → P (reconcile_incoming_connection T tenant_id chargebox_id fresh now w).1
  unfolding reconcile_incoming_connection
  reconcile_cases tenant_id chargebox_id fresh now linking again fst =
      elim (Option-cases (Stations.find (station_at tenant_id chargebox_id) w.stations)) [
        | inl a ↦ elim (Option-cases (Unknown.find (unknown_at tenant_id chargebox_id) w.unknown)) [
          | inl b ↦ rw (a, b) (fst a b)
          | inr (u, b) ↦ rw (a, b) (again u a b)
        ]
        | inr (s, a) ↦ elim (StationStatus-cases s.status) [
          | inl c ↦ rw (a, c) (linking s a c)
          | inr c ↦ rw (a, c) before
        ]
      ]

  pub create_station_cases :
      (tenant_id location_id : String) (dto : CreateStationDto) (fresh : String) (now : ℕ)
      → ((l : Location)
          → Locations.find (λ l. l.id == location_id && l.tenant_id == tenant_id) w.locations
            ≡ some l
          → Stations.find (station_at tenant_id dto.chargebox_id) w.stations ≡ none
          → Unknown.find (unknown_at tenant_id dto.chargebox_id) w.unknown ≡ none
          → P (record w {
            stations = Stations.create (new_station tenant_id location_id dto fresh) w.stations;
          }))
      → ((l : Location) (u : UnknownCharger)
          → Locations.find (λ l. l.id == location_id && l.tenant_id == tenant_id) w.locations
            ≡ some l
          → Stations.find (station_at tenant_id dto.chargebox_id) w.stations ≡ none
          → Unknown.find (unknown_at tenant_id dto.chargebox_id) w.unknown ≡ some u
          → P (record w {
            stations =
                Stations.update fresh
                  (link now)
                  (Stations.create (new_station tenant_id location_id dto fresh) w.stations);
            unknown = Unknown.remove (unknown_at tenant_id dto.chargebox_id) w.unknown;
          }))
      → P (create_station T tenant_id location_id dto fresh now w).1
  unfolding create_station
  create_station_cases tenant_id location_id dto fresh now alone adopted =
      elim (Option-cases
        (Locations.find (λ l. l.id == location_id && l.tenant_id == tenant_id) w.locations)) [
          | inl a ↦ rw a before
          | inr (l, a) ↦
              elim (Option-cases
                (Stations.find (station_at tenant_id dto.chargebox_id) w.stations)) [
                  | inr (s, b) ↦ rw (a, b) before
                  | inl b ↦
                      elim (Option-cases
                        (Unknown.find (unknown_at tenant_id dto.chargebox_id) w.unknown)) [
                          | inl c ↦ rw (a, b, c) (alone l a b c)
                          | inr (u, c) ↦ rw (a, b, c) (or_throw_cases _ _ (adopted l u a b c))
                        ]
                ]
        ]

  pub assign_cases :
      (tenant_id unknown_charger_id station_id : String) (now : ℕ)
      → ((u : UnknownCharger) (s : Station)
          → Unknown.find (λ u. u.id == unknown_charger_id && u.tenant_id == tenant_id) w.unknown
            ≡ some u
          → Stations.find (λ s. s.id == station_id && s.tenant_id == tenant_id) w.stations ≡ some s
          → clashes T s (Stations.find (station_at tenant_id u.chargebox_id) w.stations) ≡ false
          → P (record w {
            stations =
                Stations.update s.id
                  (link now)
                  (Stations.update s.id (move_to u.chargebox_id) w.stations);
            unknown = Unknown.remove (unknown_at tenant_id u.chargebox_id) w.unknown;
          }))
      → P (assign_to_station T tenant_id unknown_charger_id station_id now w).1
  unfolding assign_to_station
  assign_cases tenant_id unknown_charger_id station_id now moved =
      elim (Option-cases
        (Unknown.find (λ u. u.id == unknown_charger_id && u.tenant_id == tenant_id) w.unknown)) [
          | inl a ↦ rw a before
          | inr (u, a) ↦
              elim (Option-cases
                (Stations.find (λ s. s.id == station_id && s.tenant_id == tenant_id) w.stations)) [
                  | inl b ↦ rw (a, b) before
                  | inr (s, b) ↦
                      elim (Bool-cases (
                        clashes T s
                          (Stations.find (station_at tenant_id u.chargebox_id) w.stations))) [
                            | inl c ↦ rw (a, b, c) before
                            | inr c ↦ rw (a, b, c) (moved u s a b c)
                          ]
                ]
        ]

  pub dismiss_cases :
      (tenant_id id : String) (now : ℕ)
      → P (record w { unknown = Unknown.update id (dismissed_at now) w.unknown })
      → P (dismiss T tenant_id id now w).1
  unfolding dismiss
  dismiss_cases tenant_id id now done =
      elim (Option-cases (Unknown.find (λ u. u.id == id && u.tenant_id == tenant_id) w.unknown)) [
        | inl a ↦ rw a before
        | inr (u, a) ↦ rw a done
      ]

  pub remove_cases :
      (tenant_id id : String)
      → ((l : Location)
          → Locations.find (λ l. l.id == id && l.tenant_id == tenant_id) w.locations ≡ some l
          → ltb 0 (length (Stations.list (λ s. s.location_id == l.id) w.stations)) ≡ false
          → P (record w { locations = Locations.remove (λ l. l.id == id) w.locations }))
      → P (remove T tenant_id id w).1
  unfolding remove
  remove_cases tenant_id id done =
      elim (Option-cases
        (Locations.find (λ l. l.id == id && l.tenant_id == tenant_id) w.locations)) [
          | inl a ↦ rw a before
          | inr (l, a) ↦
              elim (Bool-cases
                (ltb 0 (length (Stations.list (λ s. s.location_id == l.id) w.stations)))) [
                  | inl b ↦ rw (a, b) before
                  | inr b ↦ rw (a, b) (done l a b)
                ]
        ]
