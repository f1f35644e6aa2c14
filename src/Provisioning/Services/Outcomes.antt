-- ===== src/Provisioning/Services/Outcomes.antt =====
-- One connection and one assignment, of backend/src/locations/station-reconciliation.service.ts
-- and backend/src/unknown-chargers/unknown-chargers.service.ts.
use vibe_ocpp.Prelude.{
  ℕ, ◌<◌, String, ◌≡◌, refl, sym, false, none, some, arith, ok, ◌⊎◌, inl, inr, Option-cases, ◌==◌,
  ◌&&◌,
}
use mathlib.Core.Path.{subst}
use vibe_ocpp.Database.Lookup.{find_nothing}
use vibe_ocpp.Provisioning.Rows.{Station, planned, linked, UnknownCharger}
use vibe_ocpp.Provisioning.Contents.{first_seen, seen_again, link, move_to, station_at, unknown_at}
use vibe_ocpp.Provisioning.Reconciliation.{Tables, World, reconcile_incoming_connection}
use vibe_ocpp.Provisioning.Services.{assign_to_station, clashes}
use vibe_ocpp.Provisioning.Services.Cases.{StationStatus-cases}
use vibe_ocpp.Provisioning.Services.Invariant.{AllLaws, IsTidy}

module _ (T : Tables) (L : AllLaws T) (w : World T) where
  open T use {Stations, Unknown}

  module _ (tenant_id chargebox_id : String) where
    abbrev pub IsLinkedIn : World T → Type 0
    IsLinkedIn w' =
        (k : String) × (s : Station) × (Stations.get k w'.stations ≡ some s)
        × (s.tenant_id ≡ tenant_id)
        × (s.chargebox_id ≡ chargebox_id)
        × (s.status ≡ linked)

    abbrev pub IsWaitingIn : World T → Type 0
    IsWaitingIn w' =
        (k : String) × (u : UnknownCharger) × (Unknown.get k w'.unknown ≡ some u)
        × (u.tenant_id ≡ tenant_id)
        × (u.chargebox_id ≡ chargebox_id)
        × (u.dismissed ≡ false)
        × (0 < u.attempt_count)

    found_station :
        (s : Station)
        → Stations.find (station_at tenant_id chargebox_id) w.stations ≡ some s
        → (Stations.get s.id w.stations ≡ some s)
          × (s.tenant_id ≡ tenant_id)
          × (s.chargebox_id ≡ chargebox_id)
    found_station s a =
        ground (arith, L.stations.find_sound (station_at tenant_id chargebox_id) w.stations s a)

    found_unknown :
        (u : UnknownCharger)
        → Unknown.find (unknown_at tenant_id chargebox_id) w.unknown ≡ some u
        → (Unknown.get u.id w.unknown ≡ some u)
          × (u.tenant_id ≡ tenant_id)
          × (u.chargebox_id ≡ chargebox_id)
    found_unknown u a =
        ground (arith, L.unknown.find_sound (unknown_at tenant_id chargebox_id) w.unknown u a)

    module _ (fresh : String) (now : ℕ) (free : Unknown.get fresh w.unknown ≡ none) where
      abbrev pub after : World T
      after = (reconcile_incoming_connection T tenant_id chargebox_id fresh now w).1

      linking :
          (s : Station)
          → Stations.find (station_at tenant_id chargebox_id) w.stations ≡ some s
          → s.status ≡ planned
          → (reconcile_incoming_connection T tenant_id chargebox_id fresh now w).1
            ≡ record w { stations = Stations.update s.id (link now) w.stations }
      unfolding reconcile_incoming_connection
      linking s a p = rw (a, p) refl

      staying :
          (s : Station)
          → Stations.find (station_at tenant_id chargebox_id) w.stations ≡ some s
          → s.status ≡ linked
          → (reconcile_incoming_connection T tenant_id chargebox_id fresh now w).1 ≡ w
      unfolding reconcile_incoming_connection
      staying s a p = rw (a, p) refl

      again :
          (u : UnknownCharger)
          → Stations.find (station_at tenant_id chargebox_id) w.stations ≡ none
          → Unknown.find (unknown_at tenant_id chargebox_id) w.unknown ≡ some u
          → (reconcile_incoming_connection T tenant_id chargebox_id fresh now w).1
            ≡ record w { unknown = Unknown.update u.id (seen_again now) w.unknown }
      unfolding reconcile_incoming_connection
      again u a b = rw (a, b) refl

      first :
          Stations.find (station_at tenant_id chargebox_id) w.stations ≡ none
          → Unknown.find (unknown_at tenant_id chargebox_id) w.unknown ≡ none
          → (reconcile_incoming_connection T tenant_id chargebox_id fresh now w).1 ≡ record w {
            unknown = Unknown.create (first_seen tenant_id chargebox_id fresh now) w.unknown;
          }
      unfolding reconcile_incoming_connection
      first a b = rw (a, b) refl

      links :
          (s : Station)
          → Stations.find (station_at tenant_id chargebox_id) w.stations ≡ some s
          → IsLinkedIn after
      links s a =
          let (here, t, c) = found_station s a in
          elim (StationStatus-cases s.status) [
            | inl p ↦ subst IsLinkedIn (sym (linking s a p)) (
              s.id,
              link now s,
              ground (arith, L.stations.get-update s.id s.id (link now) w.stations (λ r. refl)),
              t,
              c,
              refl,
            )
            | inr p ↦ subst IsLinkedIn (sym (staying s a p)) (s.id, s, here, t, c, p)
          ]

      lists :
          Stations.find (station_at tenant_id chargebox_id) w.stations ≡ none → IsWaitingIn after
      lists a = elim (Option-cases (Unknown.find (unknown_at tenant_id chargebox_id) w.unknown)) [
        | inl b ↦ subst IsWaitingIn (sym (first a b)) (
          fresh,
          first_seen tenant_id chargebox_id fresh now,
          ground (
            arith,
            L.unknown.get-create fresh (first_seen tenant_id chargebox_id fresh now) w.unknown free,
          ),
          refl,
          refl,
          refl,
          omega arith,
        )
        | inr (u, b) ↦
            let (here, t, c) = found_unknown u b in
            subst IsWaitingIn (sym (again u a b)) (
              u.id,
              seen_again now u,
              ground (arith, L.unknown.get-update u.id u.id (seen_again now) w.unknown (λ r. refl)),
              t,
              c,
              refl,
              omega arith,
            )
      ]

      -- Where the id of a new row is free, a charge point that connects is afterwards a linked
      -- station of the tenant, or is listed as unknown, not dismissed, with an attempt counted.
      pub reconcile_records : IsLinkedIn after ⊎ IsWaitingIn after
      reconcile_records =
          elim (Option-cases (Stations.find (station_at tenant_id chargebox_id) w.stations)) [
            | inl a ↦ inr (lists a)
            | inr (s, a) ↦ inl (links s a)
          ]

  module _ (v : IsTidy T w) (tenant_id unknown_charger_id station_id : String) (now : ℕ)
      (u : UnknownCharger) (s : Station)
      (waiting : Unknown.find
          (λ u. u.id == unknown_charger_id && u.tenant_id == tenant_id)
          w.unknown
        ≡ some u)
      (target : Stations.find (λ s. s.id == station_id && s.tenant_id == tenant_id) w.stations
        ≡ some s) where
    charger : (Unknown.get u.id w.unknown ≡ some u) × (u.tenant_id ≡ tenant_id)
    charger = ground (
      arith,
      L.unknown.find_sound (λ u. u.id == unknown_charger_id && u.tenant_id == tenant_id) w.unknown u
          waiting,
    )

    no_clash : clashes T s (Stations.find (station_at tenant_id u.chargebox_id) w.stations) ≡ false
    unfolding assign_to_station
    no_clash = rw (
        find_nothing Stations L.stations (station_at tenant_id u.chargebox_id) w.stations
          (λ j q h. ground (arith, charger, v.not_both j u.id q u h)))

    station_moves :
        Stations.get s.id (
          Stations.update s.id
            (link now)
            (Stations.update s.id (move_to u.chargebox_id) w.stations))
        ≡ some (link now (move_to u.chargebox_id s))
    station_moves = ground (
      arith,
      L.stations.find_sound (λ s. s.id == station_id && s.tenant_id == tenant_id) w.stations s
          target,
      L.stations.get-update s.id s.id (move_to u.chargebox_id) w.stations (λ r. refl),
      L.stations.get-update s.id s.id (link now)
          (Stations.update s.id (move_to u.chargebox_id) w.stations) (λ r. refl),
    )

    -- On tidy tables an assignment of a waiting charge point to a station of the tenant succeeds:
    -- the station has its charge-box id and is linked as of now, its tenant, its place and its
    -- label stay, and the charge point waits no longer.
    pub assign_moves :
        (w' : World T) × (assign_to_station T tenant_id unknown_charger_id station_id now w
          ≡ (ok tt, w'))
        × ((q : Station) × (Stations.get s.id w'.stations ≡ some q)
            × (q.chargebox_id ≡ u.chargebox_id)
            × (q.status ≡ linked)
            × (q.linked_at ≡ some now)
            × (q.tenant_id ≡ s.tenant_id)
            × (q.location_id ≡ s.location_id)
            × (q.label ≡ s.label))
        × (Unknown.find (unknown_at tenant_id u.chargebox_id) w'.unknown ≡ none)
    unfolding assign_to_station
    assign_moves = (
      record w {
        stations =
            Stations.update s.id (link now)
              (Stations.update s.id (move_to u.chargebox_id) w.stations);
        unknown = Unknown.remove (unknown_at tenant_id u.chargebox_id) w.unknown;
      },
      rw (waiting, target, no_clash),
      (link now (move_to u.chargebox_id s), station_moves, refl, refl, refl, refl, refl, refl),
      find_nothing Unknown L.unknown _ _ (λ j q h.
          ground (arith, L.unknown.get-remove j (unknown_at tenant_id u.chargebox_id) w.unknown)),
    )
