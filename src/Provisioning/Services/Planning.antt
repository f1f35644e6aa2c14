-- ===== src/Provisioning/Services/Planning.antt =====
-- Planning a station and assigning a live charge point keep `IsTidy`.
use vibe_ocpp.Prelude.{ℕ, String, ◌≡◌, ◌≢◌, refl, none, some, arith, ◌⊎◌, ◌==◌, ◌&&◌}
use vibe_ocpp.Provisioning.Rows.{Location, Station, UnknownCharger, CreateStationDto}
use vibe_ocpp.Provisioning.Contents.{link, new_station, move_to, station_at, unknown_at}
use vibe_ocpp.Provisioning.Reconciliation.{Tables, World}
use vibe_ocpp.Provisioning.Services.Invariant.{AllLaws, IsTidy, change_at}

module _ (T : Tables) (L : AllLaws T) (w : World T) (v : IsTidy T w) where
  open T use {Locations, Stations, Unknown}

  left :
      (tenant_id chargebox_id k : String) (u : UnknownCharger)
      → Unknown.get k (Unknown.remove (unknown_at tenant_id chargebox_id) w.unknown) ≡ some u
      → (Unknown.get k w.unknown ≡ some u)
        × ((u.tenant_id ≢ tenant_id) ⊎ (u.chargebox_id ≢ chargebox_id))
  left tenant_id chargebox_id k u h =
      ground (arith, L.unknown.get-remove k (unknown_at tenant_id chargebox_id) w.unknown)

  module _ (tenant_id location_id : String) (dto : CreateStationDto) (fresh : String) (l : Location)
      (free : Stations.get fresh w.stations ≡ none)
      (house : Locations.find (λ l. l.id == location_id && l.tenant_id == tenant_id) w.locations
        ≡ some l)
      (unplanned : Stations.find (station_at tenant_id dto.chargebox_id) w.stations ≡ none) where
    abbrev station : Station
    station = new_station tenant_id location_id dto fresh

    created :
        (k : String) (s : Station)
        → Stations.get k (Stations.create station w.stations) ≡ some s
        → ((k ≡ fresh) × (s ≡ station)) ⊎ ((k ≢ fresh) × (Stations.get k w.stations ≡ some s))
    created k s h = ground (arith, L.stations.get-create k station w.stations free)

    no_rival :
        (k : String) (s : Station)
        → Stations.get k w.stations ≡ some s
        → s.tenant_id ≡ tenant_id
        → s.chargebox_id ≢ dto.chargebox_id
    no_rival k s h = ground (
      arith,
      L.stations.find_complete (station_at tenant_id dto.chargebox_id) w.stations k s unplanned h,
    )

    home : (Locations.get location_id w.locations ≡ some l) × (l.tenant_id ≡ tenant_id)
    home = ground (
      arith,
      L.locations.find_sound (λ l. l.id == location_id && l.tenant_id == tenant_id) w.locations l
          house,
    )

    pub create-IsTidy :
        Unknown.find (unknown_at tenant_id dto.chargebox_id) w.unknown ≡ none
        → IsTidy T (record w { stations = Stations.create station w.stations })
    create-IsTidy unseen = record {
      planned_once = λ k j r q h g a b.
          ground (
            arith,
            created k r h,
            created j q g,
            no_rival k r,
            no_rival j q,
            v.planned_once k j r q,
          );
      waits_once = v.waits_once;
      not_both = λ k j s u h g a b. ground (
        arith,
        created k s h,
        v.not_both k j s u,
        L.unknown.find_complete (unknown_at tenant_id dto.chargebox_id) w.unknown j u unseen g,
      );
      dated = λ k s h. ground (arith, created k s h, v.dated k s);
      housed = λ k s h e. ground (arith, created k s h, v.housed k s, home);
      at_home = λ k s m h e. ground (arith, created k s h, v.at_home k s m, home);
    }

    adopted_at :
        (now : ℕ) (k : String) (s : Station)
        → Stations.get k (Stations.update fresh (link now) (Stations.create station w.stations))
          ≡ some s
        → ((k ≡ fresh) × (s ≡ link now station))
          ⊎ ((k ≢ fresh) × (Stations.get k w.stations ≡ some s))
    adopted_at now k s h =
        let (q, e, c) =
          change_at T L w v fresh (link now) (Stations.create station w.stations) k s (λ r. refl)
            h in
        ground (arith, c, created k q e)

    pub adopt-IsTidy :
        (now : ℕ)
        → IsTidy T (record w {
          stations = Stations.update fresh (link now) (Stations.create station w.stations);
          unknown = Unknown.remove (unknown_at tenant_id dto.chargebox_id) w.unknown;
        })
    adopt-IsTidy now = record {
      planned_once = λ k j r q h g a b. ground (
        arith,
        adopted_at now k r h,
        adopted_at now j q g,
        no_rival k r,
        no_rival j q,
        v.planned_once k j r q,
      );
      waits_once = λ k j r q h g.
          v.waits_once k j r q (left tenant_id dto.chargebox_id k r h).0
            (left tenant_id dto.chargebox_id j q g).0;
      not_both = λ k j s u h g a b.
          ground (
            arith,
            adopted_at now k s h,
            v.not_both k j s u,
            left tenant_id dto.chargebox_id j u g,
          );
      dated = λ k s h. ground (arith, adopted_at now k s h, v.dated k s);
      housed = λ k s h e. ground (arith, adopted_at now k s h, v.housed k s, home);
      at_home = λ k s m h e. ground (arith, adopted_at now k s h, v.at_home k s m, home);
    }

  module _ (tenant_id unknown_charger_id station_id : String) (now : ℕ) (u : UnknownCharger)
      (s : Station)
      (waiting : Unknown.find
          (λ u. u.id == unknown_charger_id && u.tenant_id == tenant_id)
          w.unknown
        ≡ some u)
      (target : Stations.find (λ s. s.id == station_id && s.tenant_id == tenant_id) w.stations
        ≡ some s) where
    abbrev moved_stations : Stations.Store
    moved_stations =
        Stations.update s.id (link now) (Stations.update s.id (move_to u.chargebox_id) w.stations)

    old_charger : (Unknown.get u.id w.unknown ≡ some u) × (u.tenant_id ≡ tenant_id)
    old_charger = ground (
      arith,
      L.unknown.find_sound (λ u. u.id == unknown_charger_id && u.tenant_id == tenant_id) w.unknown u
          waiting,
    )

    old_station : (Stations.get s.id w.stations ≡ some s) × (s.tenant_id ≡ tenant_id)
    old_station = ground (
      arith,
      L.stations.find_sound (λ s. s.id == station_id && s.tenant_id == tenant_id) w.stations s
          target,
    )

    moved_at :
        (k : String) (r : Station)
        → Stations.get k moved_stations ≡ some r
        → ((k ≡ s.id) × (r ≡ link now (move_to u.chargebox_id s)))
          ⊎ ((k ≢ s.id) × (Stations.get k w.stations ≡ some r))
    moved_at k r h =
        let (q, e, c) =
          change_at T L w v s.id (link now)
            (Stations.update s.id (move_to u.chargebox_id) w.stations) k r (λ r. refl) h in
        let (p, e', c') =
          change_at T L w v s.id (move_to u.chargebox_id) w.stations k q (λ r. refl) e in
        ground (arith, c, c', old_station)

    no_clash :
        (k : String) (r : Station)
        → Stations.get k w.stations ≡ some r
        → r.tenant_id ≡ tenant_id
        → r.chargebox_id ≢ u.chargebox_id
    no_clash k r h t = v.not_both k u.id r u h old_charger.0 (ground (arith, old_charger))

    pub assign-IsTidy : IsTidy T (record w {
      stations = moved_stations;
      unknown = Unknown.remove (unknown_at tenant_id u.chargebox_id) w.unknown;
    })
    assign-IsTidy = record {
      planned_once = λ k j r q h g a b. ground (
        arith,
        moved_at k r h,
        moved_at j q g,
        no_clash k r,
        no_clash j q,
        v.planned_once k j r q,
        old_station,
      );
      waits_once = λ k j r q h g.
          v.waits_once k j r q (left tenant_id u.chargebox_id k r h).0
            (left tenant_id u.chargebox_id j q g).0;
      not_both = λ k j r x h g a b. ground (
        arith,
        moved_at k r h,
        v.not_both k j r x,
        left tenant_id u.chargebox_id j x g,
        old_station,
      );
      dated = λ k r h. ground (arith, moved_at k r h, v.dated k r);
      housed =
          λ k r h e. ground (arith, moved_at k r h, v.housed k r, v.housed s.id s, old_station);
      at_home = λ k r m h e.
          ground (arith, moved_at k r h, v.at_home k r m, v.at_home s.id s m, old_station);
    }
