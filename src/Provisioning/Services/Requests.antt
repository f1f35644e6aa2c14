-- ===== src/Provisioning/Services/Requests.antt =====
-- Histories of requests and connections, in any order.
use vibe_ocpp.Prelude.{ℕ, String, ◌≡◌, refl, none, arith, inl, inr, Option-cases, ◌==◌, ◌&&◌}
use vibe_ocpp.Database.{update_row}
use vibe_ocpp.Provisioning.Rows.{
  CreateLocationDto, UpdateLocationDto, CreateStationDto, CreateConnectorDto,
}
use vibe_ocpp.Provisioning.Contents.{located, relocated, seen_again, dismissed_at}
use vibe_ocpp.Provisioning.Reconciliation.{Tables, World, reconcile_incoming_connection}
use vibe_ocpp.Provisioning.Services.{
  create, update, remove, create_station, create_connector, assign_to_station, dismiss,
}
use vibe_ocpp.Provisioning.Services.Cases.{
  reconcile_cases, create_station_cases, assign_cases, dismiss_cases, remove_cases,
}
use vibe_ocpp.Provisioning.Services.Invariant.{
  AllLaws, IsTidy, link-IsTidy, seen-IsTidy, first_seen-IsTidy, remove-IsTidy,
}
use vibe_ocpp.Provisioning.Services.Planning.{create-IsTidy, adopt-IsTidy, assign-IsTidy}

module _ (T : Tables) where
  open T use {Locations, Stations, Connectors, Unknown}

  -- What can happen to the tables. A new row has an id that is free.
  pub data Step (w w' : World T) : Type 0 where
    connects :
        (tenant_id chargebox_id fresh : String) (now : ℕ)
        → Unknown.get fresh w.unknown ≡ none
        → w' ≡ (reconcile_incoming_connection T tenant_id chargebox_id fresh now w).1
        → Step w w'
    creates_location :
        (tenant_id : String) (dto : CreateLocationDto) (fresh : String)
        → Locations.get fresh w.locations ≡ none
        → w' ≡ (create T tenant_id dto fresh w).1
        → Step w w'
    updates_location :
        (tenant_id id : String) (dto : UpdateLocationDto)
        → w' ≡ (update T tenant_id id dto w).1
        → Step w w'
    removes_location : (tenant_id id : String) → w' ≡ (remove T tenant_id id w).1 → Step w w'
    creates_station :
        (tenant_id location_id : String) (dto : CreateStationDto) (fresh : String) (now : ℕ)
        → Stations.get fresh w.stations ≡ none
        → w' ≡ (create_station T tenant_id location_id dto fresh now w).1
        → Step w w'
    creates_connector :
        (tenant_id station_id : String) (dto : CreateConnectorDto) (fresh : String)
        → w' ≡ (create_connector T tenant_id station_id dto fresh w).1
        → Step w w'
    assigns :
        (tenant_id unknown_charger_id station_id : String) (now : ℕ)
        → w' ≡ (assign_to_station T tenant_id unknown_charger_id station_id now w).1
        → Step w w'
    dismisses :
        (tenant_id id : String) (now : ℕ) → w' ≡ (dismiss T tenant_id id now w).1 → Step w w'

  pub data Reach (w : World T) : World T → Type 0 where
    here : Reach w w
    next : {u x : World T} → Reach w u → Step u x → Reach w x

  module _ (L : AllLaws T) where
    same_rows :
        (w w' : World T)
        → w'.locations ≡ w.locations
        → w'.stations ≡ w.stations
        → w'.unknown ≡ w.unknown
        → IsTidy T w
        → IsTidy T w'
    same_rows w w' a b c v = record {
      planned_once = rw b v.planned_once;
      waits_once = rw c v.waits_once;
      not_both = rw (b, c) v.not_both;
      dated = rw b v.dated;
      housed = rw (a, b) v.housed;
      at_home = rw (a, b) v.at_home;
    }

    create_location-IsTidy :
        (w : World T) (tenant_id : String) (dto : CreateLocationDto) (fresh : String)
        → Locations.get fresh w.locations ≡ none
        → IsTidy T w
        → IsTidy T (create T tenant_id dto fresh w).1
    unfolding create
    create_location-IsTidy w tenant_id dto fresh free v = record {
      planned_once = v.planned_once;
      waits_once = v.waits_once;
      not_both = v.not_both;
      dated = v.dated;
      housed = λ k s h. ground (
        arith,
        L.locations.get-create s.location_id (located tenant_id dto fresh) w.locations free,
        v.housed k s h,
      );
      at_home = λ k s l h g. ground (
        arith,
        L.locations.get-create s.location_id (located tenant_id dto fresh) w.locations free,
        v.housed k s h,
        v.at_home k s l h,
      );
    }

    relocate-IsTidy :
        (w : World T) (id : String) (dto : UpdateLocationDto)
        → IsTidy T w
        → IsTidy T (record w { locations = Locations.update id (relocated dto) w.locations })
    unfolding relocated
    relocate-IsTidy w id dto v = record {
      planned_once = v.planned_once;
      waits_once = v.waits_once;
      not_both = v.not_both;
      dated = v.dated;
      housed = λ k s h. elim (Option-cases (Locations.get s.location_id w.locations)) [
        | inl e ↦ absurd (v.housed k s h e)
        | inr (l, e) ↦
            ground (
              arith,
              L.locations.get-update s.location_id id (relocated dto) w.locations (λ r. refl),
            )
      ];
      at_home = λ k s l h g. elim (Option-cases (Locations.get s.location_id w.locations)) [
        | inl e ↦ absurd (v.housed k s h e)
        | inr (m, e) ↦ ground (
          arith,
          L.locations.get-update s.location_id id (relocated dto) w.locations (λ r. refl),
          v.at_home k s m h e,
        )
      ];
    }

    update-IsTidy :
        (w : World T) (tenant_id id : String) (dto : UpdateLocationDto)
        → IsTidy T w
        → IsTidy T (update T tenant_id id dto w).1
    unfolding update
    update-IsTidy w tenant_id id dto v =
        elim (Option-cases
          (Locations.find (λ l. l.id == id && l.tenant_id == tenant_id) w.locations)) [
            | inl a ↦ rw a v
            | inr (l, a) ↦ elim (Option-cases (Locations.get id w.locations)) [
              | inl b ↦ rw (a, update_row, b) v
              | inr (m, b) ↦ rw (a, update_row, b) (relocate-IsTidy w id dto v)
            ]
          ]

    create_connector-IsTidy :
        (w : World T) (tenant_id station_id : String) (dto : CreateConnectorDto) (fresh : String)
        → IsTidy T w
        → IsTidy T (create_connector T tenant_id station_id dto fresh w).1
    unfolding create_connector
    create_connector-IsTidy w tenant_id station_id dto fresh v =
        same_rows w _ (ground arith) (ground arith) (ground arith) v

    -- Every request and every connection keeps the tables tidy.
    pub Step-IsTidy : (w w' : World T) → Step w w' → IsTidy T w → IsTidy T w'
    Step-IsTidy w w' (connects tenant_id chargebox_id fresh now free e) v = rw e (
        reconcile_cases T (IsTidy T) w v tenant_id chargebox_id fresh now
          (λ s _ _. link-IsTidy T L w v s.id now)
          (λ u _ _. seen-IsTidy T L w v (seen_again now) (λ r. refl) (λ r. refl) (λ r. refl) u.id)
          (λ a b. first_seen-IsTidy T L w v tenant_id chargebox_id fresh now free a b))
    Step-IsTidy w w' (creates_location tenant_id dto fresh free e) v =
        rw e (create_location-IsTidy w tenant_id dto fresh free v)
    Step-IsTidy w w' (updates_location tenant_id id dto e) v =
        rw e (update-IsTidy w tenant_id id dto v)
    Step-IsTidy w w' (removes_location tenant_id id e) v = rw e (
        remove_cases T (IsTidy T) w v tenant_id id
          (λ l a b. remove-IsTidy T L w v tenant_id id l a b))
    Step-IsTidy w w' (creates_station tenant_id location_id dto fresh now free e) v = rw e (
        create_station_cases T (IsTidy T) w v tenant_id location_id dto fresh now
          (λ l a b c. create-IsTidy T L w v tenant_id location_id dto fresh l free a b c)
          (λ l u a b c. adopt-IsTidy T L w v tenant_id location_id dto fresh l free a b now))
    Step-IsTidy w w' (creates_connector tenant_id station_id dto fresh e) v =
        rw e (create_connector-IsTidy w tenant_id station_id dto fresh v)
    Step-IsTidy w w' (assigns tenant_id unknown_charger_id station_id now e) v = rw e (
        assign_cases T (IsTidy T) w v tenant_id unknown_charger_id station_id now
          (λ u s a b c. assign-IsTidy T L w v tenant_id unknown_charger_id station_id now u s a b))
    Step-IsTidy w w' (dismisses tenant_id id now e) v = rw e (
        dismiss_cases T (IsTidy T) w v tenant_id id now
          (seen-IsTidy T L w v (dismissed_at now) (λ r. refl) (λ r. refl) (λ r. refl) id))

    -- After any sequence of requests and connections that starts from tidy tables, in any order,
    -- the tables are tidy: a charge point is planned once or waits once, and never both.
    pub Reach-IsTidy : (w w' : World T) → Reach w w' → IsTidy T w → IsTidy T w'
    Reach-IsTidy w w' here v = v
    Reach-IsTidy w w' (next {u} r s) v = Step-IsTidy u w' s (Reach-IsTidy w u r v)
