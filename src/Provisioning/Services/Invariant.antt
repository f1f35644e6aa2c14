-- ===== src/Provisioning/Services/Invariant.antt =====
-- What holds of the stations and chargers whatever is requested.
use vibe_ocpp.Prelude.{
  ℕ, String, ◌≡◌, ◌≢◌, refl, none, some, arith, ◌⊎◌, inl, inr, Option-cases, false, length, ltb,
  ◌==◌, ◌&&◌,
}
use vibe_ocpp.Database.{TableLaws}
use vibe_ocpp.Database.Lookup.{list_nothing}
use vibe_ocpp.Provisioning.Rows.{Location, Station, planned, linked, UnknownCharger}
use vibe_ocpp.Provisioning.Contents.{first_seen, link, station_at, unknown_at}
use vibe_ocpp.Provisioning.Reconciliation.{Tables, World}

pub record AllLaws (T : Tables) : Type 0 where
  pub locations : TableLaws T.Locations
  pub stations : TableLaws T.Stations
  pub connectors : TableLaws T.Connectors
  pub unknown : TableLaws T.Unknown

module _ (T : Tables) where
  open T use {Locations, Stations, Connectors, Unknown}

  -- A charge point is planned once, or waits once among the unknown chargers, and never both; a
  -- station has a time of linking exactly when it is linked, and a location of its own tenant.
  pub record IsTidy (w : World T) : Type 0 where
    pub planned_once :
        (k j : String) (r q : Station)
        → Stations.get k w.stations ≡ some r
        → Stations.get j w.stations ≡ some q
        → r.tenant_id ≡ q.tenant_id
        → r.chargebox_id ≡ q.chargebox_id
        → k ≡ j
    pub waits_once :
        (k j : String) (r q : UnknownCharger)
        → Unknown.get k w.unknown ≡ some r
        → Unknown.get j w.unknown ≡ some q
        → r.tenant_id ≡ q.tenant_id
        → r.chargebox_id ≡ q.chargebox_id
        → k ≡ j
    pub not_both :
        (k j : String) (s : Station) (u : UnknownCharger)
        → Stations.get k w.stations ≡ some s
        → Unknown.get j w.unknown ≡ some u
        → s.tenant_id ≡ u.tenant_id
        → s.chargebox_id ≢ u.chargebox_id
    pub dated :
        (k : String) (s : Station)
        → Stations.get k w.stations ≡ some s
        → (s.status ≡ linked → s.linked_at ≢ none) × (s.status ≡ planned → s.linked_at ≡ none)
    pub housed :
        (k : String) (s : Station)
        → Stations.get k w.stations ≡ some s
        → Locations.get s.location_id w.locations ≢ none
    pub at_home :
        (k : String) (s : Station) (l : Location)
        → Stations.get k w.stations ≡ some s
        → Locations.get s.location_id w.locations ≡ some l
        → s.tenant_id ≡ l.tenant_id

  module _ (L : AllLaws T) (w : World T) (v : IsTidy w) where
    -- A row after an update is as it was, or the new version of what stood there.
    pub change_at :
        (id : String) (f : Station → Station) (st : Stations.Store) (k : String) (s : Station)
        → ((r : Station) → (f r).id ≡ r.id)
        → Stations.get k (Stations.update id f st) ≡ some s
        → (q : Station) × (Stations.get k st ≡ some q)
          × (((k ≢ id) × (s ≡ q)) ⊎ ((k ≡ id) × (s ≡ f q)))
    change_at id f st k s same_id h = elim (Option-cases (Stations.get k st)) [
      | inl e ↦ ground (arith, L.stations.get-update k id f st same_id)
      | inr (q, e) ↦ (q, e, ground (arith, L.stations.get-update k id f st same_id))
    ]

    -- Rows that say the same but for the status and its time.
    abbrev IsSameStation : Station → Station → Type 0
    IsSameStation s q =
        (s.tenant_id ≡ q.tenant_id)
        × (s.location_id ≡ q.location_id)
        × (s.chargebox_id ≡ q.chargebox_id)
        × ((s.status ≡ linked → s.linked_at ≢ none) × (s.status ≡ planned → s.linked_at ≡ none))

    linking :
        (id : String) (now : ℕ) (k : String) (s : Station)
        → Stations.get k (Stations.update id (link now) w.stations) ≡ some s
        → (q : Station) × (Stations.get k w.stations ≡ some q) × IsSameStation s q
    linking id now k s h =
        let (q, e, c) = change_at id (link now) w.stations k s (λ r. refl) h in
        (q, e, ground (arith, c, v.dated k q e))

    pub link-IsTidy :
        (id : String) (now : ℕ)
        → IsTidy (record w { stations = Stations.update id (link now) w.stations })
    link-IsTidy id now = record {
      planned_once = λ k j r q h g a b.
          let (r', er, cr) = linking id now k r h in
          let (q', eq, cq) = linking id now j q g in v.planned_once k j r' q' er eq (cc) (cc);
      waits_once = v.waits_once;
      not_both = λ k j s u h g a b.
          let (q, e, c) = linking id now k s h in v.not_both k j q u e g (cc) (cc);
      dated = λ k s h. (linking id now k s h).2.3;
      housed = λ k s h. let (q, e, c) = linking id now k s h in ground (arith, c, v.housed k q e);
      at_home =
          λ k s l h g. let (q, e, c) = linking id now k s h in ground (arith, c, v.at_home k q l e);
    }

    module _ (f : UnknownCharger → UnknownCharger)
        (same_id : (r : UnknownCharger) → (f r).id ≡ r.id)
        (same_tenant : (r : UnknownCharger) → (f r).tenant_id ≡ r.tenant_id)
        (same_chargebox : (r : UnknownCharger) → (f r).chargebox_id ≡ r.chargebox_id) where
      waiting :
          (id k : String) (u : UnknownCharger)
          → Unknown.get k (Unknown.update id f w.unknown) ≡ some u
          → (q : UnknownCharger) × (Unknown.get k w.unknown ≡ some q)
            × (u.tenant_id ≡ q.tenant_id)
            × (u.chargebox_id ≡ q.chargebox_id)
      waiting id k u h = elim (Option-cases (Unknown.get k w.unknown)) [
        | inl e ↦ ground (arith, L.unknown.get-update k id f w.unknown same_id)
        | inr (q, e) ↦ (
          q,
          e,
          ground (arith, L.unknown.get-update k id f w.unknown same_id, same_tenant q),
          ground (arith, L.unknown.get-update k id f w.unknown same_id, same_chargebox q),
        )
      ]

      pub seen-IsTidy :
          (id : String) → IsTidy (record w { unknown = Unknown.update id f w.unknown })
      seen-IsTidy id = record {
        planned_once = v.planned_once;
        waits_once = λ k j r q h g a b.
            let (r', er, tr, cr) = waiting id k r h in
            let (q', eq, tq, cq) = waiting id j q g in v.waits_once k j r' q' er eq (cc) (cc);
        not_both = λ k j s u h g a b.
            let (q, e, t, c) = waiting id j u g in v.not_both k j s q h e (cc) (cc);
        dated = v.dated;
        housed = v.housed;
        at_home = v.at_home;
      }

    pub first_seen-IsTidy :
        (tenant_id chargebox_id fresh : String) (now : ℕ)
        → Unknown.get fresh w.unknown ≡ none
        → Stations.find (station_at tenant_id chargebox_id) w.stations ≡ none
        → Unknown.find (unknown_at tenant_id chargebox_id) w.unknown ≡ none
        → IsTidy (record w {
          unknown = Unknown.create (first_seen tenant_id chargebox_id fresh now) w.unknown;
        })
    first_seen-IsTidy tenant_id chargebox_id fresh now free no_station no_unknown = record {
      planned_once = v.planned_once;
      waits_once = λ k j r q h g a b. ground (
        arith,
        L.unknown.get-create k (first_seen tenant_id chargebox_id fresh now) w.unknown free,
        L.unknown.get-create j (first_seen tenant_id chargebox_id fresh now) w.unknown free,
        L.unknown.find_complete (unknown_at tenant_id chargebox_id) w.unknown k r no_unknown,
        L.unknown.find_complete (unknown_at tenant_id chargebox_id) w.unknown j q no_unknown,
        v.waits_once k j r q,
      );
      not_both = λ k j s u h g a b. ground (
        arith,
        L.unknown.get-create j (first_seen tenant_id chargebox_id fresh now) w.unknown free,
        L.stations.find_complete (station_at tenant_id chargebox_id) w.stations k s no_station h,
        v.not_both k j s u h,
      );
      dated = v.dated;
      housed = v.housed;
      at_home = v.at_home;
    }

    pub remove-IsTidy :
        (tenant_id id : String) (l : Location)
        → Locations.find (λ l. l.id == id && l.tenant_id == tenant_id) w.locations ≡ some l
        → ltb 0 (length (Stations.list (λ s. s.location_id == l.id) w.stations)) ≡ false
        → IsTidy (record w { locations = Locations.remove (λ l. l.id == id) w.locations })
    remove-IsTidy tenant_id id l found empty = record {
      planned_once = v.planned_once;
      waits_once = v.waits_once;
      not_both = v.not_both;
      dated = v.dated;
      housed = λ k s h. elim (Option-cases (Locations.get s.location_id w.locations)) [
        | inl e ↦ absurd (v.housed k s h e)
        | inr (m, e) ↦ ground (
          arith,
          L.locations.find_sound (λ l. l.id == id && l.tenant_id == tenant_id) w.locations l found,
          list_nothing Stations L.stations (λ s. s.location_id == l.id) w.stations k s empty h,
          L.locations.get-remove s.location_id (λ l. l.id == id) w.locations,
          L.locations.get_id s.location_id w.locations m e,
        )
      ];
      at_home = λ k s m h g. ground (
        arith,
        L.locations.get-remove s.location_id (λ l. l.id == id) w.locations,
        v.at_home k s m h,
      );
    }
