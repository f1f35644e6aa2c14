-- ===== src/Payment/Service/Creation.antt =====
-- `createLocation` of backend/src/payment/payment-data.service.ts.
use vibe_ocpp.Prelude.{
  ℕ, ap, ◌∙◌, inl, inr, String, ◌≡◌, refl, true, none, some, ◌⊎◌, arith, Result, ok, nat_eq,
  if◌then◌else◌,
}
use vibe_ocpp.Payment.Types.{Location, LocationInput}
use vibe_ocpp.Payment.Rows.{LocationRow, row_to_location, inserted_location}
use vibe_ocpp.Payment.Crud.{SqlTable, SqlLaws, Pools, put}
use vibe_ocpp.Payment.Crud.Laws.{select_found, insert_done, insert_thrown, put_same}
use vibe_ocpp.Payment.Crud.Laws.{Result-cases, IsRefused}
use vibe_ocpp.Payment.Service.{get_location, create_location}

module _ (get_pool : String → Result String) (tenant_id pool : String)
    (connected : get_pool tenant_id ≡ ok pool) where
  module _ (T : SqlTable LocationRow (λ r. r.id)) (L : SqlLaws T) (w : Pools T get_pool) where
    created :
        (input : LocationInput) (n other : ℕ)
        → (T.insert (inserted_location input) (w pool)).0 ≡ ok n
        → T.select other
            (put T get_pool pool ((T.insert (inserted_location input) (w pool)).1) w pool)
          ≡ (if nat_eq n other then some (inserted_location input n) else T.select other (w pool))
    unfolding inserted_location
    created input n other o = ground (
      arith,
      put_same T L get_pool row_to_location "" tenant_id pool connected other
          ((T.insert (inserted_location input) (w pool)).1) w,
      L.select-insert other (inserted_location input) n (w pool) o (λ m. refl),
    )

    -- The location that is answered has an id that was free and the fields of the input, is found
    -- under its id, and no other row of the pool changes.
    abbrev pub Creates : LocationInput → Type 0
    Creates input =
        (w' : Pools T get_pool) × (l : Location) × (create_location get_pool T tenant_id input w
          ≡ (ok l, w'))
        × ((get_location get_pool T tenant_id l.id w').0 ≡ ok l)
        × (T.select l.id (w pool) ≡ none)
        × (l.location_id ≡ input.location_id)
        × (l.address ≡ input.address)
        × (l.postal_code ≡ input.postal_code)
        × (l.city ≡ input.city)
        × (l.state ≡ input.state)
        × (l.country ≡ input.country)
        × (l.operator_id ≡ input.operator_id)
        × ((other : ℕ)
            → nat_eq l.id other ≡ true ⊎ (T.select other (w' pool) ≡ T.select other (w pool)))

    creates :
        (input : LocationInput) (n : ℕ)
        → (T.insert (inserted_location input) (w pool)).0 ≡ ok n
        → Creates input
    unfolding create_location get_location row_to_location inserted_location
    creates input n o = (
      put T get_pool pool ((T.insert (inserted_location input) (w pool)).1) w,
      row_to_location (inserted_location input n),
      insert_done T L get_pool row_to_location "" tenant_id pool connected (inserted_location input)
          n w o,
      select_found T L get_pool row_to_location "Location not found" tenant_id pool connected _
          (inserted_location input n) _ (ground (arith, created input n n o)),
      L.insert_fresh (inserted_location input) n (w pool) o,
      refl,
      refl,
      refl,
      refl,
      refl,
      refl,
      refl,
      λ other. ground (arith, created input n other o),
    )

    -- For a tenant that has a pool, a created location has an id that was free, is found under it
    -- with the fields of the input, and no other row of the pool changes; or PostgreSQL refuses
    -- it: then its error is thrown, and no row changes.
    pub create_location-get_location :
        (input : LocationInput)
        → IsRefused T get_pool pool w
            ((T.insert (inserted_location input) (w pool)).0)
            (create_location get_pool T tenant_id input w)
          ⊎ Creates input
    unfolding create_location
    create_location-get_location input =
        elim (Result-cases ((T.insert (inserted_location input) (w pool)).0)) [
          | inl (e, o) ↦
              let thrown =
                insert_thrown T L get_pool row_to_location "" tenant_id pool connected
                  (inserted_location input) e w o in
              inl (
                e,
                o,
                ap (λ c. c.0) thrown,
                λ other. rw (ap (λ c. c.1) thrown) (
                    put_same T L get_pool row_to_location "" tenant_id pool connected other _ w
                    ∙ L.insert_refused other (inserted_location input) e (w pool) o),
              )
          | inr (n, o) ↦ inr (creates input n o)
        ]
