-- ===== src/Payment/Service/Laws.antt =====
-- What the methods of the payment service's configuration promise.
use vibe_ocpp.Prelude.{
  ℕ, ◌≤◌, min, Error, ap, ◌∙◌, inl, inr, String, ◌≡◌, refl, true, Option, none, some, is_some, List,
  map, ◌⊎◌, length, length-map, arith, Result, ok, err, nat_eq, if◌then◌else◌,
}
use mathlib.Core.Path.{subst}
use vibe_ocpp.Payment.Types.{TariffInput, TariffPatch, Checkout}
use vibe_ocpp.Payment.Rows.{
  coalesce, TariffRow, row_to_tariff, inserted_tariff, patched_tariff, CheckoutRow, row_to_checkout,
}
use vibe_ocpp.Payment.Crud.{SqlTable, SqlLaws, Pools, put}
use vibe_ocpp.Payment.Crud.Laws.{select_found, update_found, update_thrown, newest_done, put_same}
use vibe_ocpp.Payment.Crud.Laws.{Result-cases, IsRefused}
use vibe_ocpp.Payment.Service.{get_tariff, update_tariff, list_checkouts}

-- An update that names every column, its optional ones included.
abbrev pub full : TariffInput → TariffPatch
full input = record {
  price_kwh = input.price_kwh;
  price_minute = input.price_minute;
  price_session = input.price_session;
  currency = some input.currency;
  tax_rate = some input.tax_rate;
  authorization_amount = some input.authorization_amount;
  payment_fee = some input.payment_fee;
  stripe_price_id = input.stripe_price_id;
}

abbrev pub nothing : TariffPatch
nothing = record {
  price_kwh = none;
  price_minute = none;
  price_session = none;
  currency = none;
  tax_rate = none;
  authorization_amount = none;
  payment_fee = none;
  stripe_price_id = none;
}

coalesce_given : {A : Type 0} (new old : Option A) → is_some new ≡ true → coalesce new old ≡ new
coalesce_given none old h = ground (arith, h)
coalesce_given (some a) old h = refl

overwritten :
    (input : TariffInput) (id : ℕ) (r : TariffRow)
    → r.id ≡ id
    → is_some input.price_kwh ≡ true
    → is_some input.price_minute ≡ true
    → is_some input.price_session ≡ true
    → is_some input.stripe_price_id ≡ true
    → patched_tariff (full input) r ≡ inserted_tariff input id
unfolding patched_tariff inserted_tariff
overwritten input id r same kwh minute session price =
    rw
      (
        same,
        coalesce_given input.price_kwh r.price_kwh kwh,
        coalesce_given input.price_minute r.price_minute minute,
        coalesce_given input.price_session r.price_session session,
        coalesce_given input.stripe_price_id r.stripe_price_id price,
      )
      refl

module _ (get_pool : String → Result String) (tenant_id pool : String)
    (connected : get_pool tenant_id ≡ ok pool) where
  module _ (T : SqlTable TariffRow (λ r. r.id)) (L : SqlLaws T) (w : Pools T get_pool) where
    module _ (id : ℕ) (r : TariffRow) (stored : T.select id (w pool) ≡ some r) where
      -- The update answers the tariff of the row `q`, so does a later look-up, and of the pool's
      -- rows `q` alone is new.
      abbrev pub Stores : TariffPatch → TariffRow → Type 0
      Stores patch q =
          (w' : Pools T get_pool) × (update_tariff get_pool T tenant_id id patch w
            ≡ (ok (row_to_tariff q), w'))
          × ((get_tariff get_pool T tenant_id id w').0 ≡ ok (row_to_tariff q))
          × ((other : ℕ)
              → T.select other (w' pool)
                ≡ (if nat_eq id other then some q else T.select other (w pool)))

      selected :
          (patch : TariffPatch) (other : ℕ)
          → (T.update id (patched_tariff patch) (w pool)).0 ≡ ok tt
          → T.select other
              (put T get_pool pool ((T.update id (patched_tariff patch) (w pool)).1) w pool)
            ≡ (if nat_eq id other then some (patched_tariff patch r) else T.select other (w pool))
      unfolding patched_tariff
      selected patch other o = ground (
        arith,
        stored,
        put_same T L get_pool row_to_tariff "" tenant_id pool connected other
            ((T.update id (patched_tariff patch) (w pool)).1) w,
        L.select-update other id (patched_tariff patch) (w pool) o (λ q. refl),
      )

      updates :
          (patch : TariffPatch)
          → (T.update id (patched_tariff patch) (w pool)).0 ≡ ok tt
          → Stores patch (patched_tariff patch r)
      unfolding update_tariff get_tariff
      updates patch o = (
        put T get_pool pool ((T.update id (patched_tariff patch) (w pool)).1) w,
        update_found T L get_pool row_to_tariff "Tariff not found" tenant_id pool connected id
            (patched_tariff patch) r w stored o,
        select_found T L get_pool row_to_tariff "Tariff not found" tenant_id pool connected id
            (patched_tariff patch r) _ (ground (arith, selected patch id o)),
        λ other. selected patch other o,
      )

      update_refuses :
          (patch : TariffPatch) (e : Error)
          → (T.update id (patched_tariff patch) (w pool)).0 ≡ err e
          → IsRefused T get_pool pool w
              ((T.update id (patched_tariff patch) (w pool)).0)
              (update_tariff get_pool T tenant_id id patch w)
      unfolding update_tariff
      update_refuses patch e o =
          let thrown =
            update_thrown T L get_pool row_to_tariff "Tariff not found" tenant_id pool connected id
              (patched_tariff patch) e w o in
          (
            e,
            o,
            ap (λ c. c.0) thrown,
            λ other. rw (ap (λ c. c.1) thrown) (
                put_same T L get_pool row_to_tariff "" tenant_id pool connected other _ w
                ∙ L.update_refused other id (patched_tariff patch) e (w pool) o),
          )

      -- For a tenant that has a pool, an update of a stored tariff that names no column answers
      -- the tariff as it is stored, and leaves every row of the pool as it was.
      pub update_tariff_nothing : Stores nothing r
      unfolding patched_tariff
      update_tariff_nothing =
          updates nothing (L.update_same id (patched_tariff nothing) (w pool) (λ q. refl))

      -- For a tenant that has a pool, an update of a stored tariff with every column given
      -- answers and stores the row that creating the tariff with the same input under this id
      -- would have made, and no other row of the pool changes; or PostgreSQL refuses the update:
      -- then its error is thrown, and no row changes.
      pub update_tariff-full :
          (input : TariffInput)
          → r.id ≡ id
          → is_some input.price_kwh ≡ true
          → is_some input.price_minute ≡ true
          → is_some input.price_session ≡ true
          → is_some input.stripe_price_id ≡ true
          → IsRefused T get_pool pool w
              ((T.update id (patched_tariff (full input)) (w pool)).0)
              (update_tariff get_pool T tenant_id id (full input) w)
            ⊎ Stores (full input) (inserted_tariff input id)
      update_tariff-full input same kwh minute session price =
          elim (Result-cases ((T.update id (patched_tariff (full input)) (w pool)).0)) [
            | inl (e, o) ↦ inl (update_refuses (full input) e o)
            | inr (a, o) ↦ inr (
                subst (Stores (full input)) (overwritten input id r same kwh minute session price)
                  (updates (full input) o))
          ]

  -- For a tenant that has a pool, a list of checkouts is never longer than was asked for, nor
  -- than 500.
  pub list_checkouts-length :
      (T : SqlTable CheckoutRow (λ r. r.id)) (L : SqlLaws T) (w : Pools T get_pool) (limit : ℕ)
      → (w' : Pools T get_pool) × (cs : List Checkout) × (list_checkouts get_pool T tenant_id limit
            w
          ≡ (ok cs, w'))
        × (length cs ≤ limit)
        × (length cs ≤ 500)
  unfolding list_checkouts
  list_checkouts-length T L w limit = (
    put T get_pool pool (w pool) w,
    map row_to_checkout (T.newest (min limit 500) (w pool)),
    newest_done T L get_pool row_to_checkout "" tenant_id pool connected (min limit 500) w,
    omega (
      arith,
      length-map (T.newest (min limit 500) (w pool)) row_to_checkout,
      L.newest_length (min limit 500) (w pool),
    ),
    omega (
      arith,
      length-map (T.newest (min limit 500) (w pool)) row_to_checkout,
      L.newest_length (min limit 500) (w pool),
    ),
  )
