-- ===== src/Tests/PaymentTests.antt =====
-- The payment configuration on a runnable table, where the operator 1 is referred to.
use vibe_ocpp.Prelude.{
  ℕ, String, ◌≡◌, refl, false, none, some, ok, err, not_found, Result, nat_eq, if◌then◌else◌, ◌⊎◌,
  ap, Bool, failure,
}
use vibe_ocpp.Provisioning.Rows.{Decimal}
use vibe_ocpp.Payment.Types.{TariffInput, LocationInput}
use vibe_ocpp.Payment.Rows.{
  OperatorRow, row_to_operator, TariffRow, LocationRow, inserted_tariff, patched_tariff,
  inserted_location,
}
use vibe_ocpp.Payment.Crud.{SqlTable, Pools}
use vibe_ocpp.Payment.Crud.Laws.{delete_thrown}
use vibe_ocpp.Payment.Crud.Sequence.{Sequence, sequence, sequence-SqlLaws}
use vibe_ocpp.Payment.Service.{update_tariff, get_operator, delete_operator, create_location}
use vibe_ocpp.Payment.Crud.Laws.{IsRefused}
use vibe_ocpp.Payment.Service.Laws.{
  Stores, full, nothing, update_tariff_nothing, update_tariff-full,
}
use vibe_ocpp.Payment.Service.Creation.{Creates, create_location-get_location}
use vibe_ocpp.Payment.Service.Deletion.{delete_operator-get_operator}

abbrev get_pool : String → Result String
get_pool tenant_id = ok "pay"

abbrev unreferenced : ℕ → Bool
unreferenced id = false

abbrev one_row : {Row : Type 0} → Row → String → Sequence Row
one_row r pool = record { next = 1; row = λ k. some r }

abbrev price : ℕ → Decimal
price n = record { negative = false; digits = n; scale = 2 }

abbrev row : TariffRow
row = record {
  id = 0;
  price_kwh = some (price 49);
  price_minute = none;
  price_session = none;
  currency = "EUR";
  tax_rate = price 19;
  authorization_amount = price 5000;
  payment_fee = price 35;
  stripe_price_id = none;
}

abbrev input : TariffInput
input = record {
  price_kwh = some (price 59);
  price_minute = some (price 2);
  price_session = some (price 0);
  currency = "CHF";
  tax_rate = price 8;
  authorization_amount = price 6000;
  payment_fee = price 40;
  stripe_price_id = some "price_1";
}

update_tariff_nothing_example :
    Stores get_pool "t" "pay" refl
      (sequence (λ r. r.id) unreferenced)
      (sequence-SqlLaws (λ r. r.id) unreferenced)
      (one_row row)
      0
      row
      refl
      nothing
      row
update_tariff_nothing_example =
    update_tariff_nothing get_pool "t" "pay" refl (sequence (λ r. r.id) unreferenced)
      (sequence-SqlLaws (λ r. r.id) unreferenced) (one_row row) 0 row refl

update_tariff-full_example :
    IsRefused
      (sequence (λ r. r.id) unreferenced)
      get_pool
      "pay"
      (one_row row)
      (((sequence (λ r. r.id) unreferenced).update 0
        (patched_tariff (full input))
        (one_row row "pay")).0)
      (update_tariff get_pool (sequence (λ r. r.id) unreferenced) "t" 0 (full input) (one_row row))
    ⊎ Stores get_pool "t" "pay" refl
        (sequence (λ r. r.id) unreferenced)
        (sequence-SqlLaws (λ r. r.id) unreferenced)
        (one_row row)
        0
        row
        refl
        (full input)
        (inserted_tariff input 0)
update_tariff-full_example =
    update_tariff-full get_pool "t" "pay" refl (sequence (λ r. r.id) unreferenced)
      (sequence-SqlLaws (λ r. r.id) unreferenced) (one_row row) 0 row refl input refl refl refl refl
      refl

abbrev operator : OperatorRow
operator = record { id = 0; name = "Stadtwerke"; stripe_account_id = "acct_1" }

abbrev operators : SqlTable OperatorRow (λ r. r.id)
operators = sequence (λ r. r.id) (λ id. nat_eq id 1)

delete_operator-get_operator_example :
    IsRefused operators get_pool "pay"
      (one_row operator)
      ((operators.delete 0 (one_row operator "pay")).0)
      (delete_operator get_pool operators "t" 0 (one_row operator))
    ⊎ ((w' : Pools operators get_pool) × (delete_operator get_pool operators "t" 0
            (one_row operator)
          ≡ (ok tt, w'))
        × ((get_operator get_pool operators "t" 0 w').0 ≡ err (not_found "Operator not found"))
        × ((other : ℕ)
            → operators.select other (w' "pay")
              ≡ (if nat_eq 0 other then none else operators.select other (one_row operator "pay"))))
delete_operator-get_operator_example =
    delete_operator-get_operator get_pool "t" "pay" refl operators
      (sequence-SqlLaws (λ r. r.id) (λ id. nat_eq id 1)) (one_row operator) 0 operator refl

abbrev two_operators : Pools operators get_pool
two_operators pool = record { next = 2; row = λ k. some operator }

-- An operator with a location is kept.
delete_referenced :
    (delete_operator get_pool operators "t" 1 two_operators).0
    ≡ err (failure "violates foreign key constraint")
unfolding delete_operator
delete_referenced =
    ap (λ c. c.0)
      (delete_thrown operators (sequence-SqlLaws (λ r. r.id) (λ id. nat_eq id 1)) get_pool
        row_to_operator "Operator not found" "t" "pay" refl 1
        (failure "violates foreign key constraint") two_operators refl)

abbrev locations : SqlTable LocationRow (λ r. r.id)
locations = sequence (λ r. r.id) unreferenced

abbrev nowhere : Pools locations get_pool
nowhere pool = record { next = 0; row = λ k. none }

abbrev depot : LocationInput
depot = record {
  location_id = "DEPOT";
  address = none;
  postal_code = none;
  city = some "Ulm";
  state = none;
  country = none;
  operator_id = none;
}

create_location-get_location_example :
    IsRefused locations get_pool "pay" nowhere
      ((locations.insert (inserted_location depot) (nowhere "pay")).0)
      (create_location get_pool locations "t" depot nowhere)
    ⊎ Creates get_pool "t" "pay" refl locations
        (sequence-SqlLaws (λ r. r.id) unreferenced)
        nowhere
        depot
create_location-get_location_example =
    create_location-get_location get_pool "t" "pay" refl locations
      (sequence-SqlLaws (λ r. r.id) unreferenced) nowhere depot
