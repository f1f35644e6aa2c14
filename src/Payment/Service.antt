-- ===== src/Payment/Service.antt =====
-- backend/src/payment/payment-data.service.ts: every method, one entity after the other.
pub mod Laws
pub mod Creation
pub mod Deletion
use vibe_ocpp.Prelude.{ℕ, String, List, Result, Action, min}
use vibe_ocpp.Payment.Types.{
  Operator, OperatorInput, OperatorPatch, Location, LocationInput, LocationPatch, Evse, EvseInput,
  EvsePatch, Connector, ConnectorInput, ConnectorPatch, Tariff, TariffInput, TariffPatch, Checkout,
}
use vibe_ocpp.Payment.Rows.{
  OperatorRow, row_to_operator, inserted_operator, patched_operator, LocationRow, row_to_location,
  inserted_location, patched_location, EvseRow, row_to_evse, inserted_evse, patched_evse,
  ConnectorRow, row_to_connector, inserted_connector, patched_connector, TariffRow, row_to_tariff,
  inserted_tariff, patched_tariff, CheckoutRow, row_to_checkout,
}
use vibe_ocpp.Payment.Crud.{
  SqlTable, Pools, select_rows, select_row, insert_row, update_row, delete_row, select_newest,
}

-- The pool and the table prefix of a tenant, or why there is none.
module _ (get_pool : String → Result String) where
  module _ (T : SqlTable OperatorRow (λ r. r.id)) where
    unfoldable pub list_operators : String → Action (Pools T get_pool) (List Operator)
    unfolding select_rows
    list_operators tenant_id = select_rows T get_pool row_to_operator tenant_id

    unfoldable pub get_operator : String → ℕ → Action (Pools T get_pool) Operator
    unfolding select_row
    get_operator tenant_id id =
        select_row T get_pool row_to_operator "Operator not found" tenant_id id

    unfoldable pub create_operator : String → OperatorInput → Action (Pools T get_pool) Operator
    unfolding insert_row
    create_operator tenant_id input =
        insert_row T get_pool row_to_operator tenant_id (inserted_operator input)

    unfoldable pub update_operator : String → ℕ → OperatorPatch → Action (Pools T get_pool) Operator
    unfolding update_row
    update_operator tenant_id id input =
        update_row T get_pool row_to_operator "Operator not found" tenant_id id
          (patched_operator input)

    unfoldable pub delete_operator : String → ℕ → Action (Pools T get_pool) (Unit {0})
    unfolding delete_row
    delete_operator tenant_id id = delete_row T get_pool "Operator not found" tenant_id id

  module _ (T : SqlTable LocationRow (λ r. r.id)) where
    unfoldable pub list_locations : String → Action (Pools T get_pool) (List Location)
    unfolding select_rows
    list_locations tenant_id = select_rows T get_pool row_to_location tenant_id

    unfoldable pub get_location : String → ℕ → Action (Pools T get_pool) Location
    unfolding select_row
    get_location tenant_id id =
        select_row T get_pool row_to_location "Location not found" tenant_id id

    unfoldable pub create_location : String → LocationInput → Action (Pools T get_pool) Location
    unfolding insert_row
    create_location tenant_id input =
        insert_row T get_pool row_to_location tenant_id (inserted_location input)

    unfoldable pub update_location : String → ℕ → LocationPatch → Action (Pools T get_pool) Location
    unfolding update_row
    update_location tenant_id id input =
        update_row T get_pool row_to_location "Location not found" tenant_id id
          (patched_location input)

    unfoldable pub delete_location : String → ℕ → Action (Pools T get_pool) (Unit {0})
    unfolding delete_row
    delete_location tenant_id id = delete_row T get_pool "Location not found" tenant_id id

  module _ (T : SqlTable EvseRow (λ r. r.id)) where
    unfoldable pub list_evses : String → Action (Pools T get_pool) (List Evse)
    unfolding select_rows
    list_evses tenant_id = select_rows T get_pool row_to_evse tenant_id

    unfoldable pub get_evse : String → ℕ → Action (Pools T get_pool) Evse
    unfolding select_row
    get_evse tenant_id id = select_row T get_pool row_to_evse "Evse not found" tenant_id id

    unfoldable pub create_evse : String → EvseInput → Action (Pools T get_pool) Evse
    unfolding insert_row
    create_evse tenant_id input = insert_row T get_pool row_to_evse tenant_id (inserted_evse input)

    unfoldable pub update_evse : String → ℕ → EvsePatch → Action (Pools T get_pool) Evse
    unfolding update_row
    update_evse tenant_id id input =
        update_row T get_pool row_to_evse "Evse not found" tenant_id id (patched_evse input)

    unfoldable pub delete_evse : String → ℕ → Action (Pools T get_pool) (Unit {0})
    unfolding delete_row
    delete_evse tenant_id id = delete_row T get_pool "Evse not found" tenant_id id

  module _ (T : SqlTable ConnectorRow (λ r. r.id)) where
    unfoldable pub list_connectors : String → Action (Pools T get_pool) (List Connector)
    unfolding select_rows
    list_connectors tenant_id = select_rows T get_pool row_to_connector tenant_id

    unfoldable pub get_connector : String → ℕ → Action (Pools T get_pool) Connector
    unfolding select_row
    get_connector tenant_id id =
        select_row T get_pool row_to_connector "Connector not found" tenant_id id

    unfoldable pub create_connector : String → ConnectorInput → Action (Pools T get_pool) Connector
    unfolding insert_row
    create_connector tenant_id input =
        insert_row T get_pool row_to_connector tenant_id (inserted_connector input)

    unfoldable pub update_connector :
        String → ℕ → ConnectorPatch → Action (Pools T get_pool) Connector
    unfolding update_row
    update_connector tenant_id id input =
        update_row T get_pool row_to_connector "Connector not found" tenant_id id
          (patched_connector input)

    unfoldable pub delete_connector : String → ℕ → Action (Pools T get_pool) (Unit {0})
    unfolding delete_row
    delete_connector tenant_id id = delete_row T get_pool "Connector not found" tenant_id id

  module _ (T : SqlTable TariffRow (λ r. r.id)) where
    unfoldable pub list_tariffs : String → Action (Pools T get_pool) (List Tariff)
    unfolding select_rows
    list_tariffs tenant_id = select_rows T get_pool row_to_tariff tenant_id

    unfoldable pub get_tariff : String → ℕ → Action (Pools T get_pool) Tariff
    unfolding select_row
    get_tariff tenant_id id = select_row T get_pool row_to_tariff "Tariff not found" tenant_id id

    unfoldable pub create_tariff : String → TariffInput → Action (Pools T get_pool) Tariff
    unfolding insert_row
    create_tariff tenant_id input =
        insert_row T get_pool row_to_tariff tenant_id (inserted_tariff input)

    unfoldable pub update_tariff : String → ℕ → TariffPatch → Action (Pools T get_pool) Tariff
    unfolding update_row
    update_tariff tenant_id id input =
        update_row T get_pool row_to_tariff "Tariff not found" tenant_id id (patched_tariff input)

    unfoldable pub delete_tariff : String → ℕ → Action (Pools T get_pool) (Unit {0})
    unfolding delete_row
    delete_tariff tenant_id id = delete_row T get_pool "Tariff not found" tenant_id id

  module _ (T : SqlTable CheckoutRow (λ r. r.id)) where
    unfoldable pub list_checkouts : String → ℕ → Action (Pools T get_pool) (List Checkout)
    unfolding select_newest
    list_checkouts tenant_id limit =
        select_newest T get_pool row_to_checkout tenant_id (min limit 500)

    unfoldable pub get_checkout : String → ℕ → Action (Pools T get_pool) Checkout
    unfolding select_row
    get_checkout tenant_id id =
        select_row T get_pool row_to_checkout "Checkout not found" tenant_id id
