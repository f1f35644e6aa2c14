-- ===== src/Payment/Types.antt =====
-- backend/src/payment/payment.types.ts: the shapes of the API, of the inputs, and of the partial
-- inputs (`Partial<…>`) of an update. Instants are milliseconds.
use vibe_ocpp.Prelude.{ℕ, String, Option}
use vibe_ocpp.Provisioning.Rows.{Decimal}

pub record Operator : Type 0 where
  pub id : ℕ
  pub name : String
  pub stripe_account_id : String

pub record OperatorInput : Type 0 where
  pub name : String
  pub stripe_account_id : String

pub record OperatorPatch : Type 0 where
  pub name : Option String
  pub stripe_account_id : Option String

pub record Location : Type 0 where
  pub id : ℕ
  pub location_id : String
  pub address : Option String
  pub postal_code : Option String
  pub city : Option String
  pub state : Option String
  pub country : Option String
  pub operator_id : Option ℕ

pub record LocationInput : Type 0 where
  pub location_id : String
  pub address : Option String
  pub postal_code : Option String
  pub city : Option String
  pub state : Option String
  pub country : Option String
  pub operator_id : Option ℕ

pub record LocationPatch : Type 0 where
  pub location_id : Option String
  pub address : Option String
  pub postal_code : Option String
  pub city : Option String
  pub state : Option String
  pub country : Option String
  pub operator_id : Option ℕ

pub record Evse : Type 0 where
  pub id : ℕ
  pub evse_id : String
  pub ocpp_evse_id : ℕ
  pub status : String
  pub station_id : String
  pub tenant_id : String
  pub location_id : Option ℕ

pub record EvseInput : Type 0 where
  pub evse_id : String
  pub ocpp_evse_id : ℕ
  pub status : String
  pub station_id : String
  pub tenant_id : String
  pub location_id : Option ℕ

pub record EvsePatch : Type 0 where
  pub evse_id : Option String
  pub ocpp_evse_id : Option ℕ
  pub status : Option String
  pub station_id : Option String
  pub tenant_id : Option String
  pub location_id : Option ℕ

pub record Connector : Type 0 where
  pub id : ℕ
  pub connector_id : String
  pub power_type : String
  pub max_voltage : Decimal
  pub max_amperage : Decimal
  pub evse_id : Option ℕ
  pub tariff_id : Option ℕ

pub record ConnectorInput : Type 0 where
  pub connector_id : String
  pub power_type : String
  pub max_voltage : Decimal
  pub max_amperage : Decimal
  pub evse_id : Option ℕ
  pub tariff_id : Option ℕ

pub record ConnectorPatch : Type 0 where
  pub connector_id : Option String
  pub power_type : Option String
  pub max_voltage : Option Decimal
  pub max_amperage : Option Decimal
  pub evse_id : Option ℕ
  pub tariff_id : Option ℕ

pub record Tariff : Type 0 where
  pub id : ℕ
  pub price_kwh : Option Decimal
  pub price_minute : Option Decimal
  pub price_session : Option Decimal
  pub currency : String
  pub tax_rate : Decimal
  pub authorization_amount : Decimal
  pub payment_fee : Decimal
  pub stripe_price_id : Option String

pub record TariffInput : Type 0 where
  pub price_kwh : Option Decimal
  pub price_minute : Option Decimal
  pub price_session : Option Decimal
  pub currency : String
  pub tax_rate : Decimal
  pub authorization_amount : Decimal
  pub payment_fee : Decimal
  pub stripe_price_id : Option String

pub record TariffPatch : Type 0 where
  pub price_kwh : Option Decimal
  pub price_minute : Option Decimal
  pub price_session : Option Decimal
  pub currency : Option String
  pub tax_rate : Option Decimal
  pub authorization_amount : Option Decimal
  pub payment_fee : Option Decimal
  pub stripe_price_id : Option String

pub record Checkout : Type 0 where
  pub id : ℕ
  pub payment_intent_id : Option String
  pub authorization_amount : Option Decimal
  pub connector_id : Option ℕ
  pub tariff_id : Option ℕ
  pub remote_request_status : Option String
  pub remote_request_transaction_id : Option String
  pub transaction_start_time : Option ℕ
  pub transaction_end_time : Option ℕ
  pub transaction_kwh : Option Decimal
  pub transaction_soc : Option Decimal
