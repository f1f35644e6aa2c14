-- ===== src/Payment/Rows.antt =====
-- The rows of the payment_* tables, whose columns are a record's fields, and what
-- backend/src/payment/payment-data.service.ts makes of them: the conversions at its end, the values
-- that an INSERT writes, and the columns that an UPDATE sets.
use vibe_ocpp.Prelude.{ℕ, String, Option, none, some, get_or}
use vibe_ocpp.Provisioning.Rows.{Decimal}
use vibe_ocpp.Payment.Types.{
  Operator, OperatorInput, OperatorPatch, Location, LocationInput, LocationPatch, Evse, EvseInput,
  EvsePatch, Connector, ConnectorInput, ConnectorPatch, Tariff, TariffInput, TariffPatch, Checkout,
}

-- COALESCE of a parameter and a column that may be NULL.
abbrev pub coalesce : {A : Type 0} → Option A → Option A → Option A
coalesce none old = old
coalesce (some new) old = some new

pub record OperatorRow : Type 0 where
  pub id : ℕ
  pub name : String
  pub stripe_account_id : String

unfoldable pub row_to_operator : OperatorRow → Operator
row_to_operator row = record {
  id = row.id;
  name = row.name;
  stripe_account_id = row.stripe_account_id;
}

unfoldable pub inserted_operator : OperatorInput → ℕ → OperatorRow
inserted_operator input id = record {
  id = id;
  name = input.name;
  stripe_account_id = input.stripe_account_id;
}

unfoldable pub patched_operator : OperatorPatch → OperatorRow → OperatorRow
patched_operator input row = record {
  id = row.id;
  name = get_or input.name row.name;
  stripe_account_id = get_or input.stripe_account_id row.stripe_account_id;
}

pub record LocationRow : Type 0 where
  pub id : ℕ
  pub location_id : String
  pub address : Option String
  pub postal_code : Option String
  pub city : Option String
  pub state : Option String
  pub country : Option String
  pub operator_id : Option ℕ

unfoldable pub row_to_location : LocationRow → Location
row_to_location row = record {
  id = row.id;
  location_id = row.location_id;
  address = row.address;
  postal_code = row.postal_code;
  city = row.city;
  state = row.state;
  country = row.country;
  operator_id = row.operator_id;
}

unfoldable pub inserted_location : LocationInput → ℕ → LocationRow
inserted_location input id = record {
  id = id;
  location_id = input.location_id;
  address = input.address;
  postal_code = input.postal_code;
  city = input.city;
  state = input.state;
  country = input.country;
  operator_id = input.operator_id;
}

unfoldable pub patched_location : LocationPatch → LocationRow → LocationRow
patched_location input row = record {
  id = row.id;
  location_id = get_or input.location_id row.location_id;
  address = coalesce input.address row.address;
  postal_code = coalesce input.postal_code row.postal_code;
  city = coalesce input.city row.city;
  state = coalesce input.state row.state;
  country = coalesce input.country row.country;
  operator_id = coalesce input.operator_id row.operator_id;
}

pub record EvseRow : Type 0 where
  pub id : ℕ
  pub evse_id : String
  pub ocpp_evse_id : ℕ
  pub status : String
  pub station_id : String
  pub tenant_id : String
  pub location_id : Option ℕ

unfoldable pub row_to_evse : EvseRow → Evse
row_to_evse row = record {
  id = row.id;
  evse_id = row.evse_id;
  ocpp_evse_id = row.ocpp_evse_id;
  status = row.status;
  station_id = row.station_id;
  tenant_id = row.tenant_id;
  location_id = row.location_id;
}

unfoldable pub inserted_evse : EvseInput → ℕ → EvseRow
inserted_evse input id = record {
  id = id;
  evse_id = input.evse_id;
  ocpp_evse_id = input.ocpp_evse_id;
  status = input.status;
  station_id = input.station_id;
  tenant_id = input.tenant_id;
  location_id = input.location_id;
}

unfoldable pub patched_evse : EvsePatch → EvseRow → EvseRow
patched_evse input row = record {
  id = row.id;
  evse_id = get_or input.evse_id row.evse_id;
  ocpp_evse_id = get_or input.ocpp_evse_id row.ocpp_evse_id;
  status = get_or input.status row.status;
  station_id = get_or input.station_id row.station_id;
  tenant_id = get_or input.tenant_id row.tenant_id;
  location_id = coalesce input.location_id row.location_id;
}

pub record ConnectorRow : Type 0 where
  pub id : ℕ
  pub connector_id : String
  pub power_type : String
  pub max_voltage : Decimal
  pub max_amperage : Decimal
  pub evse_id : Option ℕ
  pub tariff_id : Option ℕ

unfoldable pub row_to_connector : ConnectorRow → Connector
row_to_connector row = record {
  id = row.id;
  connector_id = row.connector_id;
  power_type = row.power_type;
  max_voltage = row.max_voltage;
  max_amperage = row.max_amperage;
  evse_id = row.evse_id;
  tariff_id = row.tariff_id;
}

unfoldable pub inserted_connector : ConnectorInput → ℕ → ConnectorRow
inserted_connector input id = record {
  id = id;
  connector_id = input.connector_id;
  power_type = input.power_type;
  max_voltage = input.max_voltage;
  max_amperage = input.max_amperage;
  evse_id = input.evse_id;
  tariff_id = input.tariff_id;
}

unfoldable pub patched_connector : ConnectorPatch → ConnectorRow → ConnectorRow
patched_connector input row = record {
  id = row.id;
  connector_id = get_or input.connector_id row.connector_id;
  power_type = get_or input.power_type row.power_type;
  max_voltage = get_or input.max_voltage row.max_voltage;
  max_amperage = get_or input.max_amperage row.max_amperage;
  evse_id = coalesce input.evse_id row.evse_id;
  tariff_id = coalesce input.tariff_id row.tariff_id;
}

pub record TariffRow : Type 0 where
  pub id : ℕ
  pub price_kwh : Option Decimal
  pub price_minute : Option Decimal
  pub price_session : Option Decimal
  pub currency : String
  pub tax_rate : Decimal
  pub authorization_amount : Decimal
  pub payment_fee : Decimal
  pub stripe_price_id : Option String

unfoldable pub row_to_tariff : TariffRow → Tariff
row_to_tariff row = record {
  id = row.id;
  price_kwh = row.price_kwh;
  price_minute = row.price_minute;
  price_session = row.price_session;
  currency = row.currency;
  tax_rate = row.tax_rate;
  authorization_amount = row.authorization_amount;
  payment_fee = row.payment_fee;
  stripe_price_id = row.stripe_price_id;
}

unfoldable pub inserted_tariff : TariffInput → ℕ → TariffRow
inserted_tariff input id = record {
  id = id;
  price_kwh = input.price_kwh;
  price_minute = input.price_minute;
  price_session = input.price_session;
  currency = input.currency;
  tax_rate = input.tax_rate;
  authorization_amount = input.authorization_amount;
  payment_fee = input.payment_fee;
  stripe_price_id = input.stripe_price_id;
}

unfoldable pub patched_tariff : TariffPatch → TariffRow → TariffRow
patched_tariff input row = record {
  id = row.id;
  price_kwh = coalesce input.price_kwh row.price_kwh;
  price_minute = coalesce input.price_minute row.price_minute;
  price_session = coalesce input.price_session row.price_session;
  currency = get_or input.currency row.currency;
  tax_rate = get_or input.tax_rate row.tax_rate;
  authorization_amount = get_or input.authorization_amount row.authorization_amount;
  payment_fee = get_or input.payment_fee row.payment_fee;
  stripe_price_id = coalesce input.stripe_price_id row.stripe_price_id;
}

pub record CheckoutRow : Type 0 where
  pub id : ℕ
  pub payment_intent_id : Option String
  pub authorization_amount : Option Decimal
  pub connector_id : Option ℕ
  pub tariff_id : Option ℕ
  pub remote_request_status : Option String
  pub remote_request_transaction_id : Option String
  pub transaction_start_time : Option ℕ
  pub transaction_end_time : Option ℕ
  pub transaction_kwh : Option Decimal
  pub transaction_soc : Option Decimal

unfoldable pub row_to_checkout : CheckoutRow → Checkout
row_to_checkout row = record {
  id = row.id;
  payment_intent_id = row.payment_intent_id;
  authorization_amount = row.authorization_amount;
  connector_id = row.connector_id;
  tariff_id = row.tariff_id;
  remote_request_status = row.remote_request_status;
  remote_request_transaction_id = row.remote_request_transaction_id;
  transaction_start_time = row.transaction_start_time;
  transaction_end_time = row.transaction_end_time;
  transaction_kwh = row.transaction_kwh;
  transaction_soc = row.transaction_soc;
}
