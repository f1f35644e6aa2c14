-- ===== src/Provisioning/Rows.antt =====
-- The tables of backend/prisma/schema.prisma that provisioning works on, and the request bodies
-- of backend/src/locations/dto and backend/src/unknown-chargers/dto.
use vibe_ocpp.Prelude.{ℕ, String, Bool, Option}

-- A number as its decimal text has it: sign, digits and the place of the point.
pub record Decimal : Type 0 where
  pub negative : Bool
  pub digits : ℕ
  pub scale : ℕ

pub record Location : Type 0 where
  pub id : String
  pub tenant_id : String
  pub name : String
  pub address : Option String
  pub city : Option String
  pub postal_code : Option String
  pub country : Option String
  pub latitude : Option Decimal
  pub longitude : Option Decimal

pub data StationStatus : Type 0 where
  planned linked : StationStatus

pub record Station : Type 0 where
  pub id : String
  pub tenant_id : String
  pub location_id : String
  pub chargebox_id : String
  pub label : String
  pub vendor : Option String
  pub model : Option String
  pub ocpp_version : Option String
  pub status : StationStatus
  pub linked_at : Option ℕ

pub data ConnectorFormat : Type 0 where
  socket cable : ConnectorFormat

pub record Connector : Type 0 where
  pub id : String
  pub tenant_id : String
  pub station_id : String
  pub label : String
  pub evse_id : ℕ
  pub connector_id : ℕ
  pub type : String
  pub format : ConnectorFormat

pub record UnknownCharger : Type 0 where
  pub id : String
  pub tenant_id : String
  pub chargebox_id : String
  pub first_seen_at : ℕ
  pub last_seen_at : ℕ
  pub attempt_count : ℕ
  pub dismissed : Bool

pub record CreateLocationDto : Type 0 where
  pub name : String
  pub address : Option String
  pub city : Option String
  pub postal_code : Option String
  pub country : Option String
  pub latitude : Option Decimal
  pub longitude : Option Decimal

pub record UpdateLocationDto : Type 0 where
  pub name : Option String
  pub address : Option String
  pub city : Option String
  pub postal_code : Option String
  pub country : Option String
  pub latitude : Option Decimal
  pub longitude : Option Decimal

pub record CreateStationDto : Type 0 where
  pub chargebox_id : String
  pub label : String
  pub vendor : Option String
  pub model : Option String
  pub ocpp_version : Option String

pub record CreateConnectorDto : Type 0 where
  pub label : String
  pub evse_id : ℕ
  pub connector_id : Option ℕ
  pub type : String
  pub format : ConnectorFormat
