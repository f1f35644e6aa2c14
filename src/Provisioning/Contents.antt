-- ===== src/Provisioning/Contents.antt =====
-- The rows that the provisioning services write, and the conditions that they look rows up by
-- (the `data` and `where` objects of backend/src/locations and backend/src/unknown-chargers).
use vibe_ocpp.Prelude.{
  ℕ, ◌+◌, String, Bool, true, false, ◌&&◌, Option, none, some, get_or, ◌==◌, nat_eq,
}
use vibe_ocpp.Provisioning.Rows.{
  Location, Station, planned, linked, Connector, UnknownCharger, CreateLocationDto,
  UpdateLocationDto, CreateStationDto, CreateConnectorDto,
}

abbrev pub located : String → CreateLocationDto → String → Location
located tenant_id dto fresh = record {
  id = fresh;
  tenant_id = tenant_id;
  name = dto.name;
  address = dto.address;
  city = dto.city;
  postal_code = dto.postal_code;
  country = dto.country;
  latitude = dto.latitude;
  longitude = dto.longitude;
}

abbrev or_old : {A : Type 0} → Option A → Option A → Option A
or_old none old = old
or_old (some a) old = some a

-- `data: dto`: a field that is undefined stays.
unfoldable pub relocated : UpdateLocationDto → Location → Location
relocated dto r = record r {
  name = get_or dto.name r.name;
  address = or_old dto.address r.address;
  city = or_old dto.city r.city;
  postal_code = or_old dto.postal_code r.postal_code;
  country = or_old dto.country r.country;
  latitude = or_old dto.latitude r.latitude;
  longitude = or_old dto.longitude r.longitude;
}

abbrev pub new_station : String → String → CreateStationDto → String → Station
new_station tenant_id location_id dto fresh = record {
  id = fresh;
  tenant_id = tenant_id;
  location_id = location_id;
  chargebox_id = dto.chargebox_id;
  label = dto.label;
  vendor = dto.vendor;
  model = dto.model;
  ocpp_version = dto.ocpp_version;
  status = planned;
  linked_at = none;
}

abbrev pub new_connector : String → String → CreateConnectorDto → ℕ → String → Connector
new_connector tenant_id station_id dto connector_id fresh = record {
  id = fresh;
  tenant_id = tenant_id;
  station_id = station_id;
  label = dto.label;
  evse_id = dto.evse_id;
  connector_id = connector_id;
  type = dto.type;
  format = dto.format;
}

abbrev pub first_seen : String → String → String → ℕ → UnknownCharger
first_seen tenant_id chargebox_id fresh now = record {
  id = fresh;
  tenant_id = tenant_id;
  chargebox_id = chargebox_id;
  first_seen_at = now;
  last_seen_at = now;
  attempt_count = 1;
  dismissed = false;
}

abbrev pub seen_again : ℕ → UnknownCharger → UnknownCharger
seen_again now u = record u {
  last_seen_at = now;
  attempt_count = u.attempt_count + 1;
  dismissed = false;
}

abbrev pub dismissed_at : ℕ → UnknownCharger → UnknownCharger
dismissed_at now u = record u { last_seen_at = now; dismissed = true }

abbrev pub move_to : String → Station → Station
move_to chargebox_id s = record s { chargebox_id = chargebox_id }

abbrev pub link : ℕ → Station → Station
link now s = record s { status = linked; linked_at = some now }

-- where: { tenantId_chargeboxId: … }
abbrev pub station_at : String → String → Station → Bool
station_at tenant_id chargebox_id s = s.tenant_id == tenant_id && s.chargebox_id == chargebox_id

abbrev pub unknown_at : String → String → UnknownCharger → Bool
unknown_at tenant_id chargebox_id u = u.tenant_id == tenant_id && u.chargebox_id == chargebox_id

abbrev pub connector_at : String → ℕ → ℕ → Connector → Bool
connector_at station_id evse_id connector_id c =
    c.station_id == station_id && nat_eq c.evse_id evse_id && nat_eq c.connector_id connector_id
