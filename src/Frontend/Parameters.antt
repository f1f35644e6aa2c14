-- ===== src/Frontend/Parameters.antt =====
-- frontend/src/lib/station-parameters.ts. Whether a host name has a colon is read off the text; the
-- environment and the window's address are arguments.
use vibe_ocpp.Prelude.{
  ℕ, String, Bool, ◌||◌, ◌&&◌, Option, none, some, List, order_by, truthy, present, get_or, leb,
  ltb, nat_eq, ◌==◌, if◌then◌else◌,
}
use vibe_ocpp.Prelude.Text.{◌+++◌, without_trailing_slashes, has_colon}

pub record ParameterStation : Type 0 where
  pub chargebox_id : String
  pub ocpp_version : Option String

pub data Format : Type 0 where
  socket cable : Format

pub record ParameterConnector : Type 0 where
  pub id : String
  pub label : String
  pub evse_id : ℕ
  pub connector_id : ℕ
  pub type : String
  pub format : Format

pub record StationParameters : Type 0 where
  pub server_url : String
  pub charge_point_id : String
  pub full_url : String
  pub ocpp_version : Option String
  pub subprotocol : Option String
  pub security_profile : ℕ
  pub connectors : List ParameterConnector

unfoldable pub resolve_ocpp_base_url : Option String → String → String → String
resolve_ocpp_base_url override hostname port =
    if present override
    then without_trailing_slashes (get_or override "")
    else "ws://"
      +++ (if has_colon hostname then "[" +++ hostname +++ "]" else hostname)
      +++ ":"
      +++ port

abbrev pub subprotocols : String → Option String
subprotocols version =
    if version == "1.6"
    then some "ocpp1.6"
    else if version == "2.0.1"
    then some "ocpp2.0.1"
    else if version == "2.1"
    then some "ocpp2.1"
    else none

abbrev pub subprotocol_of : Option String → Option String
subprotocol_of none = none
subprotocol_of (some version) = if truthy version then subprotocols version else none

-- The sort keeps the order of equal connectors.
abbrev pub connector_before : ParameterConnector → ParameterConnector → Bool
connector_before a b =
    ltb a.evse_id b.evse_id || (nat_eq a.evse_id b.evse_id && leb a.connector_id b.connector_id)

unfoldable pub build_station_parameters :
    ParameterStation → List ParameterConnector → String → StationParameters
unfolding order_by
build_station_parameters station connectors base_url =
    let server_url = without_trailing_slashes base_url in
    record {
      server_url = server_url;
      charge_point_id = station.chargebox_id;
      full_url = server_url +++ "/" +++ station.chargebox_id;
      ocpp_version = station.ocpp_version;
      subprotocol = subprotocol_of station.ocpp_version;
      security_profile = 0;
      connectors = order_by connector_before connectors;
    }
