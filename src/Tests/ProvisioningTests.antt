-- ===== src/Tests/ProvisioningTests.antt =====
-- Provisioning on runnable tables: a charge point that nobody planned shows up, and is assigned.
use vibe_ocpp.Prelude.{String_discrete, ◌≡◌, refl, none, some, arith, ok, ◌⊎◌}
use vibe_ocpp.Database.Shelf
use vibe_ocpp.Database.Shelf.{shelf, empty}
use vibe_ocpp.Database.Shelf.Laws.{shelf-TableLaws}
use vibe_ocpp.Provisioning.Rows.{Station, linked, CreateLocationDto, CreateStationDto}
use vibe_ocpp.Provisioning.Contents.{new_station, first_seen, unknown_at}
use vibe_ocpp.Provisioning.Reconciliation.{Tables, World, reconcile_incoming_connection}
use vibe_ocpp.Provisioning.Services.{create, create_station, assign_to_station}
use vibe_ocpp.Provisioning.Services.Invariant.{AllLaws, IsTidy}
use vibe_ocpp.Provisioning.Services.Requests.{
  Reach, Reach-IsTidy, here, next, connects, creates_location, creates_station,
}
use vibe_ocpp.Provisioning.Services.Outcomes.{
  IsLinkedIn, IsWaitingIn, reconcile_records, assign_moves,
}

abbrev pub tables : Tables
tables = record {
  Locations = shelf (λ r. r.id);
  Stations = shelf (λ r. r.id);
  Connectors = shelf (λ r. r.id);
  Unknown = shelf (λ r. r.id);
}

pub all-AllLaws : AllLaws tables
all-AllLaws = record {
  locations = shelf-TableLaws (λ r. r.id);
  stations = shelf-TableLaws (λ r. r.id);
  connectors = shelf-TableLaws (λ r. r.id);
  unknown = shelf-TableLaws (λ r. r.id);
}

abbrev pub empty_world : World tables
empty_world = record { locations = empty; stations = empty; connectors = empty; unknown = empty }

pub empty_world-IsTidy : IsTidy tables empty_world
unfolding Shelf.get
empty_world-IsTidy = record {
  planned_once = λ k j r q a b c d. ground (arith, a);
  waits_once = λ k j r q a b c d. ground (arith, a);
  not_both = λ k j s u a b c d. ground (arith, a);
  dated = λ k s a. ((λ b. ground (arith, a)), (λ b. ground (arith, a)));
  housed = λ k s a b. ground (arith, a);
  at_home = λ k s l a b. ground (arith, a);
}

abbrev home : CreateLocationDto
home = record {
  name = "Home";
  address = none;
  city = none;
  postal_code = none;
  country = none;
  latitude = none;
  longitude = none;
}

abbrev wallbox : CreateStationDto
wallbox = record {
  chargebox_id = "CP1";
  label = "Wallbox";
  vendor = none;
  model = none;
  ocpp_version = none;
}

-- A location, a planned station, and a connection under another id.
abbrev located_world : World tables
located_world = (create tables "t" home "l" empty_world).1

abbrev planned_world : World tables
planned_world = (create_station tables "t" "l" wallbox "s" 1 located_world).1

abbrev connected_world : World tables
connected_world = (reconcile_incoming_connection tables "t" "CP2" "u" 2 planned_world).1

history : Reach tables empty_world connected_world
unfolding create create_station reconcile_incoming_connection Shelf.get Shelf.find Shelf.create
    Shelf.update String_discrete
history =
    next
      (next (next here (creates_location "t" home "l" refl refl))
        (creates_station "t" "l" wallbox "s" 1 refl refl))
      (connects "t" "CP2" "u" 2 refl refl)

Reach-IsTidy_example : IsTidy tables connected_world
Reach-IsTidy_example =
    Reach-IsTidy tables all-AllLaws empty_world connected_world history empty_world-IsTidy

connected_world-IsTidy : IsTidy tables connected_world
connected_world-IsTidy =
    Reach-IsTidy tables all-AllLaws empty_world connected_world history empty_world-IsTidy

reconcile_records_example :
    IsLinkedIn tables all-AllLaws planned_world "t" "CP1"
      (reconcile_incoming_connection tables "t" "CP1" "u" 2 planned_world).1
    ⊎ IsWaitingIn tables all-AllLaws planned_world "t" "CP1"
        (reconcile_incoming_connection tables "t" "CP1" "u" 2 planned_world).1
unfolding create create_station Shelf.get Shelf.find Shelf.create String_discrete
reconcile_records_example = reconcile_records tables all-AllLaws planned_world "t" "CP1" "u" 2 refl

assign_moves_example :
    (w' : World tables) × (assign_to_station tables "t" "u" "s" 3 connected_world ≡ (ok tt, w'))
    × ((q : Station) × (tables.Stations.get "s" w'.stations ≡ some q)
        × (q.chargebox_id ≡ "CP2")
        × (q.status ≡ linked)
        × (q.linked_at ≡ some 3)
        × (q.tenant_id ≡ "t")
        × (q.location_id ≡ "l")
        × (q.label ≡ wallbox.label))
    × (tables.Unknown.find (unknown_at "t" "CP2") w'.unknown ≡ none)
unfolding create create_station reconcile_incoming_connection Shelf.get Shelf.find Shelf.create
    Shelf.update String_discrete
assign_moves_example =
    assign_moves tables all-AllLaws connected_world connected_world-IsTidy "t" "u" "s" 3
      (first_seen "t" "CP2" "u" 2) (new_station "t" "l" wallbox "s") refl refl
