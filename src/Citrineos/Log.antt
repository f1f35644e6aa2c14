-- ===== src/Citrineos/Log.antt =====
-- backend/src/citrineos/citrineos-message-log.service.ts, and the row of its table.
use vibe_ocpp.Prelude.{
  ℕ, String, Bool, true, ◌&&◌, Option, none, some, List, take, min, get_or, present, opt_eq,
  order_by, ltb, leb, ◌==◌, if◌then◌else◌, ok, Action,
}
use vibe_ocpp.Prelude.Json.{Fields, property, as_text}
use vibe_ocpp.Database.{Table}

pub data MessageEvent : Type 0 where
  connected closed message : MessageEvent

-- What the webhook hands over; `info` maps texts to texts.
pub record IncomingEvent : Type 0 where
  pub ocpp_connection_name : String
  pub event : MessageEvent
  pub origin : Option String
  pub message : Option String
  pub info : Option Fields

pub record MessageLog : Type 0 where
  pub id : String
  pub tenant_id : String
  pub ocpp_connection_name : String
  pub event : MessageEvent
  pub origin : Option String
  pub raw_message : Option String
  pub info : Option Fields
  pub received_at : ℕ

pub record MessageLogFilter : Type 0 where
  pub ocpp_connection_name : Option String
  pub action : Option String
  pub origin : Option String
  pub after : Option ℕ
  pub before : Option ℕ
  pub limit : Option ℕ

abbrev pub action_of : Option Fields → Option String
action_of none = none
action_of (some fields) = as_text (property fields "action")

abbrev pub is_boot : IncomingEvent → Bool
is_boot dto = opt_eq (action_of dto.info) (some "BootNotification")

-- `...(x ? { column: x } : {})`
abbrev pub fits : Option String → Option String → Bool
fits wanted value = if present wanted then opt_eq value wanted else true

abbrev pub later_than : Option ℕ → ℕ → Bool
later_than none at = true
later_than (some t) at = ltb t at

abbrev pub earlier_than : Option ℕ → ℕ → Bool
earlier_than none at = true
earlier_than (some t) at = ltb at t

unfoldable pub matches : String → MessageLogFilter → MessageLog → Bool
matches tenant_id f m =
    m.tenant_id == tenant_id
    && fits f.ocpp_connection_name (some m.ocpp_connection_name)
    && fits f.origin m.origin
    && fits f.action (action_of m.info)
    && later_than f.after m.received_at
    && earlier_than f.before m.received_at

abbrev pub newest_message_first : MessageLog → MessageLog → Bool
newest_message_first m n = leb n.received_at m.received_at

abbrev pub logged : String → IncomingEvent → String → ℕ → MessageLog
logged tenant_id e fresh now = record {
  id = fresh;
  tenant_id = tenant_id;
  ocpp_connection_name = e.ocpp_connection_name;
  event = e.event;
  origin = e.origin;
  raw_message = e.message;
  info = e.info;
  received_at = now;
}

module _ (Log : Table MessageLog (λ m. m.id)) where
  unfoldable pub record_event : String → IncomingEvent → String → ℕ → Action Log.Store MessageLog
  record_event tenant_id e fresh now s =
      (ok (logged tenant_id e fresh now), Log.create (logged tenant_id e fresh now) s)

  unfoldable pub list : String → MessageLogFilter → Action Log.Store (List MessageLog)
  unfolding matches order_by
  list tenant_id f s = (
    ok (
        take (min (get_or f.limit 100) 500)
          (order_by newest_message_first (Log.list (matches tenant_id f) s))),
    s,
  )

  unfoldable pub find_first_after : String → MessageLogFilter → Action Log.Store (Option MessageLog)
  unfolding matches
  find_first_after tenant_id f s =
      (ok (Log.find_least (matches tenant_id f) (λ m. m.received_at) s), s)
