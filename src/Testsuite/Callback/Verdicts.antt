-- ===== src/Testsuite/Callback/Verdicts.antt =====
-- What a callback makes of its payload: `isOcppErrorPayload` and the data of the update of
-- backend/src/testsuite/testsuite-callback.controller.ts.
use vibe_ocpp.Prelude.{
  ℕ, ◌-◌, ap, String, ◌≡◌, refl, Option, none, some, arith, Option-cases, inl, inr,
}
use mathlib.Core.Option
use vibe_ocpp.Prelude.Text.{◌+++◌}
use vibe_ocpp.Prelude.Json.{Json, null, bool, num, str, arr, obj, Fields, property, as_text}
use vibe_ocpp.Testsuite.Rows.{Step, StepStatus, pass, fail}
use vibe_ocpp.Testsuite.Callback.{both, resolved, ocpp_error}

-- A JSON object with both texts of an OCPP CallError.
pub data IsCallError : Json → String → String → Type 0 where
  call_error :
      (fields : Fields) (code description : String)
      → property fields "errorCode" ≡ some (str code)
      → property fields "errorDescription" ≡ some (str description)
      → IsCallError (obj fields) code description

-- A CallError fails the step and is named in its error message; anything else passes it.
pub data Verdict (payload : Json) : StepStatus → Option String → Type 0 where
  failed :
      (code description : String)
      → IsCallError payload code description
      → Verdict payload fail (some (code +++ ": " +++ description))
  passed :
      ((code description : String) → ¬ IsCallError payload code description)
      → Verdict payload pass none

abbrev status_of : Option (String × String) → StepStatus
status_of none = pass
status_of (some e) = fail

abbrev message_of : Option (String × String) → Option String
message_of none = none
message_of (some (code, description)) = some (code +++ ": " +++ description)

as_text-inverse : (o : Option Json) (s : String) → as_text o ≡ some s → o ≡ some (str s)
as_text-inverse none s h = cc
as_text-inverse (some null) s h = cc
as_text-inverse (some (bool b)) s h = cc
as_text-inverse (some (num n)) s h = cc
as_text-inverse (some (str t)) s h = ap some (cc)
as_text-inverse (some (arr items)) s h = cc
as_text-inverse (some (obj fields)) s h = cc

no_error :
    (payload : Json) (code description : String)
    → ocpp_error payload ≡ none
    → ¬ IsCallError payload code description
unfolding ocpp_error both
no_error _ _ _ h (call_error fields code description a b) = cc (rw (a, b) at h)

is_error :
    (payload : Json) (code description : String)
    → ocpp_error payload ≡ some (code, description)
    → IsCallError payload code description
unfolding ocpp_error both
is_error (obj fields) code description h =
    texts_are (as_text (property fields "errorCode")) (as_text (property fields "errorDescription"))
      refl refl h
  where
    texts_are :
        (c d : Option String)
        → as_text (property fields "errorCode") ≡ c
        → as_text (property fields "errorDescription") ≡ d
        → both c d ≡ some (code, description)
        → IsCallError (obj fields) code description
    texts_are (some c) (some d) a b g =
        call_error fields code description (as_text-inverse _ code (ground (arith, a, g)))
          (as_text-inverse _ description (ground (arith, b, g)))
    texts_are none d a b g = cc
    texts_are (some c) none a b g = cc
is_error null code description h = cc
is_error (bool b) code description h = cc
is_error (num n) code description h = cc
is_error (str s) code description h = cc
is_error (arr items) code description h = cc

ocpp_error-Verdict :
    (payload : Json)
    → Verdict payload (status_of (ocpp_error payload)) (message_of (ocpp_error payload))
ocpp_error-Verdict payload = elim (Option-cases (ocpp_error payload)) [
  | inl e ↦ rw e (passed (λ code description. no_error payload code description e))
  | inr ((code, description), e) ↦
      rw e (failed code description (is_error payload code description e))
]

-- What a callback at `now` makes of the row `r`, where the step was read as `step`.
pub record Written (payload : Json) (now : ℕ) (step r q : Step) : Type 0 where
  pub verdict : Verdict payload q.status q.error_message
  pub payload_kept : q.response_payload ≡ some payload
  pub finished : q.finished_at ≡ some now
  pub duration : q.duration_ms ≡ Option.map (λ at. now - at) step.started_at
  pub same_step : (q.id ≡ r.id) × (q.run_id ≡ r.run_id) × (q.action ≡ r.action)

pub resolved-Written :
    (payload : Json) (now : ℕ) (step r : Step)
    → Written payload now step r (resolved payload now step (ocpp_error payload) r)
unfolding resolved
resolved-Written payload now step r = written_as (ocpp_error payload) (ocpp_error-Verdict payload)
  where
    written_as :
        (o : Option (String × String))
        → Verdict payload (status_of o) (message_of o)
        → Written payload now step r (resolved payload now step o r)
    written_as none v = record {
      verdict = v;
      payload_kept = refl;
      finished = refl;
      duration = refl;
      same_step = (refl, refl, refl);
    }
    written_as (some (code, description)) v = record {
      verdict = v;
      payload_kept = refl;
      finished = refl;
      duration = refl;
      same_step = (refl, refl, refl);
    }
