-- ===== src/Tests/OpsTests.antt =====
-- The agent on a Docker with one container, and a log of two frames.
use vibe_ocpp.Prelude.{String, ◌≡◌, true, false, none, [], ◌∷◌, ◌⊎◌, inl, arith, List}
use vibe_ocpp.Prelude.Text.{◌+++◌}
use vibe_ocpp.Settings.Encryption.{Bytes}
use vibe_ocpp.Ops.Whitelist.{one, is_authorized}
use vibe_ocpp.Ops.Frames.{demux_docker_log_buffer}
use vibe_ocpp.Ops.Frames.Mux.{Frame, mux, demux_docker_log_buffer-mux}
use vibe_ocpp.Ops.Docker.{Docker, done}
use vibe_ocpp.Ops.Agent.{Request, handle_request, response, failed}
use vibe_ocpp.Ops.Agent.Permissions.{Grows, handle_request-Grows}

abbrev decode : Bytes → String
decode [] = ""
decode (b ∷ rest) = "x" +++ decode rest

abbrev frames : List Frame
frames =
    (record { stream = 1; payload = 104 ∷ 105 ∷ [] })
    ∷ (record { stream = 2; payload = 33 ∷ [] })
    ∷ []

demux_docker_log_buffer-mux_example :
    demux_docker_log_buffer decode (mux frames (1 ∷ 0 ∷ [])) ≡ "xxx"
demux_docker_log_buffer-mux_example =
    demux_docker_log_buffer-mux decode frames (1 ∷ 0 ∷ []) (omega arith) (inl (omega arith))

abbrev docker : Docker
docker = record {
  containers = λ s service. done ((record { id = "c1"; state = "running"; status = "Up" }) ∷ []);
  logs = λ s id tail. done [];
  restart = λ s id. done tt;
  decode = decode;
  number = λ s. none;
}

abbrev request : Request
request = record {
  method = "POST";
  secret = one "s";
  pathname = "/ops/restart/backend";
  tail = none;
}

abbrev utf8 : String → Bytes
utf8 s = []

handle_request-Grows_example :
    ((is_authorized utf8 (one "s") "s" ≡ true)
      × Grows docker request [] (handle_request docker utf8 "s" request []).1)
    ⊎ ((is_authorized utf8 (one "s") "s" ≡ false)
        × (handle_request docker utf8 "s" request [] ≡ (response 401 (failed "unauthorized"), [])))
handle_request-Grows_example = handle_request-Grows docker request [] utf8 "s"
