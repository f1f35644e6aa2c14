-- ===== src/Ops/Frames.antt =====
-- `demuxDockerLogBuffer` of ops-agent/src/docker-client.ts. Decoding UTF-8 is a parameter.
pub mod Mux
use vibe_ocpp.Prelude.{
  ℕ, zero, suc, ◌+◌, ◌-◌, ◌*◌, String, List, [], ◌∷◌, length, get_elem?, take, drop, get_or, leb,
  ltb, if◌then◌else◌,
}
use vibe_ocpp.Prelude.Text.{◌+++◌}
use vibe_ocpp.Settings.Encryption.{Bytes}

-- `buffer[i]`, read only in range.
abbrev pub byte_at : Bytes → ℕ → ℕ
byte_at buffer i = get_or (get_elem? buffer i) 0

abbrev pub read_uint32_be : Bytes → ℕ → ℕ
read_uint32_be buffer i =
    byte_at buffer i * 16777216
    + byte_at buffer (i + 1) * 65536
    + byte_at buffer (i + 2) * 256
    + byte_at buffer (i + 3)

-- `buffer.subarray(start, end)`.
abbrev pub slice : Bytes → ℕ → ℕ → Bytes
slice buffer start end = take (end - start) (drop start buffer)

abbrev pub join : List String → String
join [] = ""
join (s ∷ rest) = s +++ join rest

-- The loop from `offset`, on fuel.
unfoldable pub chunks : (Bytes → String) → Bytes → ℕ → ℕ → List String
chunks decode buffer zero offset = []
chunks decode buffer (suc fuel) offset =
    let size = read_uint32_be buffer (offset + 4) in
    let start = offset + 8 in
    let end = start + size in
    let more = decode (slice buffer start end) ∷ chunks decode buffer fuel end in
    if leb (offset + 8) (length buffer) then (if ltb (length buffer) end then [] else more) else []

unfoldable pub demux_docker_log_buffer : (Bytes → String) → Bytes → String
demux_docker_log_buffer decode buffer = join (chunks decode buffer (suc (length buffer)) 0)
