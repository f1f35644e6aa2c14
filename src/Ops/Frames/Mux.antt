-- ===== src/Ops/Frames/Mux.antt =====
-- Docker's framing of a log, written down on its own.
use Prim.Native.Nat.{◌/◌, ◌%◌}
use vibe_ocpp.Prelude.{
  ℕ, zero, suc, ◌+◌, ◌-◌, ◌<◌, String, ◌≡◌, refl, ◌⊎◌, inl, inr, true, false, List, [], ◌∷◌, ◌++◌,
  map, All, length, get_elem?, take, drop, length-append, leb, ltb, arith, Bool-cases, ap, ◌∙◌,
}
use mathlib.Core.List.{append_assoc}
use vibe_ocpp.Settings.Encryption.{Bytes}
use vibe_ocpp.Ops.Frames.{read_uint32_be, slice, join, chunks, demux_docker_log_buffer}

-- A frame: the number of its stream, and what it carries.
pub record Frame : Type 0 where
  pub stream : ℕ
  pub payload : Bytes

-- The length as four bytes, the highest first.
abbrev pub size_bytes : ℕ → Bytes
size_bytes n = n / 16777216 ∷ n / 65536 % 256 ∷ n / 256 % 256 ∷ n % 256 ∷ []

abbrev pub frame_bytes : Frame → Bytes
frame_bytes f = (f.stream ∷ 0 ∷ 0 ∷ 0 ∷ size_bytes (length f.payload)) ++ f.payload

abbrev pub mux : List Frame → Bytes → Bytes
mux [] rest = rest
mux (f ∷ fs) rest = frame_bytes f ++ mux fs rest

-- No whole frame: less than a header, or less than the header promises.
abbrev pub IsPartial : Bytes → Type 0
IsPartial rest = (length rest < 8) ⊎ (length rest < 8 + read_uint32_be rest 4)

get_elem?-append : (pre s : Bytes) (i : ℕ) → get_elem? (pre ++ s) (length pre + i) ≡ get_elem? s i
get_elem?-append [] s i = ground arith
get_elem?-append (x ∷ pre) s i =
    let e : suc (length pre) + i ≡ suc (length pre + i) = omega arith in
    rw e (get_elem?-append pre s i)

drop-append : (pre s : Bytes) (i : ℕ) → drop (length pre + i) (pre ++ s) ≡ drop i s
drop-append [] s i = ground arith
drop-append (x ∷ pre) s i =
    let e : suc (length pre) + i ≡ suc (length pre + i) = omega arith in rw e (drop-append pre s i)

take-append : (p s : Bytes) → take (length p) (p ++ s) ≡ p
take-append [] s = refl
take-append (x ∷ p) s = ap (λ t. x ∷ t) (take-append p s)

module _ (decode : Bytes → String) where
  size_at :
      (pre rest : Bytes) → read_uint32_be (pre ++ rest) (length pre + 4) ≡ read_uint32_be rest 4
  size_at pre rest =
      let e1 : length pre + 4 + 1 ≡ length pre + 5 = omega arith in
      let e2 : length pre + 4 + 2 ≡ length pre + 6 = omega arith in
      let e3 : length pre + 4 + 3 ≡ length pre + 7 = omega arith in
      rw
        (
          e1,
          e2,
          e3,
          get_elem?-append pre rest 4,
          get_elem?-append pre rest 5,
          get_elem?-append pre rest 6,
          get_elem?-append pre rest 7,
        )
        refl

  size_read :
      (pre s : Bytes) (f : Frame)
      → length f.payload < 4294967296
      → read_uint32_be (pre ++ (frame_bytes f ++ s)) (length pre + 4) ≡ length f.payload
  size_read pre s f h = rw (size_at pre (frame_bytes f ++ s)) (omega arith)

  payload_read :
      (pre s : Bytes) (f : Frame)
      → slice (pre ++ (frame_bytes f ++ s)) (length pre + 8) (length pre + 8 + length f.payload)
        ≡ f.payload
  payload_read pre s f =
      let e : length pre + 8 + length f.payload - (length pre + 8) ≡ length f.payload =
        omega arith in
      rw (e, drop-append pre (frame_bytes f ++ s) 8) (take-append f.payload s)

  chunks-frame :
      (pre s : Bytes) (f : Frame) (fuel : ℕ)
      → length f.payload < 4294967296
      → chunks decode (pre ++ (frame_bytes f ++ s)) (suc fuel) (length pre)
        ≡ decode f.payload
          ∷ chunks decode (pre ++ (frame_bytes f ++ s)) fuel (length pre + 8 + length f.payload)
  unfolding chunks
  chunks-frame pre s f fuel h =
      let n = length-append pre (frame_bytes f ++ s) in
      let m = length-append f.payload s in
      let b = pre ++ (frame_bytes f ++ s) in
      let c : leb (length pre + 8) (length b) ≡ true = ground (arith, n, m) in
      let d : ltb (length b) (length pre + 8 + length f.payload) ≡ false = ground (arith, n, m) in
      rw (size_read pre s f h, c, d, payload_read pre s f) refl

  chunks-partial :
      (pre rest : Bytes) (fuel : ℕ)
      → IsPartial rest
      → chunks decode (pre ++ rest) fuel (length pre) ≡ []
  unfolding chunks
  chunks-partial pre rest zero h = refl
  chunks-partial pre rest (suc fuel) h =
      let n = length-append pre rest in
      let q = size_at pre rest in
      elim h [
        | inl k ↦
            let c : leb (length pre + 8) (length (pre ++ rest)) ≡ false = ground (arith, n, k) in
            rw c refl
        | inr k ↦ elim (Bool-cases (leb (length pre + 8) (length (pre ++ rest)))) [
          | inr c ↦ rw c refl
          | inl c ↦
              let d : ltb (length (pre ++ rest))
                    (length pre + 8 + read_uint32_be (pre ++ rest) (length pre + 4))
                  ≡ true =
                rw q (ground (arith, n, k)) in
              rw (c, d) refl
        ]
      ]

  chunks-mux :
      (fs : List Frame) (pre rest : Bytes) (fuel : ℕ)
      → All (λ f. length f.payload < 4294967296) fs
      → IsPartial rest
      → length (mux fs rest) < fuel
      → chunks decode (pre ++ mux fs rest) fuel (length pre) ≡ map (λ f. decode f.payload) fs
  chunks-mux [] pre rest fuel a h k = chunks-partial pre rest fuel h
  chunks-mux (f ∷ fs) pre rest zero a h k = elim k [ ]
  chunks-mux (f ∷ fs) pre rest (suc fuel) (a, b) h k =
      let e : length (pre ++ frame_bytes f) ≡ length pre + 8 + length f.payload =
        omega (arith, length-append pre (frame_bytes f)) in
      let ih =
        chunks-mux fs (pre ++ frame_bytes f) rest fuel b h
          (omega (arith, length-append f.payload (mux fs rest), k)) in
      chunks-frame pre (mux fs rest) f fuel a
      ∙ ap (λ t. decode f.payload ∷ t)
          (rw (← e, ← append_assoc pre (frame_bytes f) (mux fs rest)) ih)

  -- A log of frames, each shorter than 4 GiB, is read back as the texts of its frames in order;
  -- bytes that follow and make no whole frame are left out.
  pub demux_docker_log_buffer-mux :
      (fs : List Frame) (rest : Bytes)
      → All (λ f. length f.payload < 4294967296) fs
      → IsPartial rest
      → demux_docker_log_buffer decode (mux fs rest) ≡ join (map (λ f. decode f.payload) fs)
  unfolding demux_docker_log_buffer
  demux_docker_log_buffer-mux fs rest a h =
      ap join (chunks-mux fs [] rest (suc (length (mux fs rest))) a h (omega arith))
