-- ===== src/Citrineos/Csv/Reading.antt =====
-- A reader of CSV with quoted fields, which the export knows nothing of.
use Prim.Native.Char.{Char}
use Prim.Native.String.{String, [], ◌∷◌}
use mathlib.Core.List.{List, [], ◌∷◌, map}
use text.Mathlib.TextEquality.{eq_iff}
use text.Mathlib.TextLemmas.{nil-append, cons-append, append-nil, append_assoc}
use vibe_ocpp.Prelude.{
  ℕ, zero, suc, ◌≤◌, ◌<◌, ◌≡◌, ◌≢◌, refl, true, false, Option, none, some, get_or, ◌==◌,
  String_discrete, if◌then◌else◌, arith, Bool-cases, eq_refl, eq_of_test, length, inl, inr,
}
use vibe_ocpp.Prelude.Text.{◌+++◌}
use vibe_ocpp.Citrineos.Log.{MessageLog, action_of}
use vibe_ocpp.Citrineos.Csv.{event_name, doubled, quoted, joined, fields, row, header, to_csv}

abbrev with_first : String → Option (String × String) → Option (String × String)
with_first c none = none
with_first c (some (content, rest)) = some (c +++ content, rest)

-- What follows an opening quote, up to its closing one, and the rest. Two quotes stand for one.
unfoldable pub read_field : String → Option (String × String)
read_field [] = none
read_field (c ∷ []) = if (c ∷ "") == "\"" then some ("", "") else none
read_field (c ∷ d ∷ s) =
    let plain = with_first (c ∷ "") (read_field (d ∷ s)) in
    let two = with_first "\"" (read_field s) in
    if (c ∷ "") == "\"" then (if (d ∷ "") == "\"" then two else some ("", d ∷ s)) else plain

-- No quote comes first.
abbrev NoQuote : String → Type 0
NoQuote [] = Unit
NoQuote (c ∷ s) = ((c ∷ "") == "\"") ≡ false

closes : (rest : String) → NoQuote rest → read_field ("\"" ∷ rest) ≡ some ("", rest)
unfolding read_field
closes [] h = rw (eq_refl "\"") refl
closes (c ∷ s) h = rw (eq_refl "\"", h) refl

two_quotes : (s : String) → read_field ("\"" ∷ ("\"" ∷ s)) ≡ with_first "\"" (read_field s)
unfolding read_field
two_quotes s = rw (eq_refl "\"") refl

plain_char :
    (c : Char) (s : String)
    → ((c ∷ "") == "\"") ≡ false
    → read_field (c ∷ s) ≡ with_first (c ∷ "") (read_field s)
unfolding read_field
plain_char c [] h = rw h refl
plain_char c (d ∷ s) h = rw h refl

-- A quoted field is read back, with what follows it.
read_field-doubled :
    (f rest : String) → NoQuote rest → read_field (doubled f +++ ("\"" ∷ rest)) ≡ some (f, rest)
read_field-doubled [] rest h = rw nil-append (closes rest h)
read_field-doubled (c ∷ f) rest h = elim (Bool-cases ((c ∷ "") == "\"")) [
  | inl a ↦
      let e : (c ∷ "") ≡ "\"" = eq_of_test a in
      rw
        (
          a,
          cons-append,
          cons-append,
          two_quotes,
          read_field-doubled f rest h,
          ← e,
          cons-append,
          nil-append,
        )
        refl
  | inr a ↦
      rw (a, cons-append, plain_char c _ a, read_field-doubled f rest h, cons-append, nil-append)
        refl
]

abbrev with_cell : String → Option (List String × String) → Option (List String × String)
with_cell f none = none
with_cell f (some (fs, rest)) = some (f ∷ fs, rest)

after_field :
    Option (String × String)
    → (String → Option (List String × String))
    → Option (List String × String)
after_field none more = none
after_field (some (f, [])) more = some (f ∷ [], "")
after_field (some (f, d ∷ rest)) more =
    if (d ∷ "") == "," then with_cell f (more rest) else some (f ∷ [], d ∷ rest)

-- The quoted fields of a line and what follows the line, on fuel.
unfoldable pub read_cells : ℕ → String → Option (List String × String)
unfolding after_field
read_cells zero s = none
read_cells (suc n) [] = none
read_cells (suc n) (c ∷ s) =
    if (c ∷ "") == "\"" then after_field (read_field s) (read_cells n) else none

-- The end of a line.
abbrev IsEnd : String → Type 0
IsEnd [] = Unit
IsEnd (c ∷ s) = ((c ∷ "") == "\n") ≡ true

newline_apart : (◌≢◌ {A = String} "\n" "\"") × (◌≢◌ {A = String} "\n" ",")
newline_apart = ((λ e. cc ((eq_iff "\n" "\"").1 e)), (λ e. cc ((eq_iff "\n" ",").1 e)))

quoted-append : (f rest : String) → quoted f +++ rest ≡ "\"" ∷ (doubled f +++ ("\"" ∷ rest))
quoted-append f rest = rw (cons-append, append_assoc, cons-append, nil-append) refl

last_cell :
    (f rest : String) (more : String → Option (List String × String))
    → IsEnd rest
    → after_field (read_field (doubled f +++ ("\"" ∷ rest))) more ≡ some (f ∷ [], rest)
unfolding after_field
last_cell f [] more h = rw (read_field-doubled f [] tt) refl
last_cell f (c ∷ s) more h =
    let a : ((c ∷ "") == "\"") ≡ false = ground (arith, newline_apart, h) in
    let b : ((c ∷ "") == ",") ≡ false = ground (arith, newline_apart, h) in
    rw (read_field-doubled f (c ∷ s) a, b) refl

comma_no_quote : (("," ∷ "") == "\"") ≡ false
unfolding String_discrete
comma_no_quote = refl

read_cells-row :
    (f : String) (fs : List String) (rest : String) (n : ℕ)
    → length fs < n
    → IsEnd rest
    → read_cells n (row (f ∷ fs) +++ rest) ≡ some (f ∷ fs, rest)
unfolding read_cells
read_cells-row f fs rest zero k h = elim k [ ]
read_cells-row f [] rest (suc n) k h =
    rw (quoted-append f rest, eq_refl "\"", last_cell f rest (read_cells n) h) refl
read_cells-row f (g ∷ fs) rest (suc n) k h =
    let ih = read_cells-row g fs rest n (omega arith) h in
    rw
      (
        append_assoc,
        quoted-append f _,
        eq_refl "\"",
        cons-append,
        read_field-doubled f _ comma_no_quote,
        eq_refl ",",
        ih,
      )
      refl

abbrev with_line : List String → Option (List (List String)) → Option (List (List String))
with_line fs none = none
with_line fs (some lines) = some (fs ∷ lines)

after_line :
    Option (List String × String)
    → (String → Option (List (List String)))
    → Option (List (List String))
after_line none more = none
after_line (some (fs, [])) more = some (fs ∷ [])
after_line (some (fs, d ∷ rest)) more = if (d ∷ "") == "\n" then with_line fs (more rest) else none

-- The lines of a text, on fuel; each line has at most `width` fields.
unfoldable pub read_lines : ℕ → ℕ → String → Option (List (List String))
unfolding after_line
read_lines width zero s = none
read_lines width (suc n) s = after_line (read_cells width s) (read_lines width n)

row_end :
    (width : ℕ) (f : String) (fs : List String)
    → length fs < width
    → read_cells width (row (f ∷ fs)) ≡ some (f ∷ fs, "")
row_end width f fs k = rw (← append-nil (row (f ∷ fs))) (read_cells-row f fs "" width k tt)

module _ (to_iso : ℕ → String) (width : ℕ) (wide : 6 ≤ width) where
  abbrev lines : List MessageLog → String
  lines ms = joined "\n" (map (λ m. row (fields to_iso m)) ms)

  abbrev other_fields : MessageLog → List String
  other_fields m =
      m.ocpp_connection_name
      ∷ event_name m.event
      ∷ get_or m.origin ""
      ∷ get_or (action_of m.info) ""
      ∷ get_or m.raw_message ""
      ∷ []

  read_lines-lines :
      (m : MessageLog) (ms : List MessageLog) (n : ℕ)
      → length ms < n
      → read_lines width n (lines (m ∷ ms)) ≡ some (map (fields to_iso) (m ∷ ms))
  unfolding read_lines
  read_lines-lines m ms zero k = elim k [ ]
  read_lines-lines m [] (suc n) k =
      rw (row_end width (to_iso m.received_at) (other_fields m) (omega arith)) refl
  read_lines-lines m (q ∷ ms) (suc n) k =
      let ih = read_lines-lines q ms n (omega arith) in
      rw
        (
          read_cells-row (to_iso m.received_at) (other_fields m) ("\n" ∷ lines (q ∷ ms)) width
              (omega arith) (eq_refl "\n"),
          eq_refl "\n",
          ih,
        )
        refl

  -- The export of at least one message is the header and a body that a reader of quoted CSV, with
  -- fuel for the messages and for six fields in a line, reads back as the fields of each message,
  -- whatever quotes, commas and line breaks they contain.
  pub to_csv-read_lines :
      (m : MessageLog) (ms : List MessageLog) (n : ℕ)
      → length ms < n
      → (body : String) × (to_csv to_iso (m ∷ ms) ≡ header +++ body)
        × (read_lines width n body ≡ some (map (fields to_iso) (m ∷ ms)))
  unfolding to_csv
  to_csv-read_lines m ms n k = (lines (m ∷ ms), refl, read_lines-lines m ms n k)
