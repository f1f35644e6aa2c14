-- ===== src/Prelude/Text.antt =====
-- Texts by characters. The source counts UTF-16 code units; here a character counts as one.
use Prim.Native.Nat.{ℕ, zero, suc, ◌+◌, ◌-◌}
use Prim.Native.String
use Prim.Native.String.{String, [], ◌∷◌}
use mathlib.Core.Bool.{Bool, false, ◌&&◌, ◌||◌}
use mathlib.Core.List.{List, [], ◌∷◌}
use vibe_ocpp.Prelude.Tests.{◌==◌, if◌then◌else◌}
use mathlib.Core.Path.{◌≡◌}
use native.Mathlib.Omega.{arith}
use text.Mathlib.TextLemmas.{nil-append, cons-append}

infixr 65 ◌+++◌
abbrev pub ◌+++◌ : String → String → String
s +++ t = String.◌++◌ s t

abbrev pub text_length : String → ℕ
text_length [] = 0
text_length (c ∷ s) = suc (text_length s)

abbrev pub text_drop : ℕ → String → String
text_drop zero s = s
text_drop (suc n) [] = ""
text_drop (suc n) (c ∷ s) = text_drop n s

abbrev pub text_take : ℕ → String → String
text_take zero s = ""
text_take (suc n) [] = ""
text_take (suc n) (c ∷ s) = c ∷ text_take n s

-- `s.startsWith(p)`.
abbrev pub starts_with : String → String → Bool
starts_with s p = text_take (text_length p) s == p

-- `s.slice(-n)` for 0 < n.
abbrev pub last : ℕ → String → String
last n s = text_drop (text_length s - n) s

pub text_length-append : (s t : String) → text_length (s +++ t) ≡ text_length s + text_length t
text_length-append [] t = rw nil-append (omega arith)
text_length-append (c ∷ s) t = rw cons-append (omega (arith, text_length-append s t))

pub text_drop-append : (s t : String) → text_drop (text_length s) (s +++ t) ≡ t
text_drop-append [] t = nil-append t
text_drop-append (c ∷ s) t = rw cons-append (text_drop-append s t)

abbrev onto_head : String → List String → List String
onto_head c [] = c ∷ []
onto_head c (s ∷ rest) = (c +++ s) ∷ rest

-- `s.split('/')`.
abbrev pub split_at_slash : String → List String
split_at_slash [] = "" ∷ []
split_at_slash (c ∷ s) =
    let rest = split_at_slash s in if (c ∷ "") == "/" then "" ∷ rest else onto_head (c ∷ "") rest

-- `s.replace(/^\/+/, '')`.
abbrev pub without_leading_slashes : String → String
without_leading_slashes [] = ""
without_leading_slashes (c ∷ s) =
    let rest = without_leading_slashes s in if (c ∷ "") == "/" then rest else c ∷ s

-- `s.replace(/\/+$/, '')`.
abbrev pub without_trailing_slashes : String → String
without_trailing_slashes [] = ""
without_trailing_slashes (c ∷ s) =
    let rest = without_trailing_slashes s in
    if (rest == "") && (c ∷ "") == "/" then "" else c ∷ rest

-- `s.includes(':')`.
abbrev pub has_colon : String → Bool
has_colon [] = false
has_colon (c ∷ s) = (c ∷ "") == ":" || has_colon s
