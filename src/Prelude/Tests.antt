-- ===== src/Prelude/Tests.antt =====
-- Boolean tests on numbers and texts, the conditional, and case splits that keep the equation.
use Prim.Native.Nat.{ℕ, compare, Ordering}
use Prim.Native.String.{String}
use mathlib.Core.Path.{◌≡◌, refl}
use mathlib.Core.Logic.{◌⊎◌, inl, inr}
use mathlib.Core.Bool.{Bool, true, false}
use mathlib.Core.Option.{Option, none, some}
use native.Mathlib.Omega.{arith}
use text.Mathlib.Text.{◌==◌ as text_eq}
use text.Mathlib.TextEquality.{eq_iff}

abbrev pub ltb : ℕ → ℕ → Bool
ltb a b = elim (compare a b) [ Ordering.lt ↦ true | _ ↦ false ]

abbrev pub leb : ℕ → ℕ → Bool
leb a b = elim (compare a b) [ Ordering.gt ↦ false | _ ↦ true ]

abbrev pub nat_eq : ℕ → ℕ → Bool
nat_eq a b = elim (compare a b) [ Ordering.eq ↦ true | _ ↦ false ]

decide_text : (s t : String) (b : Bool) → text_eq s t ≡ b → Dec (s ≡ t)
decide_text s t true e = yes ((eq_iff s t).0 e)
decide_text s t false e = no (λ p. cc ((eq_iff s t).1 p))

unfoldable pub String_discrete : Discrete String
unfolding decide_text
String_discrete s t = decide_text s t (text_eq s t) refl

-- `===` on texts; the tactics read its cases as equations.
infix 50 ◌==◌
abbrev pub ◌==◌ : String → String → Bool
s == t = elim (String_discrete s t) [ yes _ ↦ true | no _ ↦ false ]

infix 1 if◌then◌else◌
abbrev pub if◌then◌else◌ {ℓ} : {A : Type ℓ} → Bool → A → A → A
if true then x else y = x
if false then x else y = y

pub eq_refl : (s : String) → (s == s) ≡ true
eq_refl s = ground arith

pub eq_of_test : {s t : String} → (s == t) ≡ true → s ≡ t
eq_of_test h = ground arith

pub Bool-cases : (b : Bool) → (b ≡ true) ⊎ (b ≡ false)
Bool-cases true = inl refl
Bool-cases false = inr refl

pub Option-cases {ℓ} : {A : Type ℓ} (o : Option A) → (o ≡ none) ⊎ ((a : A) × (o ≡ some a))
Option-cases none = inl refl
Option-cases (some a) = inr (a, refl)

-- `x ?? d`.
abbrev pub get_or {ℓ} : {A : Type ℓ} → Option A → A → A
get_or none d = d
get_or (some a) d = a

abbrev pub is_some {ℓ} : {A : Type ℓ} → Option A → Bool
is_some none = false
is_some (some a) = true

-- A text as a condition: `if (s)` is false exactly at the empty text.
abbrev pub truthy : String → Bool
truthy s = elim (String_discrete s "") [ yes _ ↦ false | no _ ↦ true ]

-- `if (o)` for a text that may be absent.
abbrev pub present : Option String → Bool
present none = false
present (some s) = truthy s

abbrev pub opt_eq : Option String → Option String → Bool
opt_eq none none = true
opt_eq (some s) (some t) = s == t
opt_eq _ _ = false
