-- ===== src/Settings/Encryption/Plain.antt =====
-- A cipher that runs: it leaves the text as it is, and shows that the laws of `Crypto` can hold.
use Prim.Native.Nat.{compare, Ordering}
use Prim.Native.Char.{Char, char, code, nul, IsLt, IsScalar}
use Prim.Native.String.{[] as empty_text, ◌∷◌ as put}
use vibe_ocpp.Prelude.{ℕ, String, ◌≡◌, refl, ap, [], ◌∷◌, some}
use vibe_ocpp.Settings.Encryption.{Bytes, Crypto, CryptoLaws}

abbrev BothLt : Ordering → Ordering → Type 0
BothLt Ordering.lt o = IsLt o
BothLt Ordering.eq _ = ⊥
BothLt Ordering.gt _ = ⊥

abbrev LtOrBothLt : Ordering → Ordering → Ordering → Type 0
LtOrBothLt Ordering.lt _ _ = Unit
LtOrBothLt Ordering.eq o p = BothLt o p
LtOrBothLt Ordering.gt o p = BothLt o p

dec_lt : (o : Ordering) → Dec (IsLt o)
dec_lt Ordering.lt = yes tt
dec_lt Ordering.eq = no (λ x. x)
dec_lt Ordering.gt = no (λ x. x)

dec_both : (o p : Ordering) → Dec (BothLt o p)
unfolding dec_lt
dec_both Ordering.lt p = dec_lt p
dec_both Ordering.eq p = no (λ x. x)
dec_both Ordering.gt p = no (λ x. x)

dec_either : (n o p : Ordering) → Dec (LtOrBothLt n o p)
unfolding dec_both
dec_either Ordering.lt o p = yes tt
dec_either Ordering.eq o p = dec_both o p
dec_either Ordering.gt o p = dec_both o p

lt_prop : (o : Ordering) (x y : IsLt o) → x ≡ y
lt_prop Ordering.lt x y = refl
lt_prop Ordering.eq x y = absurd x
lt_prop Ordering.gt x y = absurd x

both_prop : (o p : Ordering) (x y : BothLt o p) → x ≡ y
both_prop Ordering.lt p x y = lt_prop p x y
both_prop Ordering.eq p x y = absurd x
both_prop Ordering.gt p x y = absurd x

either_prop : (n o p : Ordering) (x y : LtOrBothLt n o p) → x ≡ y
either_prop Ordering.lt o p x y = refl
either_prop Ordering.eq o p x y = both_prop o p x y
either_prop Ordering.gt o p x y = both_prop o p x y

chosen : (n : ℕ) → Dec (IsScalar n) → Char
chosen n (yes p) = char n p
chosen n (no _) = nul

chosen_lem : (n : ℕ) (p : IsScalar n) (d : Dec (IsScalar n)) → chosen n d ≡ char n p
unfolding chosen
chosen_lem n p (yes q) =
    ap (char n) (either_prop (compare n 55296) (compare 57343 n) (compare n 1114112) q p)
chosen_lem n p (no q) = absurd (q p)

from_code : ℕ → Char
unfolding chosen dec_either
from_code n = chosen n (dec_either (compare n 55296) (compare 57343 n) (compare n 1114112))

codes : String → Bytes
codes empty_text = []
codes (put c s) = code c ∷ codes s

text : Bytes → String
unfolding from_code
text [] = ""
text (n ∷ ns) = put (from_code n) (text ns)

char-code : (c : Char) → from_code (code c) ≡ c
unfolding from_code
char-code (char n p) =
    chosen_lem n p (dec_either (compare n 55296) (compare 57343 n) (compare n 1114112))

text-codes : (s : String) → text (codes s) ≡ s
unfolding text codes
text-codes empty_text = refl
text-codes (put c s) = rw (char-code c, text-codes s) refl

unfoldable pub plain : Crypto
unfolding codes text
plain = record {
  cipher = λ key iv p. p;
  tag = λ key iv p. [];
  decipher = λ key iv t c. some c;
  base64 = codes;
  utf8 = codes;
  from_utf8 = text;
}

pub plain-CryptoLaws : CryptoLaws plain
unfolding plain
plain-CryptoLaws = record { decipher-cipher = λ key iv p. refl; from_utf8-utf8 = text-codes }
