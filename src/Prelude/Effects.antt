-- ===== src/Prelude/Effects.antt =====
-- Asynchronous methods as state transformers: the thrown exception is a value, and what was
-- written before it stays written.
use Prim.Native.String.{String}

-- The HTTP exceptions of the framework that the code throws; `failure` is any other `Error`.
pub data Error : Type 0 where
  bad_request unauthorized forbidden not_found conflict internal failure : String → Error

pub data Result {ℓ} (A : Type ℓ) : Type ℓ where
  ok : A → Result A
  err : Error → Result A

abbrev pub message : Error → String
message (bad_request s) = s
message (unauthorized s) = s
message (forbidden s) = s
message (not_found s) = s
message (conflict s) = s
message (internal s) = s
message (failure s) = s

abbrev pub Action {ℓ κ} : Type ℓ → Type κ → Type (ℓ ⊔ κ)
Action S A = S → Result A × S

-- What follows an outcome; a thrown error skips it.
abbrev pub and_then {ℓ κ ι} :
    {S : Type ℓ} {A : Type κ} {B : Type ι} → Result A × S → (A → Action S B) → Result B × S
and_then (ok a, s) f = f a s
and_then (err e, s) f = (err e, s)

infixl 5 ◌>>=◌ ◌>>◌
abbrev pub ◌>>=◌ {ℓ κ ι} :
    {S : Type ℓ} {A : Type κ} {B : Type ι} → Action S A → (A → Action S B) → Action S B
◌>>=◌ m f s = and_then (m s) f

abbrev pub ◌>>◌ {ℓ κ ι} :
    {S : Type ℓ} {A : Type κ} {B : Type ι} → Action S A → Action S B → Action S B
◌>>◌ m k s = and_then (m s) (λ _. k)

abbrev pub pure {ℓ κ} : {S : Type ℓ} {A : Type κ} → A → Action S A
pure a s = (ok a, s)

abbrev pub throw {ℓ κ} : {S : Type ℓ} {A : Type κ} → Error → Action S A
throw e s = (err e, s)

-- The state as a value.
abbrev pub asks {ℓ κ} : {S : Type ℓ} {A : Type κ} → (S → A) → Action S A
asks f s = (ok (f s), s)

-- A write.
abbrev pub modify {ℓ} : {S : Type ℓ} → (S → S) → Action S (Unit {0})
modify f s = (ok tt, f s)

-- What `catch` makes of an outcome.
abbrev pub recover {ℓ κ} :
    {S : Type ℓ} {A : Type κ} → Result A × S → (Error → Action S A) → Result A × S
recover (ok a, s) h = (ok a, s)
recover (err e, s) h = h e s

abbrev pub catch {ℓ κ} : {S : Type ℓ} {A : Type κ} → Action S A → (Error → Action S A) → Action S A
catch m h s = recover (m s) h
