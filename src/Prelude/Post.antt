-- ===== src/Prelude/Post.antt =====
-- Postconditions of actions: one for a value, one for an error, with a rule for each way to go on.
use vibe_ocpp.Prelude.Effects.{Error, Result, ok, err, Action, and_then, recover}

module _ {S : Type 0} where
  -- What holds where an outcome is a value, and where it is an error.
  unfoldable pub Case : {A : Type 0} → (A → S → Type 0) → (S → Type 0) → Result A × S → Type 0
  Case Q F (ok a, w) = Q a w
  Case Q F (err e, w) = F w

  pub record Post {A : Type 0} (Q : A → S → Type 0) (F : S → Type 0) (x : Result A × S)
      : Type 0 where
    pub holds : Case Q F x

  pub chain :
      {A B : Type 0} {Q : A → S → Type 0} {R : B → S → Type 0} {F : S → Type 0} (x : Result A × S)
      (f : A → Action S B)
      → Post Q F x
      → ((a : A) (w : S) → Q a w → Post R F (f a w))
      → Post R F (and_then x f)
  unfolding Case
  chain (ok a, w) f h g = g a w h.holds
  chain (err e, w) f h g = record { holds = h.holds }

  pub rescue :
      {A : Type 0} {Q : A → S → Type 0} {F G : S → Type 0} (x : Result A × S)
      (h : Error → Action S A)
      → Post Q F x
      → ((e : Error) (w : S) → F w → Post Q G (h e w))
      → Post Q G (recover x h)
  unfolding Case
  rescue (ok a, w) h p g = record { holds = p.holds }
  rescue (err e, w) h p g = g e w p.holds
