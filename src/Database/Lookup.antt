-- ===== src/Database/Lookup.antt =====
-- What the laws of a table give for look-ups by a condition.
use mathlib.Core.List.{Memᴰ}
use vibe_ocpp.Prelude.{
  List, [], ◌∷◌, length, ltb, Bool-cases, String, ◌≡◌, Bool, true, false, none, some, arith,
  Option-cases, inl, inr,
}
use vibe_ocpp.Database.{Table, TableLaws}

length-pos {ℓ} : {A : Type ℓ} {a : A} (xs : List A) → Memᴰ a xs → ltb 0 (length xs) ≡ true
length-pos [] m = elim m [ ]
length-pos (x ∷ xs) (Memᴰ.head e) = ground arith
length-pos (x ∷ xs) (Memᴰ.tail m) = ground arith

module _ {Row : Type 0} {id : Row → String} (T : Table Row id) (L : TableLaws T) where
  -- A condition that one row alone meets finds that row.
  pub find_only :
      (p : Row → Bool) (s : T.Store) (k : String) (r : Row)
      → T.get k s ≡ some r
      → p r ≡ true
      → ((j : String) (q : Row) → T.get j s ≡ some q → p q ≡ true → j ≡ k)
      → T.find p s ≡ some r
  find_only p s k r g t only = elim (Option-cases (T.find p s)) [
    | inl e ↦ ground (arith, L.find_complete p s k r e g)
    | inr (q, e) ↦ ground (arith, L.find_sound p s q e, only (id q) q)
  ]

  -- A condition that no row meets finds none.
  pub find_nothing :
      (p : Row → Bool) (s : T.Store)
      → ((j : String) (q : Row) → T.get j s ≡ some q → p q ≡ false)
      → T.find p s ≡ none
  find_nothing p s none_meets = elim (Option-cases (T.find p s)) [
    | inl e ↦ e
    | inr (q, e) ↦ ground (arith, L.find_sound p s q e, none_meets (id q) q)
  ]

  -- A condition that counts no row is met by none.
  pub list_nothing :
      (p : Row → Bool) (s : T.Store) (k : String) (r : Row)
      → ltb 0 (length (T.list p s)) ≡ false
      → T.get k s ≡ some r
      → p r ≡ false
  list_nothing p s k r n g = elim (Bool-cases (p r)) [
    | inl e ↦ cc (length-pos (T.list p s) (L.list_complete p s k r g e))
    | inr e ↦ e
  ]
