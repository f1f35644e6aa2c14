-- ===== src/Payment/Crud/Sequence.antt =====
-- A table that runs: rows under the numbers of a sequence, with no constraint but a condition on
-- the rows that may be deleted, for the other tables' references to them.
use vibe_ocpp.Prelude.{
  Bool, Action, ok, err, failure, refl, ℕ, zero, suc, Option, none, some, List, [], ◌∷◌, length,
  take, ◌≤◌, arith, ltb, nat_eq, if◌then◌else◌,
}
use mathlib.Core.Option
use vibe_ocpp.Payment.Crud.{SqlTable, SqlLaws}

-- The next number, and the row under each number before it.
pub record Sequence (Row : Type 0) : Type 0 where
  pub next : ℕ
  pub row : ℕ → Option Row

module _ {Row : Type 0} where
  abbrev pub select : ℕ → Sequence Row → Option Row
  select k s = if ltb k s.next then s.row k else none

  abbrev pub push : Option Row → List Row → List Row
  push none rs = rs
  push (some r) rs = r ∷ rs

  abbrev pub below : (ℕ → Option Row) → ℕ → List Row
  below row zero = []
  below row (suc n) = push (row n) (below row n)

  abbrev pub insert : (ℕ → Row) → Action (Sequence Row) ℕ
  insert r s = (
    ok s.next,
    record { next = suc s.next; row = λ k. if nat_eq s.next k then some (r k) else s.row k },
  )

  abbrev pub update : ℕ → (Row → Row) → Action (Sequence Row) (Unit {0})
  update k f s =
      (ok tt, record s { row = λ j. if nat_eq k j then Option.map f (s.row j) else s.row j })

  abbrev pub delete : (ℕ → Bool) → ℕ → Action (Sequence Row) (Unit {0})
  delete referenced k s =
      if referenced k
      then (err (failure "violates foreign key constraint"), s)
      else (ok tt, record s { row = λ j. if nat_eq k j then none else s.row j })

  length-take : (n : ℕ) (xs : List Row) → length (take n xs) ≤ n
  length-take zero xs = omega arith
  length-take (suc n) [] = omega arith
  length-take (suc n) (x ∷ xs) = omega (arith, length-take n xs)

module _ {Row : Type 0} (key : Row → ℕ) (referenced : ℕ → Bool) where
  abbrev pub sequence : SqlTable Row key
  sequence = record {
    Store = Sequence Row;
    select_all = λ s. below s.row s.next;
    select = select;
    newest = λ n s. take n (below s.row s.next);
    insert = insert;
    update = update;
    delete = delete referenced;
  }

  pub sequence-SqlLaws : SqlLaws sequence
  sequence-SqlLaws = record {
    insert_fresh = λ r n s o. ground (arith, o);
    select-insert = λ j r n s o h. ground (arith, o);
    insert_refused = λ j r e s o. cc;
    select-update = λ j k f s o h. ground arith;
    update_refused = λ j k f e s o. cc;
    update_same = λ k f s h. refl;
    select-delete = λ j k s o. ground (arith, o);
    delete_refused = λ j k e s o. ground (arith, o);
    newest_length = λ n s. length-take n (below s.row s.next);
  }
