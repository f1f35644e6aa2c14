-- ===== src/Database/Shelf.antt =====
-- A table that runs: it shows that the laws of `Table` can hold, and the tests work on it.
pub mod Laws
use vibe_ocpp.Prelude.{
  ℕ, String, Bool, not, Option, none, some, List, [], ◌∷◌, ◌==◌, ◌&&◌, leb, if◌then◌else◌,
}
use mathlib.Core.Option
use vibe_ocpp.Database.{Table, keep}

-- The keys ever used, newest first, and the row that each has now.
pub record Shelf (Row : Type 0) : Type 0 where
  pub keys : List String
  pub row : String → Option Row

module _ {Row : Type 0} (id : Row → String) where
  visible : Option Row → String → List String → Option Row
  visible o k [] = none
  visible o k (j ∷ ks) = if j == k then keep (λ r. id r == k) o else visible o k ks

  unfoldable pub get : String → Shelf Row → Option Row
  unfolding visible
  get k s = visible (s.row k) k s.keys

  orelse : (Row → Bool) → Option Row → Option Row → Option Row
  orelse p none o = o
  orelse p (some r) o = if p r then some r else o

  find_in : (Row → Bool) → Shelf Row → List String → Option Row
  find_in p s [] = none
  find_in p s (k ∷ ks) = orelse p (get k s) (find_in p s ks)

  unfoldable pub find : (Row → Bool) → Shelf Row → Option Row
  unfolding find_in orelse get
  find p s = find_in p s s.keys

  lesser : (Row → Bool) → (Row → ℕ) → Option Row → Option Row → Option Row
  lesser p m none o = o
  lesser p m (some r) none = if p r then some r else none
  lesser p m (some r) (some q) = if p r && leb (m r) (m q) then some r else some q

  least_in : (Row → Bool) → (Row → ℕ) → Shelf Row → List String → Option Row
  least_in p m s [] = none
  least_in p m s (k ∷ ks) = lesser p m (get k s) (least_in p m s ks)

  unfoldable pub find_least : (Row → Bool) → (Row → ℕ) → Shelf Row → Option Row
  unfolding least_in lesser get
  find_least p m s = least_in p m s s.keys

  push : (Row → Bool) → Option Row → List Row → List Row
  push p none rs = rs
  push p (some r) rs = if p r then r ∷ rs else rs

  list_in : (Row → Bool) → Shelf Row → List String → List Row
  list_in p s [] = []
  list_in p s (k ∷ ks) = push p (get k s) (list_in p s ks)

  unfoldable pub list : (Row → Bool) → Shelf Row → List Row
  unfolding list_in push get
  list p s = list_in p s s.keys

  unfoldable pub create : Row → Shelf Row → Shelf Row
  create r s = record { keys = id r ∷ s.keys; row = λ k. if id r == k then some r else s.row k }

  unfoldable pub update : String → (Row → Row) → Shelf Row → Shelf Row
  update k f s = record s { row = λ j. if k == j then Option.map f (s.row j) else s.row j }

  unfoldable pub update_many : (Row → Bool) → (Row → Row) → Shelf Row → Shelf Row
  update_many p f s = record s { row = λ j. Option.map (λ r. if p r then f r else r) (s.row j) }

  unfoldable pub remove : (Row → Bool) → Shelf Row → Shelf Row
  remove p s = record s { row = λ j. keep (λ r. not (p r)) (s.row j) }

abbrev pub shelf : {Row : Type 0} (id : Row → String) → Table Row id
shelf {Row} id = record {
  Store = Shelf Row;
  get = get id;
  find = find id;
  find_least = find_least id;
  list = list id;
  create = create id;
  update = update id;
  update_many = update_many id;
  remove = remove id;
}

abbrev pub empty : {Row : Type 0} → Shelf Row
empty = record { keys = []; row = λ _. none }
