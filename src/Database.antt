-- ===== src/Database.antt =====
-- The database that the services work on. The queries run in Prisma and PostgreSQL, which are not
-- part of the repository: a table is a parameter of every service, with the behaviour of the
-- queries that backend/src uses. Rows are found by their `id`, the primary key of
-- backend/prisma/schema.prisma. The database is taken to be up: a query does not throw.
pub mod Shelf
pub mod Lookup
use vibe_ocpp.Prelude.{
  ℕ, ◌≤◌, String, ◌≡◌, Bool, true, false, not, Option, none, some, List, All, ◌==◌, if◌then◌else◌,
  Result, ok, err, failure, Action,
}
use mathlib.Core.List.{Memᴰ}
use mathlib.Core.Option

abbrev pub keep : {Row : Type 0} → (Row → Bool) → Option Row → Option Row
keep p none = none
keep p (some r) = if p r then some r else none

pub record Table (Row : Type 0) (id : Row → String) : Type 1 where
  pub Store : Type 0
  -- findUnique by `id`
  pub get : String → Store → Option Row
  -- findFirst, and findUnique by another key
  pub find : (Row → Bool) → Store → Option Row
  -- findFirst with the least value of a column
  pub find_least : (Row → Bool) → (Row → ℕ) → Store → Option Row
  -- findMany
  pub list : (Row → Bool) → Store → List Row
  pub create : Row → Store → Store
  -- update by `id`
  pub update : String → (Row → Row) → Store → Store
  -- updateMany
  pub update_many : (Row → Bool) → (Row → Row) → Store → Store
  -- delete, deleteMany
  pub remove : (Row → Bool) → Store → Store

module _ {Row : Type 0} {id : Row → String} (T : Table Row id) where
  open T use {Store, get, find, find_least, list, create, update, update_many, remove}

  updated : String → (Row → Row) → Store → Option Row → Result Row × Store
  updated k f s none = (err (failure "Record to update not found."), s)
  updated k f s (some r) = (ok (f r), update k f s)

  -- `update` with the row that it returns; it throws where no row has the `id`.
  unfoldable pub update_row : String → (Row → Row) → Action Store Row
  unfolding updated
  update_row k f s = updated k f s (get k s)

  -- What Prisma documents of these queries. An update must leave the `id` alone, and a new row
  -- needs an `id` that is free.
  pub record TableLaws : Type 0 where
    pub get_id : (k : String) (s : Store) (r : Row) → get k s ≡ some r → id r ≡ k
    pub find_sound :
        (p : Row → Bool) (s : Store) (r : Row)
        → find p s ≡ some r
        → (p r ≡ true) × (get (id r) s ≡ some r)
    pub find_complete :
        (p : Row → Bool) (s : Store) (k : String) (r : Row)
        → find p s ≡ none
        → get k s ≡ some r
        → p r ≡ false
    pub find_least_sound :
        (p : Row → Bool) (m : Row → ℕ) (s : Store) (r : Row)
        → find_least p m s ≡ some r
        → (p r ≡ true) × (get (id r) s ≡ some r)
    pub find_least_least :
        (p : Row → Bool) (m : Row → ℕ) (s : Store) (r : Row) (k : String) (q : Row)
        → find_least p m s ≡ some r
        → get k s ≡ some q
        → p q ≡ true
        → m r ≤ m q
    pub find_least_complete :
        (p : Row → Bool) (m : Row → ℕ) (s : Store) (k : String) (r : Row)
        → find_least p m s ≡ none
        → get k s ≡ some r
        → p r ≡ false
    pub list_sound :
        (p : Row → Bool) (s : Store) → All (λ r. (p r ≡ true) × (get (id r) s ≡ some r)) (list p s)
    pub list_complete :
        (p : Row → Bool) (s : Store) (k : String) (r : Row)
        → get k s ≡ some r
        → p r ≡ true
        → Memᴰ r (list p s)
    pub get-create :
        (k : String) (r : Row) (s : Store)
        → get (id r) s ≡ none
        → get k (create r s) ≡ (if id r == k then some r else get k s)
    pub get-update :
        (j k : String) (f : Row → Row) (s : Store)
        → ((r : Row) → id (f r) ≡ id r)
        → get j (update k f s) ≡ (if k == j then Option.map f (get j s) else get j s)
    pub get-update_many :
        (j : String) (p : Row → Bool) (f : Row → Row) (s : Store)
        → ((r : Row) → id (f r) ≡ id r)
        → get j (update_many p f s) ≡ Option.map (λ r. if p r then f r else r) (get j s)
    pub get-remove :
        (k : String) (p : Row → Bool) (s : Store)
        → get k (remove p s) ≡ keep (λ r. not (p r)) (get k s)
