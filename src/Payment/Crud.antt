-- ===== src/Payment/Crud.antt =====
-- The five queries of backend/src/payment/payment-data.service.ts, which its methods repeat for each
-- entity. A table of the payment service's PostgreSQL database is a parameter. A tenant's pool and
-- table prefix come from payment-db.service.ts; each pool has its own tables. A query that
-- only reads does not throw.
pub mod Laws
pub mod Sequence
use vibe_ocpp.Prelude.{
  ℕ, ◌≤◌, String, ◌≡◌, Bool, true, false, Option, none, some, List, length, map, Result, ok, err,
  Error, not_found, Action, ◌==◌, nat_eq, if◌then◌else◌,
}
use mathlib.Core.Option

-- `Store` is the database as the table's queries find it, the tables that its constraints refer
-- to included. A statement that would break a constraint (UNIQUE, REFERENCES) throws.
pub record SqlTable (Row : Type 0) (key : Row → ℕ) : Type 1 where
  pub Store : Type 0
  -- SELECT … ; SELECT … WHERE id = $1 ; SELECT … ORDER BY id DESC LIMIT $1
  pub select_all : Store → List Row
  pub select : ℕ → Store → Option Row
  pub newest : ℕ → Store → List Row
  -- INSERT, with the id that the sequence gives
  pub insert : (ℕ → Row) → Action Store ℕ
  -- UPDATE … WHERE id = $1 ; DELETE … WHERE id = $1
  pub update : ℕ → (Row → Row) → Action Store (Unit {0})
  pub delete : ℕ → Action Store (Unit {0})

-- What PostgreSQL documents of these queries; one that throws changes no row.
pub record SqlLaws {Row : Type 0} {key : Row → ℕ} (T : SqlTable Row key) : Type 0 where
  pub insert_fresh :
      (r : ℕ → Row) (n : ℕ) (s : T.Store) → (T.insert r s).0 ≡ ok n → T.select n s ≡ none
  pub select-insert :
      (j : ℕ) (r : ℕ → Row) (n : ℕ) (s : T.Store)
      → (T.insert r s).0 ≡ ok n
      → ((m : ℕ) → key (r m) ≡ m)
      → T.select j ((T.insert r s).1) ≡ (if nat_eq n j then some (r n) else T.select j s)
  pub insert_refused :
      (j : ℕ) (r : ℕ → Row) (e : Error) (s : T.Store)
      → (T.insert r s).0 ≡ err e
      → T.select j ((T.insert r s).1) ≡ T.select j s
  pub select-update :
      (j k : ℕ) (f : Row → Row) (s : T.Store)
      → (T.update k f s).0 ≡ ok tt
      → ((r : Row) → key (f r) ≡ key r)
      → T.select j ((T.update k f s).1)
        ≡ (if nat_eq k j then Option.map f (T.select j s) else T.select j s)
  pub update_refused :
      (j k : ℕ) (f : Row → Row) (e : Error) (s : T.Store)
      → (T.update k f s).0 ≡ err e
      → T.select j ((T.update k f s).1) ≡ T.select j s
  -- a row that keeps its values keeps to the constraints
  pub update_same :
      (k : ℕ) (f : Row → Row) (s : T.Store) → ((r : Row) → f r ≡ r) → (T.update k f s).0 ≡ ok tt
  pub select-delete :
      (j k : ℕ) (s : T.Store)
      → (T.delete k s).0 ≡ ok tt
      → T.select j ((T.delete k s).1) ≡ (if nat_eq k j then none else T.select j s)
  pub delete_refused :
      (j k : ℕ) (e : Error) (s : T.Store)
      → (T.delete k s).0 ≡ err e
      → T.select j ((T.delete k s).1) ≡ T.select j s
  pub newest_length : (n : ℕ) (s : T.Store) → length (T.newest n s) ≤ n

-- What is made of a statement's answer; its error is thrown on.
unfoldable pub answering : {A B : Type 0} → (A → Result B) → Result A → Result B
answering f (ok a) = f a
answering f (err e) = err e

module _ {Row : Type 0} {key : Row → ℕ} (T : SqlTable Row key)
    (get_pool : String → Result String) where
  -- The table in each pool.
  abbrev pub Pools : Type 0
  Pools = String → T.Store

  abbrev pub put : String → T.Store → Pools → Pools
  put pool s w = λ other. if pool == other then s else w other

  at_pool : {A : Type 0} → Action T.Store A → Result String → Action Pools A
  at_pool m (err e) w = (err e, w)
  at_pool m (ok pool) w = ((m (w pool)).0, put pool ((m (w pool)).1) w)

  query : {A : Type 0} → String → Action T.Store A → Action Pools A
  unfolding at_pool
  query tenant_id m = at_pool m (get_pool tenant_id)

  module _ {Entity : Type 0} (row_to : Row → Entity) where
    unfoldable pub select_rows : String → Action Pools (List Entity)
    unfolding query
    select_rows tenant_id = query tenant_id (λ s. (ok (map row_to (T.select_all s)), s))

    unfoldable pub select_newest : String → ℕ → Action Pools (List Entity)
    unfolding query
    select_newest tenant_id limit = query tenant_id (λ s. (ok (map row_to (T.newest limit s)), s))

    unfoldable pub insert_row : String → (ℕ → Row) → Action Pools Entity
    unfolding query answering
    insert_row tenant_id row =
        query tenant_id
          (λ s. (answering (λ n. ok (row_to (row n))) ((T.insert row s).0), (T.insert row s).1))

    -- `rows[0]`, or the exception where there is none.
    first_or : String → Option Row → Result Entity
    first_or text none = err (not_found text)
    first_or text (some r) = ok (row_to r)

    unfoldable pub select_row : String → String → ℕ → Action Pools Entity
    unfolding query first_or
    select_row text tenant_id id = query tenant_id (λ s. (first_or text (T.select id s), s))

    unfoldable pub update_row : String → String → ℕ → (Row → Row) → Action Pools Entity
    unfolding query first_or answering
    update_row text tenant_id id set = query tenant_id (λ s. (
      answering (λ _. first_or text (Option.map set (T.select id s))) ((T.update id set s).0),
      (T.update id set s).1,
    ))

  counted : String → Option Row → Result (Unit {0})
  counted text none = err (not_found text)
  counted text (some r) = ok tt

  unfoldable pub delete_row : String → String → ℕ → Action Pools (Unit {0})
  unfolding query counted answering
  delete_row text tenant_id id =
      query tenant_id (λ s.
        (answering (λ _. counted text (T.select id s)) ((T.delete id s).0), (T.delete id s).1))
