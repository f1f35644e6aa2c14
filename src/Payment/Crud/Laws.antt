-- ===== src/Payment/Crud/Laws.antt =====
-- What the queries return and leave behind where the tenant has a pool.
use vibe_ocpp.Prelude.{
  ℕ, Error, ◌⊎◌, String, ◌≡◌, ◌≢◌, refl, none, some, map, Result, ok, err, Error, not_found, ◌==◌,
  eq_refl, eq_of_test, Bool-cases, inl, inr,
}
use vibe_ocpp.Payment.Crud.{
  SqlTable, SqlLaws, Pools, query, first_or, counted, select_row, insert_row, update_row,
  delete_row, select_newest, put, answering,
}

pub Result-cases :
    {A : Type 0} (o : Result A) → ((e : Error) × (o ≡ err e)) ⊎ ((a : A) × (o ≡ ok a))
Result-cases (ok a) = inr (a, refl)
Result-cases (err e) = inl (e, refl)

-- PostgreSQL refuses a statement: the call throws its error, and no row changes.
abbrev pub IsRefused :
    {Row : Type 0} {key : Row → ℕ} (T : SqlTable Row key) (get_pool : String → Result String)
    (pool : String)
    → Pools T get_pool
    → {A B : Type 0} → Result A
    → Result B × Pools T get_pool
    → Type 0
IsRefused T get_pool pool w statement call =
    (e : Error) × (statement ≡ err e)
    × (call.0 ≡ err e)
    × ((other : ℕ) → T.select other (call.1 pool) ≡ T.select other (w pool))

module _ {Row : Type 0} {key : Row → ℕ} (T : SqlTable Row key) (L : SqlLaws T)
    (get_pool : String → Result String) {Entity : Type 0} (row_to : Row → Entity) (text : String)
    (tenant_id pool : String) (connected : get_pool tenant_id ≡ ok pool) where
  pub select_found :
      (id : ℕ) (r : Row) (w : Pools T get_pool)
      → T.select id (w pool) ≡ some r
      → (select_row T get_pool row_to text tenant_id id w).0 ≡ ok (row_to r)
  unfolding select_row query first_or
  select_found id r w h = rw (connected, h) refl

  pub select_missing :
      (id : ℕ) (w : Pools T get_pool)
      → T.select id (w pool) ≡ none
      → (select_row T get_pool row_to text tenant_id id w).0 ≡ err (not_found text)
  unfolding select_row query first_or
  select_missing id w h = rw (connected, h) refl

  pub update_found :
      (id : ℕ) (f : Row → Row) (r : Row) (w : Pools T get_pool)
      → T.select id (w pool) ≡ some r
      → (T.update id f (w pool)).0 ≡ ok tt
      → update_row T get_pool row_to text tenant_id id f w
        ≡ (ok (row_to (f r)), put T get_pool pool ((T.update id f (w pool)).1) w)
  unfolding update_row query first_or answering
  update_found id f r w h o = rw (connected, o, h) refl

  pub update_thrown :
      (id : ℕ) (f : Row → Row) (e : Error) (w : Pools T get_pool)
      → (T.update id f (w pool)).0 ≡ err e
      → update_row T get_pool row_to text tenant_id id f w
        ≡ (err e, put T get_pool pool ((T.update id f (w pool)).1) w)
  unfolding update_row query answering
  update_thrown id f e w o = rw (connected, o) refl

  pub delete_found :
      (id : ℕ) (r : Row) (w : Pools T get_pool)
      → T.select id (w pool) ≡ some r
      → (T.delete id (w pool)).0 ≡ ok tt
      → delete_row T get_pool text tenant_id id w
        ≡ (ok tt, put T get_pool pool ((T.delete id (w pool)).1) w)
  unfolding delete_row query counted answering
  delete_found id r w h o = rw (connected, o, h) refl

  pub delete_thrown :
      (id : ℕ) (e : Error) (w : Pools T get_pool)
      → (T.delete id (w pool)).0 ≡ err e
      → delete_row T get_pool text tenant_id id w
        ≡ (err e, put T get_pool pool ((T.delete id (w pool)).1) w)
  unfolding delete_row query answering
  delete_thrown id e w o = rw (connected, o) refl

  pub insert_done :
      (row : ℕ → Row) (n : ℕ) (w : Pools T get_pool)
      → (T.insert row (w pool)).0 ≡ ok n
      → insert_row T get_pool row_to tenant_id row w
        ≡ (ok (row_to (row n)), put T get_pool pool ((T.insert row (w pool)).1) w)
  unfolding insert_row query answering
  insert_done row n w o = rw (connected, o) refl

  pub insert_thrown :
      (row : ℕ → Row) (e : Error) (w : Pools T get_pool)
      → (T.insert row (w pool)).0 ≡ err e
      → insert_row T get_pool row_to tenant_id row w
        ≡ (err e, put T get_pool pool ((T.insert row (w pool)).1) w)
  unfolding insert_row query answering
  insert_thrown row e w o = rw (connected, o) refl

  pub newest_done :
      (limit : ℕ) (w : Pools T get_pool)
      → select_newest T get_pool row_to tenant_id limit w
        ≡ (ok (map row_to (T.newest limit (w pool))), put T get_pool pool (w pool) w)
  unfolding select_newest query
  newest_done limit w = rw connected refl

  -- What a pool holds after a write to it, and what the others hold.
  pub put_same :
      (id : ℕ) (s : T.Store) (w : Pools T get_pool)
      → T.select id (put T get_pool pool s w pool) ≡ T.select id s
  put_same id s w = rw (eq_refl pool) refl

  pub put_other :
      (other : String) (s : T.Store) (w : Pools T get_pool)
      → pool ≢ other
      → put T get_pool pool s w other ≡ w other
  put_other other s w h = elim (Bool-cases (pool == other)) [
    | inl e ↦ absurd (h (eq_of_test e))
    | inr e ↦ rw e refl
  ]
