-- ===== src/Payment/Service/Deletion.antt =====
-- `deleteOperator` of backend/src/payment/payment-data.service.ts.
use vibe_ocpp.Prelude.{
  ℕ, ap, ◌∙◌, inl, inr, String, ◌≡◌, none, some, ◌⊎◌, arith, Result, ok, err, not_found, nat_eq,
  if◌then◌else◌,
}
use vibe_ocpp.Payment.Rows.{OperatorRow, row_to_operator}
use vibe_ocpp.Payment.Crud.{SqlTable, SqlLaws, Pools, put}
use vibe_ocpp.Payment.Crud.Laws.{select_missing, delete_found, delete_thrown, put_same}
use vibe_ocpp.Payment.Crud.Laws.{Result-cases, IsRefused}
use vibe_ocpp.Payment.Service.{get_operator, delete_operator}

module _ (get_pool : String → Result String) (tenant_id pool : String)
    (connected : get_pool tenant_id ≡ ok pool) where
  module _ (T : SqlTable OperatorRow (λ r. r.id)) (L : SqlLaws T) (w : Pools T get_pool) where
    deleted :
        (id other : ℕ)
        → (T.delete id (w pool)).0 ≡ ok tt
        → T.select other (put T get_pool pool ((T.delete id (w pool)).1) w pool)
          ≡ (if nat_eq id other then none else T.select other (w pool))
    deleted id other o = ground (
      arith,
      put_same T L get_pool row_to_operator "" tenant_id pool connected other
          ((T.delete id (w pool)).1) w,
      L.select-delete other id (w pool) o,
    )

    -- For a tenant that has a pool, deleting an operator that is stored succeeds: looking it up
    -- afterwards finds none, and no other row of the pool changes; or PostgreSQL refuses it: then
    -- its error is thrown, and no row changes.
    pub delete_operator-get_operator :
        (id : ℕ) (r : OperatorRow)
        → T.select id (w pool) ≡ some r
        → IsRefused T get_pool pool w
            ((T.delete id (w pool)).0)
            (delete_operator get_pool T tenant_id id w)
          ⊎ ((w' : Pools T get_pool) × (delete_operator get_pool T tenant_id id w ≡ (ok tt, w'))
              × ((get_operator get_pool T tenant_id id w').0 ≡ err (not_found "Operator not found"))
              × ((other : ℕ)
                  → T.select other (w' pool)
                    ≡ (if nat_eq id other then none else T.select other (w pool))))
    unfolding delete_operator get_operator
    delete_operator-get_operator id r stored = elim (Result-cases ((T.delete id (w pool)).0)) [
      | inl (e, o) ↦
          let thrown =
            delete_thrown T L get_pool row_to_operator "Operator not found" tenant_id pool connected
              id e w o in
          inl (
            e,
            o,
            ap (λ c. c.0) thrown,
            λ other. rw (ap (λ c. c.1) thrown) (
                put_same T L get_pool row_to_operator "" tenant_id pool connected other _ w
                ∙ L.delete_refused other id e (w pool) o),
          )
      | inr (a, o) ↦ inr (
        put T get_pool pool ((T.delete id (w pool)).1) w,
        delete_found T L get_pool row_to_operator "Operator not found" tenant_id pool connected id r
            w stored o,
        select_missing T L get_pool row_to_operator "Operator not found" tenant_id pool connected id
            _ (ground (arith, deleted id id o)),
        λ other. deleted id other o,
      )
    ]
