-- ===== src/Payment/Connection/Leaks.antt =====
-- The connection pools of backend/src/payment/payment-db.service.ts over their life.
use vibe_ocpp.Prelude.{
  ℕ, ◌<◌, String, ◌≡◌, refl, true, false, ◌⊎◌, inl, inr, Option, none, some, Result, ok, err, arith,
  Error, Bool-cases, eq_of_test, ◌==◌, nat_eq,
}
use vibe_ocpp.Database.{Table}
use vibe_ocpp.Settings.Encryption.{EncryptionService}
use vibe_ocpp.Settings.Rows.{Setting, SettingHistory}
use vibe_ocpp.Settings.Service
use vibe_ocpp.Payment.Connection.{
  PaymentConfig, Entry, PoolMap, close, fresh_entry, open_pool, pooled, World, with_config,
  get_config, get_pool,
}

-- No pool leaks: each is closed or in use by one tenant, and none that is in use is closed.
pub record IsAccounted (p : PoolMap) : Type 0 where
  pub live :
      (t : String) (e : Entry)
      → p.entries t ≡ some e
      → (e.pool < p.opened) × (p.closed e.pool ≡ false)
  pub owned :
      (t u : String) (e f : Entry)
      → p.entries t ≡ some e
      → p.entries u ≡ some f
      → e.pool ≡ f.pool
      → t ≡ u
  pub accounted :
      (n : ℕ)
      → n < p.opened
      → (p.closed n ≡ true) ⊎ ((t : String) × (e : Entry) × (p.entries t ≡ some e) × (e.pool ≡ n))
  pub unopened : (n : ℕ) → p.closed n ≡ true → n < p.opened

-- The tenant's pool in use is the one answered, and of the configured database.
abbrev pub IsCurrent : String → PaymentConfig → ℕ × String → PoolMap → Type 0
IsCurrent tenant_id cfg used q =
    (e : Entry) × (q.entries tenant_id ≡ some e)
    × (e.pool ≡ used.0)
    × (e.database_url ≡ cfg.database_url)
    × (used.1 ≡ cfg.table_prefix)

module _ (tenant_id : String) (cfg : PaymentConfig) (p : PoolMap) (v : IsAccounted p) where
  open_pool-IsAccounted : p.entries tenant_id ≡ none → IsAccounted (open_pool tenant_id cfg p)
  open_pool-IsAccounted n = record {
    live = λ t e h. ground (arith, h, v.live t e, v.unopened p.opened);
    owned = λ t u e f h k q. ground (arith, h, k, q, v.owned t u e f, v.live t e, v.live u f);
    accounted = λ m h. elim (Bool-cases (nat_eq m p.opened)) [
      | inl a ↦ inr (tenant_id, fresh_entry cfg p, ground arith, ground (arith, a))
      | inr a ↦ elim (v.accounted m (ground (arith, a, h))) [
        | inl c ↦ inl c
        | inr (t, e, g, q) ↦ inr (t, e, ground (arith, g, n), q)
      ]
    ];
    unopened = λ m h. ground (arith, v.unopened m h);
  }

  replaced-IsAccounted :
      (old : Entry)
      → p.entries tenant_id ≡ some old
      → IsAccounted (open_pool tenant_id cfg (record p { closed = close old.pool p.closed }))
  replaced-IsAccounted old n = record {
    live = λ t e h. ground (
      arith,
      h,
      v.live t e,
      v.live tenant_id old n,
      v.owned t tenant_id e old,
      n,
      v.unopened p.opened,
    );
    owned = λ t u e f h k q. ground (arith, h, k, q, v.owned t u e f, v.live t e, v.live u f);
    accounted = λ m h. elim (Bool-cases (nat_eq m p.opened)) [
      | inl a ↦ inr (tenant_id, fresh_entry cfg p, ground arith, ground (arith, a))
      | inr a ↦ elim (Bool-cases (nat_eq m old.pool)) [
        | inl b ↦ inl (ground (arith, b))
        | inr b ↦ elim (v.accounted m (ground (arith, a, h))) [
          | inl c ↦ inl (ground (arith, b, c))
          | inr (t, e, g, q) ↦ inr (t, e, ground (arith, g, n, q, b), q)
        ]
      ]
    ];
    unopened = λ m h. ground (arith, v.unopened m, v.live tenant_id old n, h);
  }

  pooled-IsAccounted :
      (o : Option Entry) → p.entries tenant_id ≡ o → IsAccounted (pooled tenant_id cfg o p).1
  unfolding pooled
  pooled-IsAccounted none n = open_pool-IsAccounted n
  pooled-IsAccounted (some old) n = elim (Bool-cases (old.database_url == cfg.database_url)) [
    | inl a ↦ rw a v
    | inr a ↦ rw a (replaced-IsAccounted old n)
  ]

  pooled-IsCurrent :
      (o : Option Entry)
      → p.entries tenant_id ≡ o
      → IsCurrent tenant_id cfg (pooled tenant_id cfg o p).0 (pooled tenant_id cfg o p).1
  unfolding pooled
  pooled-IsCurrent none n = (fresh_entry cfg p, ground arith, refl, refl, refl)
  pooled-IsCurrent (some old) n = elim (Bool-cases (old.database_url == cfg.database_url)) [
    | inl a ↦ rw a (old, n, refl, eq_of_test a, refl)
    | inr a ↦ rw a (fresh_entry cfg p, ground arith, refl, refl, refl)
  ]

module _ (Settings : Table Setting (λ s. s.id)) (History : Table SettingHistory (λ h. h.id))
    (encryption : EncryptionService) where
  -- What asking for a pool comes to: the error of reading the configuration, which leaves the
  -- pools alone, or the tenant's pool, as the configuration read from the settings has it.
  pub data Asked (tenant_id : String) (before : World Settings History encryption)
      : Result (ℕ × String) × World Settings History encryption → Type 0 where
    unconfigured :
        (e : Error) (w : World Settings History encryption)
        → (get_config Settings History encryption tenant_id before.settings).0 ≡ err e
        → w.pools ≡ before.pools
        → Asked tenant_id before (err e, w)
    current :
        (cfg : PaymentConfig) (used : ℕ × String) (w : World Settings History encryption)
        → (get_config Settings History encryption tenant_id before.settings).0 ≡ ok cfg
        → IsCurrent tenant_id cfg used w.pools
        → IsAccounted w.pools
        → Asked tenant_id before (ok used, w)

  with_config-Asked :
      (tenant_id : String) (w : World Settings History encryption)
      (o : Result PaymentConfig × Service.World Settings History)
      → (get_config Settings History encryption tenant_id w.settings).0 ≡ o.0
      → IsAccounted w.pools
      → Asked tenant_id w (with_config Settings History encryption tenant_id o w)
  unfolding with_config
  with_config-Asked tenant_id w (err e, s) h v = unconfigured e _ h refl
  with_config-Asked tenant_id w (ok cfg, s) h v =
      current cfg _ _ h (pooled-IsCurrent tenant_id cfg w.pools v (w.pools.entries tenant_id) refl)
        (pooled-IsAccounted tenant_id cfg w.pools v (w.pools.entries tenant_id) refl)

  -- Asking for a tenant's pool, where every pool opened so far is closed or in use by one tenant
  -- alone and none in use is closed: where the tenant's configuration cannot be read, its error is
  -- answered and the pools stay; else the answer is a pool that is open in the tenant's name on
  -- the database of the configuration that the settings have now, with its prefix,
  -- and again every pool is closed or in use by one tenant alone and none in use is closed.
  pub get_pool-Asked :
      (tenant_id : String) (w : World Settings History encryption)
      → IsAccounted w.pools
      → Asked tenant_id w (get_pool Settings History encryption tenant_id w)
  unfolding get_pool
  get_pool-Asked tenant_id w v =
      with_config-Asked tenant_id w (get_config Settings History encryption tenant_id w.settings)
        refl v
