-- ===== src/Settings/Service/Invariant.antt =====
-- The keys of the two tables of backend/src/settings/settings.service.ts.
use vibe_ocpp.Prelude.{ℕ, ◌+◌, ◌<◌, String, ◌≡◌, ◌≢◌, refl, Option, none, some, arith, ◌⊎◌}
use vibe_ocpp.Database.{Table, TableLaws}
use vibe_ocpp.Settings.Encryption.{Bytes, EncryptionService}
use vibe_ocpp.Settings.Rows.{Setting, SettingHistory, UpsertSettingInput}
use vibe_ocpp.Settings.Service.{
  World, has_key, encrypted_for, archived, overwrite, initial, restore, upsert, rollback,
}
use vibe_ocpp.Settings.Service.Cases.{replaced, added, upsert_cases, rollback_cases}

module _ (Settings : Table Setting (λ s. s.id)) (History : Table SettingHistory (λ h. h.id)) where
  -- One row for each key, and of each setting a history of distinct versions older than the row's.
  pub record IsConsistent (w : World Settings History) : Type 0 where
    pub unique :
        (k j : String) (r q : Setting)
        → Settings.get k w.settings ≡ some r
        → Settings.get j w.settings ≡ some q
        → r.tenant_id ≡ q.tenant_id
        → r.category ≡ q.category
        → r.key ≡ q.key
        → k ≡ j
    pub owned :
        (k : String) (h : SettingHistory)
        → History.get k w.history ≡ some h
        → Settings.get h.setting_id w.settings ≢ none
    pub older :
        (k : String) (h : SettingHistory) (s : Setting)
        → History.get k w.history ≡ some h
        → Settings.get h.setting_id w.settings ≡ some s
        → h.version < s.version
    pub distinct :
        (k j : String) (h g : SettingHistory)
        → History.get k w.history ≡ some h
        → History.get j w.history ≡ some g
        → h.setting_id ≡ g.setting_id
        → h.version ≡ g.version
        → k ≡ j

  -- A change of contents that is a new version.
  pub record IsRevision (e : Setting) (f : Setting → Setting) : Type 0 where
    pub same_id : (r : Setting) → (f r).id ≡ r.id
    pub same_tenant : (f e).tenant_id ≡ e.tenant_id
    pub same_category : (f e).category ≡ e.category
    pub same_key : (f e).key ≡ e.key
    pub next_version : (f e).version ≡ e.version + 1

  module _ (S : TableLaws Settings) (H : TableLaws History) (w : World Settings History)
      (v : IsConsistent w) (fresh : String) (free : History.get fresh w.history ≡ none) where
    module _ (e : Setting) (f : Setting → Setting) (rev : IsRevision e f)
        (here : Settings.get e.id w.settings ≡ some e) where
      -- A row after the change is the revised one, or as it was.
      revised :
          (k : String) (r : Setting)
          → Settings.get k (Settings.update e.id f w.settings) ≡ some r
          → ((k ≡ e.id) × (r ≡ f e)) ⊎ ((k ≢ e.id) × (Settings.get k w.settings ≡ some r))
      revised k r h = ground (arith, S.get-update k e.id f w.settings rev.same_id)

      kept :
          (k : String) (h : SettingHistory)
          → History.get k (History.create (archived fresh e) w.history) ≡ some h
          → ((k ≡ fresh) × (h ≡ archived fresh e)) ⊎ (History.get k w.history ≡ some h)
      unfolding archived
      kept k h g = ground (arith, H.get-create k (archived fresh e) w.history free)

      replaced_unique :
          (k j : String) (r q : Setting)
          → Settings.get k (Settings.update e.id f w.settings) ≡ some r
          → Settings.get j (Settings.update e.id f w.settings) ≡ some q
          → r.tenant_id ≡ q.tenant_id
          → r.category ≡ q.category
          → r.key ≡ q.key
          → k ≡ j
      replaced_unique k j r q h g a b c = ground (
        arith,
        revised k r h,
        revised j q g,
        v.unique k j e q,
        v.unique k j r e,
        v.unique k j r q,
        rev.same_tenant,
        rev.same_category,
        rev.same_key,
      )

      replaced_owned :
          (k : String) (h : SettingHistory)
          → History.get k (History.create (archived fresh e) w.history) ≡ some h
          → Settings.get h.setting_id (Settings.update e.id f w.settings) ≢ none
      unfolding archived
      replaced_owned k h g =
          ground (
            arith,
            kept k h g,
            v.owned k h,
            S.get-update h.setting_id e.id f w.settings rev.same_id,
          )

      replaced_older :
          (k : String) (h : SettingHistory) (s : Setting)
          → History.get k (History.create (archived fresh e) w.history) ≡ some h
          → Settings.get h.setting_id (Settings.update e.id f w.settings) ≡ some s
          → h.version < s.version
      unfolding archived
      replaced_older k h s g a = ground (
        arith,
        kept k h g,
        revised h.setting_id s a,
        v.older k h s,
        v.older k h e,
        rev.next_version,
      )

      replaced_distinct :
          (k j : String) (h g : SettingHistory)
          → History.get k (History.create (archived fresh e) w.history) ≡ some h
          → History.get j (History.create (archived fresh e) w.history) ≡ some g
          → h.setting_id ≡ g.setting_id
          → h.version ≡ g.version
          → k ≡ j
      unfolding archived
      replaced_distinct k j h g a b c d =
          ground (arith, kept k h a, kept j g b, v.distinct k j h g, v.older k h e, v.older j g e)

      replaced-IsConsistent : IsConsistent (replaced Settings History S e f fresh w)
      replaced-IsConsistent = record {
        unique = replaced_unique;
        owned = replaced_owned;
        older = replaced_older;
        distinct = replaced_distinct;
      }

    module _ (r : Setting) (is_new : Settings.get r.id w.settings ≡ none)
        (no_other : (k : String) (q : Setting)
          → Settings.get k w.settings ≡ some q
          → ¬ ((q.tenant_id ≡ r.tenant_id) × (q.category ≡ r.category) × (q.key ≡ r.key))) where
      added_now :
          (k : String) (q : Setting)
          → Settings.get k (Settings.create r w.settings) ≡ some q
          → ((k ≡ r.id) × (q ≡ r)) ⊎ ((k ≢ r.id) × (Settings.get k w.settings ≡ some q))
      added_now k q h = ground (arith, S.get-create k r w.settings is_new)

      added_unique :
          (k j : String) (p q : Setting)
          → Settings.get k (Settings.create r w.settings) ≡ some p
          → Settings.get j (Settings.create r w.settings) ≡ some q
          → p.tenant_id ≡ q.tenant_id
          → p.category ≡ q.category
          → p.key ≡ q.key
          → k ≡ j
      added_unique k j p q h g a b c =
          ground
            (arith, added_now k p h, added_now j q g, v.unique k j p q, no_other k p, no_other j q)

      added_older :
          (k : String) (h : SettingHistory) (s : Setting)
          → History.get k w.history ≡ some h
          → Settings.get h.setting_id (Settings.create r w.settings) ≡ some s
          → h.version < s.version
      added_older k h s g a = ground (arith, added_now h.setting_id s a, v.owned k h, v.older k h s)

      added-IsConsistent : IsConsistent (added Settings History S r w)
      added-IsConsistent = record {
        unique = added_unique;
        owned =
            λ k h g. ground (arith, v.owned k h g, S.get-create h.setting_id r w.settings is_new);
        older = added_older;
        distinct = v.distinct;
      }

    overwrite-IsRevision :
        (e : EncryptionService) (i : UpsertSettingInput) (iv : Bytes) (now : ℕ) (s : Setting)
        → IsRevision s (overwrite i (encrypted_for e iv i.type i.value) (s.version + 1) now)
    unfolding overwrite
    overwrite-IsRevision e i iv now s = record {
      same_id = λ r. refl;
      same_tenant = refl;
      same_category = refl;
      same_key = refl;
      next_version = refl;
    }

    restore-IsRevision :
        (t : SettingHistory) (updated_by : Option String) (now : ℕ) (s : Setting)
        → IsRevision s (restore t updated_by (s.version + 1) now)
    unfolding restore
    restore-IsRevision t updated_by now s = record {
      same_id = λ r. refl;
      same_tenant = refl;
      same_category = refl;
      same_key = refl;
      next_version = refl;
    }

    none_with_key :
        (i : UpsertSettingInput)
        → Settings.find (has_key i.tenant_id i.category i.key) w.settings ≡ none
        → (k : String) (q : Setting) → Settings.get k w.settings ≡ some q
        → ¬ ((q.tenant_id ≡ i.tenant_id) × (q.category ≡ i.category) × (q.key ≡ i.key))
    none_with_key i h k q g same = ground (arith, S.find_complete _ _ k q h g)

    -- Writing a setting keeps the tables consistent where the ids of new rows are free: there stays
    -- one row for each key, and of each setting a history of distinct versions that are older
    -- than the row's.
    pub upsert-IsConsistent :
        (e : EncryptionService) (i : UpsertSettingInput) (iv : Bytes) (now : ℕ)
        → Settings.get fresh w.settings ≡ none
        → IsConsistent (upsert Settings History e i iv fresh now w).1
    unfolding initial
    upsert-IsConsistent e i iv now is_new =
        upsert_cases Settings History S IsConsistent e i iv fresh now w v
          (λ s h.
            replaced-IsConsistent s _ (overwrite-IsRevision e i iv now s) (S.find_sound _ _ s h).1)
          (λ h. added-IsConsistent _ is_new (none_with_key i h))

    -- Rolling a setting back, to whatever version, keeps the tables consistent where the id of the
    -- new row of the history is free.
    pub rollback-IsConsistent :
        (e : EncryptionService) (tenant_id setting_id : String) (to_version : ℕ)
        (updated_by : Option String) (now : ℕ)
        → IsConsistent
            (rollback Settings History e tenant_id setting_id to_version updated_by fresh now w).1
    rollback-IsConsistent e tenant_id setting_id to_version updated_by now =
        rollback_cases Settings History S IsConsistent e tenant_id setting_id to_version updated_by
          fresh now w v
          (λ s t h _.
            replaced-IsConsistent s _ (restore-IsRevision t updated_by now s)
              (S.find_sound _ _ s h).1)
