-- ===== src/Settings/Service/Cases.antt =====
-- The worlds that `upsert` and `rollback` can leave behind.
use vibe_ocpp.Prelude.{
  ℕ, ◌+◌, String, ◌≡◌, Option, none, some, Result, ok, err, Option-cases, inl, inr, ◌==◌, ◌&&◌,
}
use vibe_ocpp.Database.{Table, TableLaws, update_row}
use vibe_ocpp.Settings.Encryption.{Bytes, EncryptionService}
use vibe_ocpp.Settings.Rows.{Setting, SettingHistory, UpsertSettingInput}
use vibe_ocpp.Settings.Service.{
  World, to_view, has_key, encrypted_for, archived, overwrite, initial, restore, upsert, is_version,
  rollback, undo_on_error,
}

module _ (Settings : Table Setting (λ s. s.id)) (History : Table SettingHistory (λ h. h.id))
    (S : TableLaws Settings) where
  -- The row `e` gets new contents, and its old ones go to the history.
  abbrev pub replaced :
      Setting → (Setting → Setting) → String → World Settings History → World Settings History
  replaced e f fresh w = record {
    settings = Settings.update e.id f w.settings;
    history = History.create (archived fresh e) w.history;
  }

  abbrev pub added : Setting → World Settings History → World Settings History
  added r w = record w { settings = Settings.create r w.settings }

  undo_cases {ℓ} :
      {A : Type 0} (P : World Settings History → Type ℓ) (r : Result A)
      (w w' : World Settings History)
      → P w
      → P w'
      → P (undo_on_error Settings History w (r, w')).1
  unfolding undo_on_error
  undo_cases P (ok a) w w' h h' = h'
  undo_cases P (err x) w w' h h' = h

  pub upsert_cases {ℓ} :
      (P : World Settings History → Type ℓ) (e : EncryptionService) (i : UpsertSettingInput)
      (iv : Bytes) (fresh : String) (now : ℕ) (w : World Settings History)
      → P w
      → ((s : Setting)
          → Settings.find (has_key i.tenant_id i.category i.key) w.settings ≡ some s
          → P (
              replaced s
                (overwrite i (encrypted_for e iv i.type i.value) (s.version + 1) now)
                fresh
                w))
      → (Settings.find (has_key i.tenant_id i.category i.key) w.settings ≡ none
          → P (added (initial fresh i (encrypted_for e iv i.type i.value) now) w))
      → P (upsert Settings History e i iv fresh now w).1
  unfolding upsert update_row
  upsert_cases P e i iv fresh now w kept found new =
      elim (Option-cases (Settings.find (has_key i.tenant_id i.category i.key) w.settings)) [
        | inl h ↦ rw h (undo_cases P (to_view e _) w _ kept (new h))
        | inr (s, h) ↦
            rw (h, (S.find_sound _ _ s h).1, update_row)
              (undo_cases P (to_view e _) w _ kept (found s h))
      ]

  pub rollback_cases {ℓ} :
      (P : World Settings History → Type ℓ) (e : EncryptionService) (tenant_id setting_id : String)
      (to_version : ℕ) (updated_by : Option String) (fresh : String) (now : ℕ)
      (w : World Settings History)
      → P w
      → ((s : Setting) (t : SettingHistory)
          → Settings.find (λ s. s.id == setting_id && s.tenant_id == tenant_id) w.settings ≡ some s
          → History.find (is_version Settings History s.id to_version) w.history ≡ some t
          → P (replaced s (restore t updated_by (s.version + 1) now) fresh w))
      → P (rollback Settings History e tenant_id setting_id to_version updated_by fresh now w).1
  unfolding rollback update_row
  rollback_cases P e tenant_id setting_id to_version updated_by fresh now w kept done =
      elim (Option-cases
        (Settings.find (λ s. s.id == setting_id && s.tenant_id == tenant_id) w.settings)) [
          | inl h ↦ rw h kept
          | inr (s, h) ↦
              elim (Option-cases
                (History.find (is_version Settings History s.id to_version) w.history)) [
                  | inl k ↦ rw (h, k) kept
                  | inr (t, k) ↦
                      rw (h, k, (S.find_sound _ _ s h).1, update_row)
                        (undo_cases P (to_view e _) w _ kept (done s t h k))
                ]
        ]
