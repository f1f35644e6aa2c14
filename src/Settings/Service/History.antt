-- ===== src/Settings/Service/History.antt =====
-- What a write does to the history, and what it leaves in a row that is no secret any more.
use vibe_ocpp.Prelude.{ℕ, ◌+◌, String, ◌≡◌, refl, false, Option, none, some, arith}
use vibe_ocpp.Database.{Table, TableLaws}
use vibe_ocpp.Settings.Encryption.{Bytes, EncryptionService, CryptoLaws}
use vibe_ocpp.Settings.Rows.{is_secret, Setting, SettingHistory, UpsertSettingInput}
use vibe_ocpp.Settings.Service.{
  World, has_key, encrypted_for, archived, overwrite, upsert, rollback,
}
use vibe_ocpp.Settings.Service.Cases.{upsert_cases, rollback_cases}
use vibe_ocpp.Settings.Service.Versions.{upsert_existing}

module _ (Settings : Table Setting (λ s. s.id)) (History : Table SettingHistory (λ h. h.id))
    (S : TableLaws Settings) (H : TableLaws History) (w : World Settings History)
    (e : EncryptionService) (fresh : String) (now : ℕ)
    (free : History.get fresh w.history ≡ none) where
  create-kept :
      (k : String) (h : SettingHistory) (s : Setting)
      → History.get k w.history ≡ some h
      → History.get k (History.create (archived fresh s) w.history) ≡ some h
  unfolding archived
  create-kept k h s g = ground (arith, H.get-create k (archived fresh s) w.history free)

  -- Neither a write nor a rollback, with a free id for a new row, changes or drops a row of the
  -- history.
  pub history_append_only :
      (i : UpsertSettingInput) (iv : Bytes) (tenant_id setting_id : String) (to_version : ℕ)
      (updated_by : Option String) (k : String) (h : SettingHistory)
      → History.get k w.history ≡ some h
      → (History.get k (upsert Settings History e i iv fresh now w).1.history ≡ some h)
        × (History.get k
              (rollback Settings History e tenant_id setting_id to_version updated_by fresh now
                w).1.history
            ≡ some h)
  history_append_only i iv tenant_id setting_id to_version updated_by k h g = (
    upsert_cases Settings History S (λ w'. History.get k w'.history ≡ some h) e i iv fresh now w g
        (λ s _. create-kept k h s g) (λ _. g),
    rollback_cases Settings History S (λ w'. History.get k w'.history ≡ some h) e tenant_id
        setting_id to_version updated_by fresh now w g (λ s t _ _. create-kept k h s g),
  )

  module _ (l : CryptoLaws e.crypto) (i : UpsertSettingInput) (iv : Bytes) (s : Setting)
      (found : Settings.find (has_key i.tenant_id i.category i.key) w.settings ≡ some s) where
    -- Overwriting a setting, where the id of the new row of the history is free, counts its
    -- version up by one and keeps its old type, value, ciphertext with its IV and tag, author and
    -- version in the history.
    pub upsert_archives :
        (r : Setting) × (Settings.get s.id (upsert Settings History e i iv fresh now w).1.settings
          ≡ some r)
        × (r.version ≡ s.version + 1)
        × ((h : SettingHistory) × (History.get fresh
                (upsert Settings History e i iv fresh now w).1.history
              ≡ some h)
            × (h.setting_id ≡ s.id)
            × (h.version ≡ s.version)
            × (h.type ≡ s.type)
            × (h.value ≡ s.value)
            × (h.encrypted_value ≡ s.encrypted_value)
            × (h.encryption_iv ≡ s.encryption_iv)
            × (h.encryption_tag ≡ s.encryption_tag)
            × (h.changed_by ≡ s.updated_by))
    unfolding overwrite archived
    upsert_archives = (
      overwrite i (encrypted_for e iv i.type i.value) (s.version + 1) now s,
      ground (
        arith,
        upsert_existing Settings History S H e l i iv fresh now w s found,
        S.find_sound (has_key i.tenant_id i.category i.key) w.settings s found,
        S.get-update s.id s.id (overwrite i (encrypted_for e iv i.type i.value) (s.version + 1) now)
            w.settings (λ r. refl),
      ),
      refl,
      (
        archived fresh s,
        ground (
          arith,
          upsert_existing Settings History S H e l i iv fresh now w s found,
          H.get-create fresh (archived fresh s) w.history free,
        ),
        refl,
        refl,
        refl,
        refl,
        refl,
        refl,
        refl,
        refl,
      ),
    )

    -- Where the id of the new row of the history is free, a secret that is overwritten with a
    -- value of another type keeps its ciphertext in the row.
    pub upsert_keeps_ciphertext :
        (c : Bytes)
        → s.encrypted_value ≡ some c
        → is_secret i.type ≡ false
        → (r : Setting) × (Settings.get s.id (upsert Settings History e i iv fresh now w).1.settings
            ≡ some r)
          × (is_secret r.type ≡ false)
          × (r.encrypted_value ≡ some c)
    unfolding overwrite
    upsert_keeps_ciphertext c sealed plain = (
      overwrite i (encrypted_for e iv i.type i.value) (s.version + 1) now s,
      ground (
        arith,
        upsert_existing Settings History S H e l i iv fresh now w s found,
        S.find_sound (has_key i.tenant_id i.category i.key) w.settings s found,
        S.get-update s.id s.id (overwrite i (encrypted_for e iv i.type i.value) (s.version + 1) now)
            w.settings (λ r. refl),
      ),
      plain,
      rw plain sealed,
    )
