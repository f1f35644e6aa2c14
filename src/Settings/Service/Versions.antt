-- ===== src/Settings/Service/Versions.antt =====
-- What a reader sees after a write of backend/src/settings/settings.service.ts.
use vibe_ocpp.Prelude.{
  ℕ, ◌+◌, String, ◌≡◌, refl, true, none, some, arith, ok, if◌then◌else◌, Option-cases, inl, inr,
  eq_refl,
}
use vibe_ocpp.Database.{Table, TableLaws, update_row}
use vibe_ocpp.Database.Lookup.{find_only}
use vibe_ocpp.Settings.Encryption.{
  Bytes, EncryptionService, CryptoLaws, encrypt, decrypt-encrypt, mask,
}
use vibe_ocpp.Settings.Rows.{
  SettingType, is_secret, string, number, boolean, json, secret, Setting, SettingHistory,
  UpsertSettingInput,
}
use vibe_ocpp.Settings.Service.{
  World, has_key, encrypted_for, overwrite, initial, to_view, get_plaintext, upsert,
  found_plaintext, plain_for, payload, view_of,
}
use vibe_ocpp.Settings.Service.Cases.{replaced, added}
use vibe_ocpp.Settings.Service.Invariant.{IsConsistent, upsert-IsConsistent}

-- The contents that `upsert` writes.
record IsWritten (e : EncryptionService) (iv : Bytes) (type : SettingType) (value : String)
    (r : Setting) : Type 0 where
  same_type : r.type ≡ type
  plain : r.value ≡ plain_for type value
  sealed : is_secret type ≡ true → payload r ≡ some (encrypt e iv value)

overwrite-IsWritten :
    (e : EncryptionService) (i : UpsertSettingInput) (iv : Bytes) (version now : ℕ) (s : Setting)
    → IsWritten e iv i.type i.value (overwrite i (encrypted_for e iv i.type i.value) version now s)
unfolding overwrite
overwrite-IsWritten e i iv version now s = record {
  same_type = refl;
  plain = refl;
  sealed = λ h. rw h;
}

initial-IsWritten :
    (e : EncryptionService) (i : UpsertSettingInput) (iv : Bytes) (now : ℕ) (fresh : String)
    → IsWritten e iv i.type i.value (initial fresh i (encrypted_for e iv i.type i.value) now)
unfolding initial
initial-IsWritten e i iv now fresh = record { same_type = refl; plain = refl; sealed = λ h. rw h }

-- What the views show of a value: secrets are masked.
abbrev pub shown_text : SettingType → String → String
shown_text type value = if is_secret type then mask value else value

module _ (e : EncryptionService) (l : CryptoLaws e.crypto) (iv : Bytes) (value : String) where
  shows :
      (type : SettingType) (r : Setting)
      → IsWritten e iv type value r
      → to_view e r ≡ ok (view_of r (shown_text type value))
  unfolding to_view
  shows secret r w = rw (w.same_type, w.sealed refl, decrypt-encrypt e iv value l)
  shows string r w = rw (w.same_type, w.plain)
  shows number r w = rw (w.same_type, w.plain)
  shows boolean r w = rw (w.same_type, w.plain)
  shows json r w = rw (w.same_type, w.plain)

  reads :
      (type : SettingType) (r : Setting)
      → IsWritten e iv type value r
      → found_plaintext e (some r) ≡ ok (some value)
  unfolding get_plaintext
  reads secret r w = rw (w.same_type, w.sealed refl, decrypt-encrypt e iv value l)
  reads string r w = rw (w.same_type, w.plain)
  reads number r w = rw (w.same_type, w.plain)
  reads boolean r w = rw (w.same_type, w.plain)
  reads json r w = rw (w.same_type, w.plain)

module _ (Settings : Table Setting (λ s. s.id)) (History : Table SettingHistory (λ h. h.id))
    (S : TableLaws Settings) (H : TableLaws History) (e : EncryptionService)
    (l : CryptoLaws e.crypto) (i : UpsertSettingInput) (iv : Bytes) (fresh : String) (now : ℕ)
    (w : World Settings History) where
  abbrev rewritten : Setting → Setting
  rewritten s = overwrite i (encrypted_for e iv i.type i.value) (s.version + 1) now s

  pub upsert_existing :
      (s : Setting)
      → Settings.find (has_key i.tenant_id i.category i.key) w.settings ≡ some s
      → upsert Settings History e i iv fresh now w ≡ (
        ok (view_of (rewritten s) (shown_text i.type i.value)),
        replaced Settings History S s
            (overwrite i (encrypted_for e iv i.type i.value) (s.version + 1) now)
            fresh
            w,
      )
  unfolding upsert update_row
  upsert_existing s h = rw (
    h,
    (S.find_sound _ _ s h).1,
    update_row,
    shows e l iv i.value i.type (rewritten s) (overwrite-IsWritten e i iv (s.version + 1) now s),
  )

  pub upsert_new :
      Settings.find (has_key i.tenant_id i.category i.key) w.settings ≡ none
      → upsert Settings History e i iv fresh now w ≡ (
        ok (
            view_of
              (initial fresh i (encrypted_for e iv i.type i.value) now)
              (shown_text i.type i.value)),
        added Settings History S (initial fresh i (encrypted_for e iv i.type i.value) now) w,
      )
  unfolding upsert
  upsert_new h = rw (h, shows e l iv i.value i.type _ (initial-IsWritten e i iv now fresh))

  module _ (v : IsConsistent Settings History w) (free : History.get fresh w.history ≡ none)
      (new_id : Settings.get fresh w.settings ≡ none) where
    abbrev after : World Settings History
    after = (upsert Settings History e i iv fresh now w).1

    after-IsConsistent : IsConsistent Settings History after
    after-IsConsistent = upsert-IsConsistent Settings History S H w v fresh free e i iv now new_id

    only_row :
        (k : String) (r : Setting)
        → Settings.get k after.settings ≡ some r
        → has_key i.tenant_id i.category i.key r ≡ true
        → Settings.find (has_key i.tenant_id i.category i.key) after.settings ≡ some r
    only_row k r g t =
        find_only Settings S _ _ k r g t
          (λ j q gq tq. ground (arith, after-IsConsistent.unique j k q r gq g))

    stored :
        (r : Setting) × ((upsert Settings History e i iv fresh now w).0
          ≡ ok (view_of r (shown_text i.type i.value)))
        × (Settings.get r.id after.settings ≡ some r)
        × (has_key i.tenant_id i.category i.key r ≡ true)
        × IsWritten e iv i.type i.value r
    unfolding overwrite initial
    stored = elim (Option-cases (Settings.find (has_key i.tenant_id i.category i.key) w.settings)) [
      | inl h ↦ (
        initial fresh i (encrypted_for e iv i.type i.value) now,
        rw (upsert_new h),
        (ground (
          arith,
          upsert_new h,
          S.get-create fresh (initial fresh i (encrypted_for e iv i.type i.value) now) w.settings
              new_id,
        )),
        simp eq_refl,
        initial-IsWritten e i iv now fresh,
      )
      | inr (s, h) ↦ (
        rewritten s,
        rw (upsert_existing s h),
        (ground (
          arith,
          upsert_existing s h,
          S.get-update s.id s.id
              (overwrite i (encrypted_for e iv i.type i.value) (s.version + 1) now) w.settings
              (λ r. refl),
          S.find_sound (has_key i.tenant_id i.category i.key) w.settings s h,
        )),
        (S.find_sound _ _ s h).0,
        overwrite-IsWritten e i iv (s.version + 1) now s,
      )
    ]

    -- On consistent tables, where the ids of new rows are free, writing a setting succeeds, answers
    -- a secret only masked, and the plain value is read back.
    pub get_plaintext-upsert :
        (r : Setting) × ((upsert Settings History e i iv fresh now w).0
          ≡ ok (view_of r (shown_text i.type i.value)))
        × (get_plaintext Settings History e i.tenant_id i.category i.key
              (upsert Settings History e i iv fresh now w).1
            ≡ (ok (some i.value), (upsert Settings History e i iv fresh now w).1))
    unfolding get_plaintext
    get_plaintext-upsert =
        let (r, done, here, named, written) = stored in
        (r, done, rw (only_row r.id r here named, reads e l iv i.value i.type r written))
