-- ===== src/Settings/Service.antt =====
-- backend/src/settings/settings.service.ts. The ids that the database makes, the clock and the
-- initialisation vector are arguments.
pub mod Cases
pub mod Rollback
pub mod History
pub mod Versions
pub mod Invariant
use vibe_ocpp.Prelude.{
  ℕ, ◌+◌, String, ◌≡◌, Bool, true, false, ◌&&◌, Option, none, some, List, [], ◌∷◌, Result, ok, err,
  not_found, Action, ◌>>=◌, ◌>>◌, and_then, pure, throw, asks, modify, get_or, truthy, ◌==◌, nat_eq,
  if◌then◌else◌,
}
use vibe_ocpp.Database.{Table, update_row}
use vibe_ocpp.Settings.Encryption.{
  Bytes, EncryptedPayload, EncryptionService, encrypt, decrypt, mask,
}
use vibe_ocpp.Settings.Rows.{
  SettingType, secret, is_secret, Setting, SettingHistory, SettingView, UpsertSettingInput,
}

-- The payload of a row, where all of its three parts are there.
abbrev pub payload_of : Option Bytes → Option Bytes → Option Bytes → Option EncryptedPayload
payload_of (some c) (some i) (some t) = some (record { ciphertext = c; iv = i; auth_tag = t })
payload_of _ _ _ = none

abbrev pub payload : Setting → Option EncryptedPayload
payload s = payload_of s.encrypted_value s.encryption_iv s.encryption_tag

abbrev pub map_result : {A B : Type 0} → (A → B) → Result A → Result B
map_result f (ok a) = ok (f a)
map_result f (err e) = err e

masked : EncryptionService → Option EncryptedPayload → Result String
masked e none = ok ""
masked e (some p) = map_result mask (decrypt e p)

shown_value : EncryptionService → SettingType → Setting → Result String
shown_value e secret s = masked e (payload s)
shown_value e _ s = ok (get_or s.value "")

abbrev pub view_of : Setting → String → SettingView
view_of s v = record {
  id = s.id;
  category = s.category;
  key = s.key;
  type = s.type;
  value = v;
  version = s.version;
  updated_by = s.updated_by;
  updated_at = s.updated_at;
}

unfoldable pub to_view : EncryptionService → Setting → Result SettingView
unfolding shown_value masked
to_view e s = map_result (view_of s) (shown_value e s.type s)

abbrev pub has_key : String → String → String → Setting → Bool
has_key tenant_id category key s =
    s.tenant_id == tenant_id && s.category == category && s.key == key

revealed : EncryptionService → Option EncryptedPayload → Result (Option String)
revealed e none = ok none
revealed e (some p) = map_result some (decrypt e p)

plaintext_of : EncryptionService → SettingType → Setting → Result (Option String)
plaintext_of e secret s = revealed e (payload s)
plaintext_of e _ s = ok s.value

found_plaintext : EncryptionService → Option Setting → Result (Option String)
found_plaintext e none = ok none
found_plaintext e (some s) = plaintext_of e s.type s

-- `encrypted?.ciphertext`: what is undefined is left as it was.
abbrev pub or_old : {A : Type 0} → Option A → Option A → Option A
or_old none old = old
or_old (some a) old = some a

abbrev pub encrypted_for :
    EncryptionService → Bytes → SettingType → String → Option EncryptedPayload
encrypted_for e iv type value = if is_secret type then some (encrypt e iv value) else none

abbrev pub plain_for : SettingType → String → Option String
plain_for type value = if is_secret type then none else some value

abbrev pub part : {A : Type 0} → (EncryptedPayload → A) → Option EncryptedPayload → Option A
part f none = none
part f (some p) = some (f p)

-- The row that keeps the version which is about to be replaced.
unfoldable pub archived : String → Setting → SettingHistory
archived fresh s = record {
  id = fresh;
  setting_id = s.id;
  version = s.version;
  type = s.type;
  value = s.value;
  encrypted_value = s.encrypted_value;
  encryption_iv = s.encryption_iv;
  encryption_tag = s.encryption_tag;
  changed_by = s.updated_by;
}

-- `data` of the update in `upsert`.
unfoldable pub overwrite : UpsertSettingInput → Option EncryptedPayload → ℕ → ℕ → Setting → Setting
overwrite i encrypted version now s = record s {
  type = i.type;
  value = plain_for i.type i.value;
  encrypted_value = or_old (part (λ p. p.ciphertext) encrypted) s.encrypted_value;
  encryption_iv = or_old (part (λ p. p.iv) encrypted) s.encryption_iv;
  encryption_tag = or_old (part (λ p. p.auth_tag) encrypted) s.encryption_tag;
  version = version;
  updated_by = i.updated_by;
  updated_at = now;
}

-- `data` of the create in `upsert`.
unfoldable pub initial : String → UpsertSettingInput → Option EncryptedPayload → ℕ → Setting
initial fresh i encrypted now = record {
  id = fresh;
  tenant_id = i.tenant_id;
  category = i.category;
  key = i.key;
  type = i.type;
  value = plain_for i.type i.value;
  encrypted_value = part (λ p. p.ciphertext) encrypted;
  encryption_iv = part (λ p. p.iv) encrypted;
  encryption_tag = part (λ p. p.auth_tag) encrypted;
  version = 1;
  updated_by = i.updated_by;
  updated_at = now;
}

-- `data` of the update in `rollback`.
unfoldable pub restore : SettingHistory → Option String → ℕ → ℕ → Setting → Setting
restore target updated_by version now s = record s {
  type = target.type;
  value = target.value;
  encrypted_value = target.encrypted_value;
  encryption_iv = target.encryption_iv;
  encryption_tag = target.encryption_tag;
  version = version;
  updated_by = updated_by;
  updated_at = now;
}

join_view : Result SettingView → Result (List SettingView) → Result (List SettingView)
join_view (ok v) (ok vs) = ok (v ∷ vs)
join_view (err x) _ = err x
join_view (ok v) (err x) = err x

views : EncryptionService → List Setting → Result (List SettingView)
unfolding join_view
views e [] = ok []
views e (s ∷ ss) = join_view (to_view e s) (views e ss)

module _ (Settings : Table Setting (λ s. s.id)) (History : Table SettingHistory (λ h. h.id)) where
  pub record World : Type 0 where
    pub settings : Settings.Store
    pub history : History.Store

  on_settings : {A : Type 0} → Action Settings.Store A → Action World A
  on_settings m w = ((m w.settings).0, record w { settings = (m w.settings).1 })

  put_history : SettingHistory → Action World (Unit {0})
  put_history h = modify (λ w. record w { history = History.create h w.history })

  view : EncryptionService → Setting → Action World SettingView
  view e s w = (to_view e s, w)

  -- `$transaction`: an error undoes what was written.
  undo_on_error : {A : Type 0} → World → Result A × World → Result A × World
  undo_on_error before (ok a, w) = (ok a, w)
  undo_on_error before (err x, w) = (err x, before)

  transaction : {A : Type 0} → Action World A → Action World A
  transaction m w = undo_on_error w (m w)

  abbrev pub in_category : String → Option String → Setting → Bool
  in_category tenant_id none s = s.tenant_id == tenant_id
  in_category tenant_id (some c) s =
      s.tenant_id == tenant_id && (if truthy c then s.category == c else true)

  unfoldable pub list : EncryptionService → String → Option String → Action World (List SettingView)
  unfolding views
  list e tenant_id category w =
      (views e (Settings.list (in_category tenant_id category) w.settings), w)

  unfoldable pub get_plaintext :
      EncryptionService → String → String → String → Action World (Option String)
  unfolding found_plaintext plaintext_of revealed
  get_plaintext e tenant_id category key w =
      (found_plaintext e (Settings.find (has_key tenant_id category key) w.settings), w)

  upsert_found :
      EncryptionService
      → UpsertSettingInput
      → Option EncryptedPayload
      → String
      → ℕ
      → Option Setting
      → Action World SettingView
  unfolding on_settings put_history view update_row
  upsert_found e i encrypted fresh now (some existing) = do
    put_history (archived fresh existing)
    updated ←
        on_settings
          (update_row Settings existing.id (overwrite i encrypted (existing.version + 1) now))
    view e updated
  upsert_found e i encrypted fresh now none = do
    modify (λ w. record w { settings = Settings.create (initial fresh i encrypted now) w.settings })
    view e (initial fresh i encrypted now)

  unfoldable pub upsert :
      EncryptionService → UpsertSettingInput → Bytes → String → ℕ → Action World SettingView
  unfolding upsert_found transaction undo_on_error
  upsert e i iv fresh now = transaction (do
    existing ← asks (λ w. Settings.find (has_key i.tenant_id i.category i.key) w.settings)
    upsert_found e i (encrypted_for e iv i.type i.value) fresh now existing)

  abbrev pub is_version : String → ℕ → SettingHistory → Bool
  is_version setting_id version h = h.setting_id == setting_id && nat_eq h.version version

  rollback_target :
      EncryptionService
      → Setting
      → Option SettingHistory
      → Option String
      → String
      → ℕ
      → Action World SettingView
  unfolding on_settings put_history view update_row
  rollback_target e setting none updated_by fresh now =
      throw (not_found "Version not found for this setting")
  rollback_target e setting (some target) updated_by fresh now = do
    put_history (archived fresh setting)
    restored ←
        on_settings
          (update_row Settings setting.id (restore target updated_by (setting.version + 1) now))
    view e restored

  rollback_setting :
      EncryptionService → Option Setting → ℕ → Option String → String → ℕ → Action World SettingView
  unfolding rollback_target
  rollback_setting e none to_version updated_by fresh now = throw (not_found "Setting not found")
  rollback_setting e (some setting) to_version updated_by fresh now = do
    target ← asks (λ w. History.find (is_version setting.id to_version) w.history)
    rollback_target e setting target updated_by fresh now

  unfoldable pub rollback :
      EncryptionService
      → String
      → String
      → ℕ
      → Option String
      → String
      → ℕ
      → Action World SettingView
  unfolding rollback_setting transaction undo_on_error
  rollback e tenant_id setting_id to_version updated_by fresh now = transaction (do
    setting ←
        asks (λ w. Settings.find (λ s. s.id == setting_id && s.tenant_id == tenant_id) w.settings)
    rollback_setting e setting to_version updated_by fresh now)
