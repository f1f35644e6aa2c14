-- ===== src/Tests/SettingsTests.antt =====
-- Settings on runnable tables: a webhook secret is written twice, then rolled back.
use vibe_ocpp.Prelude.{String_discrete, String, ◌≡◌, refl, arith, false, none, some, [], ok}
use vibe_ocpp.Database.{Table, update_row}
use vibe_ocpp.Database.Shelf
use vibe_ocpp.Database.Shelf.{shelf, empty}
use vibe_ocpp.Database.Shelf.Laws.{shelf-TableLaws}
use vibe_ocpp.Settings.Encryption.{EncryptionService, encrypt, decrypt, mask}
use vibe_ocpp.Settings.Encryption.Plain.{plain, plain-CryptoLaws}
use vibe_ocpp.Settings.Rows.{
  SettingType, secret, string, Setting, SettingHistory, SettingView, UpsertSettingInput, is_secret,
}
use vibe_ocpp.Settings.Service.{
  World, upsert, rollback, get_plaintext, to_view, view_of, archived, overwrite, initial,
  encrypted_for, restore, has_key, is_version,
}
use vibe_ocpp.Settings.Service.Invariant.{IsConsistent, upsert-IsConsistent, rollback-IsConsistent}
use vibe_ocpp.Settings.Service.Versions.{get_plaintext-upsert, shown_text}
use vibe_ocpp.Settings.Service.Rollback.{SameContents, rollback-rollback, rollback_restores}
use vibe_ocpp.Settings.Service.History.{
  history_append_only, upsert_archives, upsert_keeps_ciphertext,
}

abbrev settings : Table Setting (λ s. s.id)
settings = shelf (λ s. s.id)

abbrev history : Table SettingHistory (λ h. h.id)
history = shelf (λ h. h.id)

abbrev service : EncryptionService
service = record { crypto = plain; key = [] }

abbrev input : SettingType → String → UpsertSettingInput
input type value = record {
  tenant_id = "t";
  category = "citrineos";
  key = "webhookSecret";
  type = type;
  value = value;
  updated_by = none;
}

abbrev fresh_world : World settings history
fresh_world = record { settings = empty; history = empty }

fresh_world-IsConsistent : IsConsistent settings history fresh_world
unfolding Shelf.get
fresh_world-IsConsistent = record {
  unique = λ k j r q a b c d e. ground (arith, a);
  owned = λ k h a b. ground (arith, a);
  older = λ k h s a b. ground (arith, a);
  distinct = λ k j h g a b c d. ground (arith, a);
}

-- After the first write, and after a second one that is no secret.
abbrev written : World settings history
written = (upsert settings history service (input secret "first-1234") [] "a" 10 fresh_world).1

abbrev rewritten : World settings history
rewritten = (upsert settings history service (input string "second") [] "b" 20 written).1

abbrev first_row : Setting
first_row =
    initial "a" (input secret "first-1234") (encrypted_for service [] secret "first-1234") 10

abbrev second_row : Setting
second_row =
    overwrite (input string "second") (encrypted_for service [] string "second") 2 20 first_row

written-IsConsistent : IsConsistent settings history written
unfolding Shelf.get
written-IsConsistent =
    upsert-IsConsistent settings history (shelf-TableLaws (λ s. s.id)) (shelf-TableLaws (λ h. h.id))
      fresh_world fresh_world-IsConsistent "a" refl service (input secret "first-1234") [] 10 refl

rewritten-IsConsistent : IsConsistent settings history rewritten
unfolding upsert initial overwrite archived restore to_view decrypt encrypt mask plain Shelf.get
    Shelf.find Shelf.create Shelf.update update_row String_discrete
rewritten-IsConsistent =
    upsert-IsConsistent settings history (shelf-TableLaws (λ s. s.id)) (shelf-TableLaws (λ h. h.id))
      written written-IsConsistent "b" refl service (input string "second") [] 20 refl

first_row_found :
    settings.find (has_key "t" "citrineos" "webhookSecret") written.settings ≡ some first_row
unfolding upsert initial overwrite archived restore to_view decrypt encrypt mask plain Shelf.get
    Shelf.find Shelf.create Shelf.update update_row String_discrete
first_row_found = refl

second_row_here : settings.get "a" rewritten.settings ≡ some second_row
unfolding upsert initial overwrite archived restore to_view decrypt encrypt mask plain Shelf.get
    Shelf.find Shelf.create Shelf.update update_row String_discrete
second_row_here = refl

first_version_found :
    history.find (is_version settings history "a" 1) rewritten.history
    ≡ some (archived "b" first_row)
unfolding upsert initial overwrite archived restore to_view decrypt encrypt mask plain Shelf.get
    Shelf.find Shelf.create Shelf.update update_row String_discrete
first_version_found = refl

upsert-IsConsistent_example :
    IsConsistent settings history
      (upsert settings history service (input string "second") [] "b" 20 written).1
unfolding upsert initial overwrite archived restore to_view decrypt encrypt mask plain Shelf.get
    Shelf.find Shelf.create Shelf.update update_row String_discrete
upsert-IsConsistent_example =
    upsert-IsConsistent settings history (shelf-TableLaws (λ s. s.id)) (shelf-TableLaws (λ h. h.id))
      written written-IsConsistent "b" refl service (input string "second") [] 20 refl

rollback-IsConsistent_example :
    IsConsistent settings history
      (rollback settings history service "t" "a" 1 none "c" 30 rewritten).1
unfolding upsert initial overwrite archived restore to_view decrypt encrypt mask plain Shelf.get
    Shelf.find Shelf.create Shelf.update update_row String_discrete
rollback-IsConsistent_example =
    rollback-IsConsistent settings history (shelf-TableLaws (λ s. s.id))
      (shelf-TableLaws (λ h. h.id)) rewritten rewritten-IsConsistent "c" refl service "t" "a" 1 none
      30

get_plaintext-upsert_example :
    (r : Setting) × ((upsert settings history service
        (input secret "first-1234")
        []
        "a"
        10
        fresh_world).0
      ≡ ok (view_of r (shown_text secret "first-1234")))
    × (get_plaintext settings history service "t" "citrineos" "webhookSecret"
          (upsert settings history service (input secret "first-1234") [] "a" 10 fresh_world).1
        ≡ (
          ok (some "first-1234"),
          (upsert settings history service (input secret "first-1234") [] "a" 10 fresh_world).1,
        ))
unfolding Shelf.get
get_plaintext-upsert_example =
    get_plaintext-upsert settings history (shelf-TableLaws (λ s. s.id))
      (shelf-TableLaws (λ h. h.id)) service plain-CryptoLaws (input secret "first-1234") [] "a" 10
      fresh_world fresh_world-IsConsistent refl refl

rollback_restores_example :
    (r : Setting) × (w' : World settings history) × (rollback settings history service "t" "a" 1
        none "c" 30 rewritten
      ≡ (ok (view_of (restore (archived "b" first_row) none 3 30 second_row) "••••1234"), w'))
    × (settings.get "a" w'.settings ≡ some r)
    × (r.type ≡ secret)
    × (r.value ≡ none)
    × (r.encrypted_value ≡ first_row.encrypted_value)
    × (r.encryption_iv ≡ first_row.encryption_iv)
    × (r.encryption_tag ≡ first_row.encryption_tag)
    × (r.version ≡ 3)
    × (history.find (is_version settings history "a" 2) w'.history ≡ some (archived "c" second_row))
unfolding upsert initial overwrite archived restore to_view decrypt encrypt mask plain Shelf.get
    Shelf.find Shelf.create Shelf.update update_row String_discrete
rollback_restores_example =
    rollback_restores settings history (shelf-TableLaws (λ s. s.id)) (shelf-TableLaws (λ h. h.id))
      service rewritten rewritten-IsConsistent second_row second_row_here 1 (archived "b" first_row)
      first_version_found none "c" 30 refl
      (view_of (restore (archived "b" first_row) none 3 30 second_row) "••••1234") refl

rollback-rollback_example :
    let w' = (rollback settings history service "t" "a" 1 none "c" 30 rewritten).1 in
    (z : SettingView) × (r : Setting) × ((rollback settings history service "t" "a" 2 none "d" 40
        w').0
      ≡ ok z)
    × (settings.get "a" (rollback settings history service "t" "a" 2 none "d" 40 w').1.settings
        ≡ some r)
    × SameContents r second_row
    × (r.version ≡ 4)
unfolding upsert initial overwrite archived restore to_view decrypt encrypt mask plain Shelf.get
    Shelf.find Shelf.create Shelf.update update_row String_discrete
rollback-rollback_example =
    rollback-rollback settings history (shelf-TableLaws (λ s. s.id)) (shelf-TableLaws (λ h. h.id))
      service rewritten rewritten-IsConsistent second_row second_row_here 1 (archived "b" first_row)
      first_version_found none "c" 30 refl (view_of second_row "second")
      (view_of (restore (archived "b" first_row) none 3 30 second_row) "••••1234") none "d" 40 refl
      refl

history_append_only_example :
    (history.get "b"
        (upsert settings history service (input secret "third-1234") [] "c" 30 rewritten).1.history
      ≡ some (archived "b" first_row))
    × (history.get "b" (rollback settings history service "t" "a" 1 none "c" 30 rewritten).1.history
        ≡ some (archived "b" first_row))
unfolding upsert initial overwrite archived restore to_view decrypt encrypt mask plain Shelf.get
    Shelf.find Shelf.create Shelf.update update_row String_discrete
history_append_only_example =
    history_append_only settings history (shelf-TableLaws (λ s. s.id)) (shelf-TableLaws (λ h. h.id))
      rewritten service "c" 30 refl (input secret "third-1234") [] "t" "a" 1 none "b"
      (archived "b" first_row) refl

upsert_archives_example :
    (r : Setting) × (settings.get "a"
        (upsert settings history service (input string "second") [] "b" 20 written).1.settings
      ≡ some r)
    × (r.version ≡ 2)
    × ((h : SettingHistory) × (history.get "b"
            (upsert settings history service (input string "second") [] "b" 20 written).1.history
          ≡ some h)
        × (h.setting_id ≡ first_row.id)
        × (h.version ≡ first_row.version)
        × (h.type ≡ first_row.type)
        × (h.value ≡ first_row.value)
        × (h.encrypted_value ≡ first_row.encrypted_value)
        × (h.encryption_iv ≡ first_row.encryption_iv)
        × (h.encryption_tag ≡ first_row.encryption_tag)
        × (h.changed_by ≡ first_row.updated_by))
unfolding upsert initial overwrite archived restore to_view decrypt encrypt mask plain Shelf.get
    Shelf.find Shelf.create Shelf.update update_row String_discrete
upsert_archives_example =
    upsert_archives settings history (shelf-TableLaws (λ s. s.id)) (shelf-TableLaws (λ h. h.id))
      written service "b" 20 refl plain-CryptoLaws (input string "second") [] first_row
      first_row_found

upsert_keeps_ciphertext_example :
    (r : Setting) × (settings.get "a"
        (upsert settings history service (input string "second") [] "b" 20 written).1.settings
      ≡ some r)
    × (is_secret r.type ≡ false)
    × (r.encrypted_value ≡ some (encrypt service [] "first-1234").ciphertext)
unfolding upsert initial overwrite archived restore to_view decrypt encrypt mask plain Shelf.get
    Shelf.find Shelf.create Shelf.update update_row String_discrete
upsert_keeps_ciphertext_example =
    upsert_keeps_ciphertext settings history (shelf-TableLaws (λ s. s.id))
      (shelf-TableLaws (λ h. h.id)) written service "b" 20 refl plain-CryptoLaws
      (input string "second") [] first_row first_row_found
      (encrypt service [] "first-1234").ciphertext refl refl
