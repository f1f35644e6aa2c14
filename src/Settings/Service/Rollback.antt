-- ===== src/Settings/Service/Rollback.antt =====
-- The method rollback of backend/src/settings/settings.service.ts.
use vibe_ocpp.Prelude.{
  ℕ, ◌+◌, String, ◌≡◌, refl, ap, ◌∙◌, true, Option, none, some, arith, Result, ok, err, eq_refl,
  ◌==◌, ◌&&◌,
}
use vibe_ocpp.Database.{Table, TableLaws, update_row}
use vibe_ocpp.Database.Lookup.{find_only}
use vibe_ocpp.Settings.Encryption.{EncryptionService}
use vibe_ocpp.Settings.Rows.{
  SettingType, string, number, boolean, json, secret, Setting, SettingHistory, SettingView,
}
use vibe_ocpp.Settings.Service.{
  World, archived, restore, to_view, shown_value, payload, view_of, rollback, is_version,
  map_result,
}
use vibe_ocpp.Settings.Service.Cases.{replaced}
use vibe_ocpp.Settings.Service.Invariant.{IsConsistent}

shown_value-same :
    (e : EncryptionService) (type : SettingType) (r s : Setting)
    → r.value ≡ s.value
    → payload r ≡ payload s
    → shown_value e type r ≡ shown_value e type s
unfolding shown_value
shown_value-same e secret r s v p = rw p
shown_value-same e string r s v p = rw v
shown_value-same e number r s v p = rw v
shown_value-same e boolean r s v p = rw v
shown_value-same e json r s v p = rw v

map_result-ok :
    {A B : Type 0} (f : A → B) (m : Result A) (b : B) → map_result f m ≡ ok b → (a : A) × (m ≡ ok a)
map_result-ok f (ok a) b h = (a, refl)
map_result-ok f (err x) b h = cc

-- The contents of a setting, without the version and the marks of who wrote it when.
abbrev pub SameContents : Setting → Setting → Type 0
SameContents r s =
    (r.id ≡ s.id)
    × (r.tenant_id ≡ s.tenant_id)
    × (r.category ≡ s.category)
    × (r.key ≡ s.key)
    × (r.type ≡ s.type)
    × (r.value ≡ s.value)
    × (r.encrypted_value ≡ s.encrypted_value)
    × (r.encryption_iv ≡ s.encryption_iv)
    × (r.encryption_tag ≡ s.encryption_tag)

module _ (Settings : Table Setting (λ s. s.id)) (History : Table SettingHistory (λ h. h.id))
    (S : TableLaws Settings) (H : TableLaws History) (e : EncryptionService)
    (w : World Settings History) (s : Setting) (here : Settings.get s.id w.settings ≡ some s) where
  find_setting : Settings.find (λ r. r.id == s.id && r.tenant_id == s.tenant_id) w.settings ≡ some s
  find_setting =
      find_only Settings S _ _ s.id s here (simp eq_refl)
        (λ j q g t. ground (arith, S.get_id j w.settings q g))

  rollback_found :
      (to_version : ℕ) (updated_by : Option String) (fresh : String) (now : ℕ) (t : SettingHistory)
      (y : SettingView)
      → History.find (is_version Settings History s.id to_version) w.history ≡ some t
      → to_view e (restore t updated_by (s.version + 1) now s) ≡ ok y
      → rollback Settings History e s.tenant_id s.id to_version updated_by fresh now w
        ≡ (ok y, replaced Settings History S s (restore t updated_by (s.version + 1) now) fresh w)
  unfolding rollback
  rollback_found to_version updated_by fresh now t y h k = rw (find_setting, h, here, update_row, k)

module _ (Settings : Table Setting (λ s. s.id)) (History : Table SettingHistory (λ h. h.id))
    (S : TableLaws Settings) (H : TableLaws History) (e : EncryptionService)
    (w : World Settings History) (v : IsConsistent Settings History w) (s : Setting)
    (here : Settings.get s.id w.settings ≡ some s) (to_version : ℕ) (t : SettingHistory)
    (target : History.find (is_version Settings History s.id to_version) w.history ≡ some t)
    (updated_by : Option String) (fresh : String) (now : ℕ)
    (free : History.get fresh w.history ≡ none) where
  abbrev pub restored : Setting
  restored = restore t updated_by (s.version + 1) now s

  abbrev pub rolled : World Settings History
  rolled = replaced Settings History S s (restore t updated_by (s.version + 1) now) fresh w

  restored_here : Settings.get restored.id rolled.settings ≡ some restored
  unfolding restore
  restored_here = ground (
    arith,
    S.get-update s.id s.id (restore t updated_by (s.version + 1) now) w.settings (λ r. refl),
  )

  archive_only :
      (j : String) (q : SettingHistory)
      → History.get j rolled.history ≡ some q
      → is_version Settings History s.id s.version q ≡ true
      → j ≡ fresh
  unfolding archived
  archive_only j q g k =
      ground (arith, H.get-create j (archived fresh s) w.history free, v.older j q s)

  archive_found :
      History.find (is_version Settings History s.id s.version) rolled.history
      ≡ some (archived fresh s)
  unfolding archived
  archive_found =
      find_only History H _ _ fresh (archived fresh s)
        (ground (arith, H.get-create fresh (archived fresh s) w.history free))
        (ground (arith, eq_refl s.id)) archive_only

  -- The contents that the second rollback brings back.
  back : Option String → ℕ → Setting
  back by2 now2 = restore (archived fresh s) by2 (restored.version + 1) now2 restored

  back_here :
      (by2 : Option String) (now2 : ℕ)
      → Settings.get s.id (
          Settings.update s.id
            (restore (archived fresh s) by2 (restored.version + 1) now2)
            rolled.settings)
        ≡ some (back by2 now2)
  unfolding back restore
  back_here by2 now2 = ground (
    arith,
    restored_here,
    S.get-update s.id s.id (restore (archived fresh s) by2 (restored.version + 1) now2)
        rolled.settings (λ r. refl),
  )

  back_same :
      (by2 : Option String) (now2 : ℕ)
      → SameContents (back by2 now2) s × ((back by2 now2).version ≡ s.version + 2)
  unfolding back restore archived
  back_same by2 now2 = ((refl, refl, refl, refl, refl, refl, refl, refl, refl), omega arith)

  back_shows :
      (by2 : Option String) (now2 : ℕ) (x : SettingView)
      → to_view e s ≡ ok x
      → (y : SettingView) × (to_view e (back by2 now2) ≡ ok y)
  unfolding back restore archived to_view
  back_shows by2 now2 x k =
      let (a, shown) = map_result-ok (view_of s) (shown_value e s.type s) x k in
      (
        view_of (back by2 now2) a,
        ap (map_result (view_of (back by2 now2)))
            (shown_value-same e s.type (back by2 now2) s refl refl ∙ shown),
      )

  -- On consistent tables, where the id of the new row of the history is free, a rollback to a
  -- version of the history that can be decrypted gives the setting that version's contents under
  -- the next version number, and the version that it replaces is found in the history afterwards.
  pub rollback_restores :
      (y : SettingView)
      → to_view e restored ≡ ok y
      → (r : Setting) × (w' : World Settings History) × (rollback Settings History e s.tenant_id
            s.id to_version updated_by fresh now w
          ≡ (ok y, w'))
        × (Settings.get s.id w'.settings ≡ some r)
        × (r.type ≡ t.type)
        × (r.value ≡ t.value)
        × (r.encrypted_value ≡ t.encrypted_value)
        × (r.encryption_iv ≡ t.encryption_iv)
        × (r.encryption_tag ≡ t.encryption_tag)
        × (r.version ≡ s.version + 1)
        × (History.find (is_version Settings History s.id s.version) w'.history
            ≡ some (archived fresh s))
  unfolding restore
  rollback_restores y shows = (
    restored,
    rolled,
    rollback_found Settings History S H e w s here to_version updated_by fresh now t y target shows,
    restored_here,
    refl,
    refl,
    refl,
    refl,
    refl,
    refl,
    archive_found,
  )

  -- On consistent tables, where the id of the new row of the history is free and both contents
  -- can be decrypted: after a rollback, a rollback to the version that it replaced brings back
  -- that version's contents, under the version number after next.
  pub rollback-rollback :
      (x y : SettingView) (by2 : Option String) (fresh2 : String) (now2 : ℕ)
      → to_view e s ≡ ok x
      → to_view e restored ≡ ok y
      → let w' =
          (rollback Settings History e s.tenant_id s.id to_version updated_by fresh now w).1 in
        (z : SettingView) × (r : Setting) × ((rollback Settings History e s.tenant_id s.id s.version
            by2 fresh2 now2 w').0
          ≡ ok z)
        × (Settings.get s.id
              (rollback Settings History e s.tenant_id s.id s.version by2 fresh2 now2 w').1.settings
            ≡ some r)
        × SameContents r s
        × (r.version ≡ s.version + 2)
  unfolding restore back
  rollback-rollback x y by2 fresh2 now2 readable shows =
      let (z, z_shows) = back_shows by2 now2 x readable in
      let (same, next) = back_same by2 now2 in
      let second =
        rollback_found Settings History S H e rolled restored restored_here s.version by2 fresh2
          now2 (archived fresh s) z archive_found z_shows in
      let both =
        ap
          (λ (o : Result SettingView × World Settings History).
            rollback Settings History e s.tenant_id s.id s.version by2 fresh2 now2 o.1)
          (rollback_found Settings History S H e w s here to_version updated_by fresh now t y target
            shows)
        ∙ second in
      (
        z,
        back by2 now2,
        ap (λ o. o.0) both,
        ap (λ o. Settings.get s.id o.1.settings) both ∙ back_here by2 now2,
        same,
        next,
      )
