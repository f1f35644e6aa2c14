-- ===== src/Settings/Rows.antt =====
-- backend/src/settings/settings.types.ts, and the two tables of backend/prisma/schema.prisma.
use vibe_ocpp.Prelude.{ℕ, String, Bool, true, false, Option}
use vibe_ocpp.Settings.Encryption.{Bytes}

pub data SettingType : Type 0 where
  string number boolean json secret : SettingType

abbrev pub is_secret : SettingType → Bool
is_secret secret = true
is_secret _ = false

pub record Setting : Type 0 where
  pub id : String
  pub tenant_id : String
  pub category : String
  pub key : String
  pub type : SettingType
  pub value : Option String
  pub encrypted_value : Option Bytes
  pub encryption_iv : Option Bytes
  pub encryption_tag : Option Bytes
  pub version : ℕ
  pub updated_by : Option String
  pub updated_at : ℕ

pub record SettingHistory : Type 0 where
  pub id : String
  pub setting_id : String
  pub version : ℕ
  pub type : SettingType
  pub value : Option String
  pub encrypted_value : Option Bytes
  pub encryption_iv : Option Bytes
  pub encryption_tag : Option Bytes
  pub changed_by : Option String

pub record SettingView : Type 0 where
  pub id : String
  pub category : String
  pub key : String
  pub type : SettingType
  pub value : String
  pub version : ℕ
  pub updated_by : Option String
  pub updated_at : ℕ

pub record UpsertSettingInput : Type 0 where
  pub tenant_id : String
  pub category : String
  pub key : String
  pub type : SettingType
  pub value : String
  pub updated_by : Option String
