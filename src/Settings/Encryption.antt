-- ===== src/Settings/Encryption.antt =====
-- backend/src/settings/encryption.service.ts. The functions of node:crypto and Buffer are a
-- parameter; the random initialisation vector is an argument.
pub mod Plain
use vibe_ocpp.Prelude.{
  ℕ, ◌+◌, ◌-◌, ◌≤◌, ◌<◌, String, ◌≡◌, refl, true, false, arith, Option, none, some, List, length,
  Result, ok, err, failure, leb, nat_eq, if◌then◌else◌,
}
use vibe_ocpp.Prelude.Text.{
  ◌+++◌, text_length, text_drop, last, text_length-append, text_drop-append,
}

abbrev pub Bytes : Type 0
Bytes = List ℕ

pub record EncryptedPayload : Type 0 where
  pub ciphertext : Bytes
  pub iv : Bytes
  pub auth_tag : Bytes

-- createCipheriv and createDecipheriv for aes-256-gcm, run to their `final()`; deciphering throws
-- where the tag does not fit. `Buffer.from(s, 'base64')`, and UTF-8 both ways.
pub record Crypto : Type 0 where
  pub cipher : Bytes → Bytes → Bytes → Bytes
  pub tag : Bytes → Bytes → Bytes → Bytes
  pub decipher : Bytes → Bytes → Bytes → Bytes → Option Bytes
  pub base64 : String → Bytes
  pub utf8 : String → Bytes
  pub from_utf8 : Bytes → String

pub record CryptoLaws (c : Crypto) : Type 0 where
  pub decipher-cipher :
      (key iv plain : Bytes)
      → c.decipher key iv (c.tag key iv plain) (c.cipher key iv plain) ≡ some plain
  pub from_utf8-utf8 : (s : String) → c.from_utf8 (c.utf8 s) ≡ s

pub record EncryptionService : Type 0 where
  pub crypto : Crypto
  pub key : Bytes

-- The constructor: a key of another length stops the start of the program.
unfoldable pub construct : Crypto → String → Result EncryptionService
construct c master_key =
    if nat_eq (length (c.base64 master_key)) 32
    then ok (record { crypto = c; key = c.base64 master_key })
    else err (failure "SETTINGS_MASTER_KEY must decode to exactly 32 bytes")

unfoldable pub encrypt : EncryptionService → Bytes → String → EncryptedPayload
encrypt e iv plaintext = record {
  ciphertext = e.crypto.cipher e.key iv (e.crypto.utf8 plaintext);
  iv = iv;
  auth_tag = e.crypto.tag e.key iv (e.crypto.utf8 plaintext);
}

decoded : EncryptionService → Option Bytes → Result String
decoded e none = err (failure "Unsupported state or unable to authenticate data")
decoded e (some plain) = ok (e.crypto.from_utf8 plain)

unfoldable pub decrypt : EncryptionService → EncryptedPayload → Result String
unfolding decoded
decrypt e p = decoded e (e.crypto.decipher e.key p.iv p.auth_tag p.ciphertext)

unfoldable pub mask : String → String
mask plaintext = if leb (text_length plaintext) 4 then "••••" else "••••" +++ last 4 plaintext

pub decrypt-encrypt :
    (e : EncryptionService) (iv : Bytes) (s : String)
    → CryptoLaws e.crypto
    → decrypt e (encrypt e iv s) ≡ ok s
unfolding decrypt encrypt
decrypt-encrypt e iv s l = rw (l.decipher-cipher, l.from_utf8-utf8)

mask_of_append :
    (a t : String) → 0 < text_length a → text_length t ≡ 4 → mask (a +++ t) ≡ "••••" +++ t
unfolding mask
mask_of_append a t h k =
    let e : leb (text_length (a +++ t)) 4 ≡ false = ground (arith, text_length-append a t) in
    let d : text_length (a +++ t) - 4 ≡ text_length a = omega (arith, text_length-append a t) in
    rw (e, d, text_drop-append)

-- Two secrets of more than four characters that end in the same four look the same masked.
pub mask_hides :
    (a b t : String)
    → 0 < text_length a
    → 0 < text_length b
    → text_length t ≡ 4
    → mask (a +++ t) ≡ mask (b +++ t)
mask_hides a b t ha hb ht = rw (mask_of_append a t ha ht, mask_of_append b t hb ht)
