-- ===== src/Vault/Records.antt =====
-- The records of lib/security/session-vault-format.ts and the validators that read them from storage.
use sub_etha.Prelude.{
  ℕ, ◌*◌, Text, text_eq, Bool, false, ◌&&◌, List, Option, none, some, if◌then◌else◌, leb, ◌==◌,
  Outcome, ok, refused, ◌>>=◌,
}
use sub_etha.Media.Gate.{max_safe_integer}
use sub_etha.Vault.Base64.{ByteBounds, decode_text}
use sub_etha.Vault.Stored.{Stored, str, num, whole, SessionVaultErrorCode, corrupt}

abbrev pub Checked : Type 0 → Type 0
Checked A = Outcome SessionVaultErrorCode A

abbrev pub vault_schema_version : ℕ
vault_schema_version = 1

abbrev pub recovery_iterations : ℕ
recovery_iterations = 500000

abbrev pub max_payload_bytes : ℕ
max_payload_bytes = 256 * 1024

abbrev pub max_unlock_slots : ℕ
max_unlock_slots = 8

pub record AesGcmBox : Type 0 where
  pub iv : Text
  pub ciphertext : Text

pub record RecoveryKeySlot : Type 0 where
  pub slot_id : Text
  pub salt : Text
  pub wrapped_dek : AesGcmBox

pub record WebAuthnPrfSlot : Type 0 where
  pub slot_id : Text
  pub credential_id : Text
  pub transports : List Text
  pub rp_id : Text
  pub prf_input : Text
  pub hkdf_salt : Text
  pub wrapped_dek : AesGcmBox

pub data UnlockSlot : Type 0 where
  recovery_key : RecoveryKeySlot → UnlockSlot
  webauthn_prf : WebAuthnPrfSlot → UnlockSlot

pub record VaultStorageMetadata : Type 0 where
  pub crypto_database_prefix : Text
  pub legacy_sync_database : Option Text

pub record LockedMatrixSessionRecord : Type 0 where
  pub record_id : Text
  pub revision : ℕ
  pub storage : VaultStorageMetadata
  pub payload : AesGcmBox
  pub unlock_slots : List UnlockSlot

pub data PendingCleanup : Type 0 where
  exact_storage : VaultStorageMetadata → PendingCleanup
  all_owned : PendingCleanup

pub record MatrixSessionTombstone : Type 0 where
  pub record_id : Text
  pub revision : ℕ
  pub pending_cleanup : Option PendingCleanup

-- `value === text`, `value === n`
abbrev pub is_text : Stored → Text → Bool
is_text (str s) t = text_eq s t
is_text _ t = false

abbrev pub is_number : Stored → ℕ → Bool
is_number (num (whole m)) n = m == n
is_number _ n = false

-- `Number.isSafeInteger(value) && Number(value) >= 1`, with the number.
unfoldable pub positive_safe_integer : Stored → Option ℕ
positive_safe_integer (num (whole n)) = if leb 1 n && leb n max_safe_integer then some n else none
positive_safe_integer _ = none

abbrev pub or_corrupt : {A : Type 0} → Option A → Checked A
or_corrupt none = refused corrupt
or_corrupt (some a) = ok a

-- `decodeCanonicalBase64Url(value, …)`, after which the source keeps the text.
unfoldable pub validate_encoded : Stored → ByteBounds → Checked Text
unfolding decode_text
validate_encoded (str s) options = decode_text s options >>= λ bytes. ok s
validate_encoded _ options = refused corrupt

abbrev pub exactly : ℕ → ByteBounds
exactly n = record { exact = some n; minimum = none; maximum = n }

unfoldable pub validate_identifier : Stored → ℕ → Checked Text
unfolding validate_encoded
validate_identifier value bytes = validate_encoded value (exactly bytes)
