-- ===== src/Vault/Binding.antt =====
-- What the encryption of the vault is bound to: `canonicalBox`, `canonicalSlotMetadata`, `slotAdditionalData`,
-- `payloadAdditionalData` and `webAuthnHkdfInfo` of lib/security/session-vault-format.ts. The encoder of
-- `JSON.stringify` and UTF-8, with the type of its bytes, is a parameter.
pub mod Separate
pub mod Tests
use sub_etha.Json.{Json, null, num, str, arr, Items, nil, cons}
use sub_etha.Prelude.{
  ℕ, ◌≡◌, ◌≢◌, refl, sym, ap, ◌∙◌, Text, codes, text_eq, text_eq_iff, Bool, true, false, List, [],
  ◌∷◌, map, Option, none, some, arith,
}
use sub_etha.Vault.Records.{
  AesGcmBox, RecoveryKeySlot, WebAuthnPrfSlot, UnlockSlot, recovery_key, webauthn_prf,
  VaultStorageMetadata, vault_schema_version, recovery_iterations,
}

abbrev pub items_of : List Json → Items
items_of [] = nil
items_of (v ∷ vs) = cons v (items_of vs)

abbrev pub array : List Json → Json
array vs = arr (items_of vs)

abbrev pub number : ℕ → Json
number n = num false n

abbrev pub canonical_box : AesGcmBox → Json
canonical_box box = array (str (codes "AES-256-GCM") ∷ str box.iv ∷ str box.ciphertext ∷ [])

abbrev pub recovery_metadata : RecoveryKeySlot → List Json → Json
recovery_metadata s more = array (
    str (codes "recovery-key-pbkdf2")
    ∷ str s.slot_id
    ∷ str s.salt
    ∷ number recovery_iterations
    ∷ more)

abbrev pub webauthn_metadata : WebAuthnPrfSlot → List Json → Json
webauthn_metadata s more = array (
    str (codes "webauthn-prf")
    ∷ str s.slot_id
    ∷ str s.credential_id
    ∷ array (map str s.transports)
    ∷ str s.rp_id
    ∷ str s.prf_input
    ∷ str s.hkdf_salt
    ∷ more)

unfoldable pub canonical_slot_metadata : UnlockSlot → Json
canonical_slot_metadata (recovery_key s) = recovery_metadata s (canonical_box s.wrapped_dek ∷ [])
canonical_slot_metadata (webauthn_prf s) = webauthn_metadata s (canonical_box s.wrapped_dek ∷ [])

-- Of a slot without its wrapped key.
abbrev pub bare_slot_metadata : UnlockSlot → Json
bare_slot_metadata (recovery_key s) = recovery_metadata s []
bare_slot_metadata (webauthn_prf s) = webauthn_metadata s []

abbrev pub or_null : Option Text → Json
or_null none = null
or_null (some s) = str s

abbrev pub canonical_storage : VaultStorageMetadata → Json
canonical_storage m = array (str m.crypto_database_prefix ∷ or_null m.legacy_sync_database ∷ [])

module _ {Encoded : Type 0} (canonical_json : Json → Encoded) where
  unfoldable pub slot_additional_data : (record_id : Text) → UnlockSlot → Encoded
  slot_additional_data record_id slot = canonical_json (
      array (
        str (codes "sub-etha/session-vault/slot/v1")
        ∷ number vault_schema_version
        ∷ str record_id
        ∷ bare_slot_metadata slot
        ∷ []))

  unfoldable pub payload_additional_data :
      (record_id : Text) (revision : ℕ) → VaultStorageMetadata → List UnlockSlot → Encoded
  unfolding canonical_slot_metadata
  payload_additional_data record_id revision storage slots = canonical_json (
      array (
        str (codes "sub-etha/session-vault/payload/v1")
        ∷ number vault_schema_version
        ∷ str record_id
        ∷ number revision
        ∷ canonical_storage storage
        ∷ array (map canonical_slot_metadata slots)
        ∷ []))

  unfoldable pub webauthn_hkdf_info : (record_id slot_id : Text) → Encoded
  webauthn_hkdf_info record_id slot_id = canonical_json (
      array (
        str (codes "sub-etha/session-vault/webauthn-prf-kek/v1")
        ∷ number vault_schema_version
        ∷ str record_id
        ∷ str slot_id
        ∷ []))
