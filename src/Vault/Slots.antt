-- ===== src/Vault/Slots.antt =====
-- The encrypted boxes, the storage names and the unlock slots that lib/security/session-vault-format.ts
-- reads from storage.
use sub_etha.Prelude.{
  ℕ, Text, codes, text_eq, Bool, true, false, not, ◌&&◌, ◌||◌, List, [], ◌∷◌, map, Option, none,
  some, if◌then◌else◌, ltb, leb, ◌==◌, length, all, filter_by, drop, starts_with, ends_with, ok,
  refused, ◌>>=◌, ◌>>◌, refuse_if,
}
use sub_etha.Matrix.UrlPolicy.{WebPlatform}
use sub_etha.Push.Gateway.{is_key_text}
use sub_etha.Vault.Base64.{ByteBounds, or_else}
use sub_etha.Vault.Stored.{
  Stored, str, Fields, field_of, record_fields, dense_array, exact_keys, among, required_string,
  optional_string, corrupt,
}
use sub_etha.Vault.Records.{
  Checked, recovery_iterations, AesGcmBox, UnlockSlot, VaultStorageMetadata, is_text, is_number,
  or_corrupt, validate_encoded, exactly, validate_identifier, recovery_key, webauthn_prf,
}

abbrev pub ciphertext_bounds : ℕ → Option ℕ → ByteBounds
ciphertext_bounds maximum exact = record {
  exact = exact;
  minimum = some (or_else exact 16);
  maximum = maximum;
}

abbrev pub box_keys : List Text
box_keys = codes "algorithm" ∷ codes "iv" ∷ codes "ciphertext" ∷ []

unfoldable pub validate_aes_box : Stored → ℕ → Option ℕ → Checked AesGcmBox
unfolding exact_keys field_of text_eq validate_encoded
validate_aes_box value maximum exact = do
  fields ← or_corrupt (record_fields value)
  exact_keys fields box_keys []
  refuse_if (not (is_text (field_of fields (codes "algorithm")) (codes "AES-256-GCM"))) corrupt
  iv ← validate_encoded (field_of fields (codes "iv")) (exactly 12)
  ciphertext ←
      validate_encoded (field_of fields (codes "ciphertext")) (ciphertext_bounds maximum exact)
  ok (record { iv = iv; ciphertext = ciphertext })

-- A text of letters, digits, `_` and `-` behind a prefix.
unfoldable pub is_named : Text → ℕ → Text → Bool
unfolding is_key_text starts_with
is_named prefix maximum s = starts_with s prefix && is_key_text 1 maximum (drop (length prefix) s)

abbrev pub is_crypto_database_prefix : Text → Bool
is_crypto_database_prefix s = is_named (codes "sub-etha-crypto-") 160 s

abbrev pub is_legacy_sync_database : Option Text → Bool
is_legacy_sync_database none = true
is_legacy_sync_database (some s) = is_named (codes "matrix-js-sdk:sub-etha-sync-") 120 s

unfoldable pub validate_vault_storage_metadata : Stored → Checked VaultStorageMetadata
unfolding exact_keys field_of required_string optional_string is_named
validate_vault_storage_metadata value = do
  fields ← or_corrupt (record_fields value)
  exact_keys fields (codes "cryptoDatabasePrefix" ∷ []) (codes "legacySyncDatabase" ∷ [])
  prefix ← required_string (field_of fields (codes "cryptoDatabasePrefix")) 192
  refuse_if (not (is_crypto_database_prefix prefix)) corrupt
  legacy ← optional_string (field_of fields (codes "legacySyncDatabase")) 180
  refuse_if (not (is_legacy_sync_database legacy)) corrupt
  ok (record { crypto_database_prefix = prefix; legacy_sync_database = legacy })

abbrev pub authenticator_transports : List Text
authenticator_transports =
    codes "ble" ∷ codes "hybrid" ∷ codes "internal" ∷ codes "nfc" ∷ codes "usb" ∷ []

-- The elements, where all are strings.
unfoldable pub texts_of : List Stored → Option (List Text)
texts_of [] = some []
texts_of (str s ∷ vs) = elim (texts_of vs) [ none ↦ none | some ts ↦ some (s ∷ ts) ]
texts_of (_ ∷ vs) = none

-- `new Set(texts).size === texts.length`
unfoldable pub are_unique : List Text → Bool
unfolding text_eq
are_unique [] = true
are_unique (t ∷ ts) = not (among ts t) && are_unique ts

unfoldable pub validate_transports : Stored → Checked (List Text)
unfolding dense_array texts_of are_unique
validate_transports value = do
  values ← or_corrupt (dense_array value)
  refuse_if (ltb (length authenticator_transports) (length values)) corrupt
  texts ← or_corrupt (texts_of values)
  refuse_if (not (all (among authenticator_transports) texts) || not (are_unique texts)) corrupt
  ok texts

unfoldable pub is_rp_id_code : ℕ → Bool
is_rp_id_code c = (leb b'a' c && leb c b'z') || (leb b'0' c && leb c b'9') || c == b'.' || c == b'-'

abbrev pub recovery_keys : List Text
recovery_keys =
    codes "kind" ∷ codes "slotId" ∷ codes "salt" ∷ codes "iterations" ∷ codes "wrappedDek" ∷ []

unfoldable pub validate_recovery_slot : Fields → Checked UnlockSlot
unfolding exact_keys field_of validate_encoded validate_identifier validate_aes_box
validate_recovery_slot fields = do
  exact_keys fields recovery_keys []
  refuse_if (not (is_number (field_of fields (codes "iterations")) recovery_iterations)) corrupt
  salt ← validate_encoded (field_of fields (codes "salt")) (exactly 32)
  slot_id ← validate_identifier (field_of fields (codes "slotId")) 16
  box ← validate_aes_box (field_of fields (codes "wrappedDek")) 48 (some 48)
  ok (recovery_key (record { slot_id = slot_id; salt = salt; wrapped_dek = box }))

abbrev pub webauthn_keys : List Text
webauthn_keys =
    codes "kind"
    ∷ codes "slotId"
    ∷ codes "credentialId"
    ∷ codes "transports"
    ∷ codes "rpId"
    ∷ codes "prfInput"
    ∷ codes "hkdfSalt"
    ∷ codes "wrappedDek"
    ∷ []

abbrev pub credential_bounds : ByteBounds
credential_bounds = record { exact = none; minimum = some 1; maximum = 1024 }

module _ (platform : WebPlatform) where
  unfoldable pub validate_rp_id : Stored → Checked Text
  unfolding required_string text_eq starts_with ends_with is_rp_id_code
  validate_rp_id value = do
    rp_id ← required_string value 253
    refuse_if
        (not (text_eq rp_id (platform.to_lower_case rp_id))
          || starts_with rp_id (b'.' ∷ [])
          || ends_with rp_id (b'.' ∷ [])
          || not (all is_rp_id_code rp_id))
        corrupt
    ok rp_id

  unfoldable pub validate_webauthn_slot : Fields → Checked UnlockSlot
  unfolding exact_keys field_of validate_encoded validate_identifier validate_aes_box
      validate_transports validate_rp_id
  validate_webauthn_slot fields = do
    exact_keys fields webauthn_keys []
    credential_id ← validate_encoded (field_of fields (codes "credentialId")) credential_bounds
    prf_input ← validate_encoded (field_of fields (codes "prfInput")) (exactly 32)
    hkdf_salt ← validate_encoded (field_of fields (codes "hkdfSalt")) (exactly 32)
    slot_id ← validate_identifier (field_of fields (codes "slotId")) 16
    transports ← validate_transports (field_of fields (codes "transports"))
    rp_id ← validate_rp_id (field_of fields (codes "rpId"))
    box ← validate_aes_box (field_of fields (codes "wrappedDek")) 48 (some 48)
    ok (
        webauthn_prf (record {
          slot_id = slot_id;
          credential_id = credential_id;
          transports = transports;
          rp_id = rp_id;
          prf_input = prf_input;
          hkdf_salt = hkdf_salt;
          wrapped_dek = box;
        }))

  abbrev pub slot_of_kind : Fields → Stored → Checked UnlockSlot
  slot_of_kind fields kind =
      if is_text kind (codes "recovery-key-pbkdf2")
      then validate_recovery_slot fields
      else if is_text kind (codes "webauthn-prf")
      then validate_webauthn_slot fields
      else refused corrupt

  unfoldable pub validate_unlock_slot : Stored → Checked UnlockSlot
  unfolding field_of text_eq validate_recovery_slot validate_webauthn_slot
  validate_unlock_slot value = or_corrupt (record_fields value) >>= λ fields.
      slot_of_kind fields (field_of fields (codes "kind"))

  unfoldable pub validate_unlock_slots : List Stored → Checked (List UnlockSlot)
  unfolding validate_unlock_slot
  validate_unlock_slots [] = ok []
  validate_unlock_slots (v ∷ vs) =
      validate_unlock_slot v >>= λ slot. validate_unlock_slots vs >>= λ slots. ok (slot ∷ slots)

abbrev pub slot_id_of : UnlockSlot → Text
slot_id_of (recovery_key s) = s.slot_id
slot_id_of (webauthn_prf s) = s.slot_id

abbrev pub is_recovery_key : UnlockSlot → Bool
is_recovery_key (recovery_key s) = true
is_recovery_key (webauthn_prf s) = false

abbrev pub is_slot_set : List UnlockSlot → Bool
is_slot_set slots =
    are_unique (map slot_id_of slots) && length (filter_by is_recovery_key slots) == 1
