-- ===== src/Vault/Validate.antt =====
-- The validators of a locked record and of a tombstone in lib/security/session-vault-format.ts.
use sub_etha.Prelude.{
  List, ℕ, ◌+◌, Text, codes, text_eq, not, ◌||◌, List, [], ◌∷◌, Option, none, some, if◌then◌else◌,
  ltb, length, ok, refused, ◌>>=◌, ◌>>◌, refuse_if,
}
use sub_etha.Matrix.UrlPolicy.{WebPlatform}
use sub_etha.Vault.Stored.{
  Fields, Stored, undefined, Fields, field_of, record_fields, dense_array, exact_keys, corrupt,
}
use sub_etha.Vault.Records.{
  UnlockSlot, Checked, vault_schema_version, max_payload_bytes, max_unlock_slots, UnlockSlot,
  LockedMatrixSessionRecord, PendingCleanup, MatrixSessionTombstone, is_text, is_number,
  positive_safe_integer, or_corrupt, validate_identifier, exact_storage, all_owned,
}
use sub_etha.Vault.Slots.{
  validate_aes_box, validate_vault_storage_metadata, are_unique, validate_unlock_slots, is_slot_set,
}

abbrev pub record_keys : List Text
record_keys =
    codes "kind"
    ∷ codes "schemaVersion"
    ∷ codes "recordId"
    ∷ codes "revision"
    ∷ codes "storage"
    ∷ codes "payload"
    ∷ codes "unlockSlots"
    ∷ []

-- The fields that are read last, and the record.
unfoldable pub finish_record : Fields → ℕ → List UnlockSlot → Checked LockedMatrixSessionRecord
unfolding field_of validate_identifier validate_vault_storage_metadata validate_aes_box
finish_record fields revision slots = do
  record_id ← validate_identifier (field_of fields (codes "recordId")) 16
  storage ← validate_vault_storage_metadata (field_of fields (codes "storage"))
  payload ← validate_aes_box (field_of fields (codes "payload")) (max_payload_bytes + 16) none
  ok (record {
    record_id = record_id;
    revision = revision;
    storage = storage;
    payload = payload;
    unlock_slots = slots;
  })

module _ (platform : WebPlatform) where
  unfoldable pub validate_locked_record : Stored → Checked LockedMatrixSessionRecord
  unfolding exact_keys field_of text_eq positive_safe_integer dense_array are_unique
      validate_unlock_slots finish_record
  validate_locked_record value = do
    fields ← or_corrupt (record_fields value)
    exact_keys fields record_keys []
    refuse_if
        (not (is_text (field_of fields (codes "kind")) (codes "locked-matrix-session"))
          || not (is_number (field_of fields (codes "schemaVersion")) vault_schema_version))
        corrupt
    revision ← or_corrupt (positive_safe_integer (field_of fields (codes "revision")))
    values ← or_corrupt (dense_array (field_of fields (codes "unlockSlots")))
    refuse_if (ltb (length values) 1 || ltb max_unlock_slots (length values)) corrupt
    slots ← validate_unlock_slots platform values
    refuse_if (not (is_slot_set slots)) corrupt
    finish_record fields revision slots

abbrev pub cleanup_of_scope : Fields → Stored → Checked PendingCleanup
cleanup_of_scope fields scope =
    if is_text scope (codes "all-owned")
    then (exact_keys fields (codes "scope" ∷ []) [] >> ok all_owned)
    else if is_text scope (codes "exact")
    then (exact_keys fields (codes "scope" ∷ codes "storage" ∷ []) []
        >> (validate_vault_storage_metadata (field_of fields (codes "storage")) >>= λ storage.
            ok (exact_storage storage)))
    else refused corrupt

unfoldable pub validate_cleanup : Stored → Checked (Option PendingCleanup)
unfolding field_of text_eq exact_keys validate_vault_storage_metadata
validate_cleanup undefined = ok none
validate_cleanup value = or_corrupt (record_fields value) >>= λ fields.
    cleanup_of_scope fields (field_of fields (codes "scope")) >>= λ cleanup. ok (some cleanup)

abbrev pub tombstone_keys : List Text
tombstone_keys = codes "kind" ∷ codes "schemaVersion" ∷ codes "recordId" ∷ codes "revision" ∷ []

unfoldable pub validate_tombstone : Stored → Checked MatrixSessionTombstone
unfolding exact_keys field_of text_eq positive_safe_integer validate_cleanup validate_identifier
validate_tombstone value = do
  fields ← or_corrupt (record_fields value)
  exact_keys fields tombstone_keys (codes "pendingCleanup" ∷ [])
  refuse_if
      (not (is_text (field_of fields (codes "kind")) (codes "matrix-session-tombstone"))
        || not (is_number (field_of fields (codes "schemaVersion")) vault_schema_version))
      corrupt
  revision ← or_corrupt (positive_safe_integer (field_of fields (codes "revision")))
  cleanup ← validate_cleanup (field_of fields (codes "pendingCleanup"))
  record_id ← validate_identifier (field_of fields (codes "recordId")) 16
  ok (record { record_id = record_id; revision = revision; pending_cleanup = cleanup })
