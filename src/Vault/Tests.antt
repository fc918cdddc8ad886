-- ===== src/Vault/Tests.antt =====
-- A small vault, for the tests of lib/security/session-vault-format.ts.
use sub_etha.Prelude.{
  ℕ, zero, suc, ◌≡◌, refl, Text, codes, List, [], ◌∷◌, none, some, ok, refused, ◌≤◌, length, arith,
}
use sub_etha.Matrix.Tests.{development}
use sub_etha.Vault.Base64.RoundTrip.{decode-encode_base64url, decode_canonical_base64url_sound}
use sub_etha.Vault.Base64.{
  ByteBounds, encode_base64url, decode_canonical_base64url, lower_bound, upper_bound,
}
use sub_etha.Vault.Records.{AesGcmBox, recovery_key, LockedMatrixSessionRecord, all_owned}
use sub_etha.Vault.Sound.Record.{validate_locked_record-IsRecord}
use sub_etha.Vault.Sound.{IsRecord}
use sub_etha.Vault.Sound.Session.{IsSession, normalize_persisted_session-IsSession}
use sub_etha.Vault.Legacy.{stored_metadata, legacy_storage_metadata_stored}
use sub_etha.Vault.Slots.{validate_vault_storage_metadata}
use sub_etha.Vault.Session.{
  PersistedMatrixSession, password, normalize_persisted_session, legacy_storage_metadata,
}
use sub_etha.Vault.Stored.{
  Stored, num, str, arr, obj, whole, Items, nil, cons, gap, end, field, corrupt, Fields,
  record_fields,
}
use sub_etha.Vault.Validate.{validate_locked_record, validate_tombstone}

-- So many times the letter of six zero bits.
abbrev letters : ℕ → Text
letters zero = []
letters (suc n) = b'A' ∷ letters n

abbrev stored_box : ℕ → Stored
stored_box n = obj (
    field (codes "algorithm") (str (codes "AES-256-GCM"))
      (field (codes "iv") (str (letters 16)) (field (codes "ciphertext") (str (letters n)) end)))

abbrev stored_slot : Stored
stored_slot = obj (
    field (codes "kind") (str (codes "recovery-key-pbkdf2")) (
      field (codes "slotId") (str (letters 22)) (
        field (codes "salt") (str (letters 43)) (
          field (codes "iterations") (num (whole 500000))
            (field (codes "wrappedDek") (stored_box 64) end)))))

abbrev stored_record : Items → Stored
stored_record slots = obj (
    field (codes "kind") (str (codes "locked-matrix-session")) (
      field (codes "schemaVersion") (num (whole 1)) (
        field (codes "recordId") (str (letters 22)) (
          field (codes "revision") (num (whole 7)) (
            field (codes "storage")
              (obj (field (codes "cryptoDatabasePrefix") (str (codes "sub-etha-crypto-a")) end))
              (field (codes "payload") (stored_box 22)
                (field (codes "unlockSlots") (arr slots) end)))))))

abbrev box_of : ℕ → AesGcmBox
box_of n = record { iv = letters 16; ciphertext = letters n }

abbrev small_record : LockedMatrixSessionRecord
small_record = record {
  record_id = letters 22;
  revision = 7;
  storage = record {
    crypto_database_prefix = codes "sub-etha-crypto-a";
    legacy_sync_database = none;
  };
  payload = box_of 22;
  unlock_slots =
      recovery_key (record { slot_id = letters 22; salt = letters 43; wrapped_dek = box_of 64 })
      ∷ [];
}

record_accepted :
    validate_locked_record development (stored_record (cons stored_slot nil)) ≡ ok small_record
unfolding validate_locked_record
record_accepted = refl

two_recovery_keys_test :
    validate_locked_record development (stored_record (cons stored_slot (cons stored_slot nil)))
    ≡ refused corrupt
unfolding validate_locked_record
two_recovery_keys_test = refl

sparse_slots_test :
    validate_locked_record development (stored_record (gap (cons stored_slot nil)))
    ≡ refused corrupt
unfolding validate_locked_record
sparse_slots_test = refl

validate_locked_record-IsRecord_example : IsRecord small_record
validate_locked_record-IsRecord_example =
    validate_locked_record-IsRecord development (stored_record (cons stored_slot nil)) small_record
      record_accepted

tombstone_test :
    validate_tombstone (
      obj (
        field (codes "kind") (str (codes "matrix-session-tombstone")) (
          field (codes "schemaVersion") (num (whole 1)) (
            field (codes "recordId") (str (letters 22)) (
              field (codes "revision") (num (whole 2)) (
                field
                  (codes "pendingCleanup")
                  (obj (field (codes "scope") (str (codes "all-owned")) end))
                  end))))))
    ≡ ok (record { record_id = letters 22; revision = 2; pending_cleanup = some all_owned })
unfolding validate_tombstone
tombstone_test = refl

abbrev three_bytes : List ℕ
three_bytes = 251 ∷ 239 ∷ 190 ∷ []

abbrev up_to_eight : ByteBounds
up_to_eight = record { exact = none; minimum = none; maximum = 8 }

encode_test : encode_base64url three_bytes ≡ codes "----"
unfolding encode_base64url
encode_test = refl

decode-encode_base64url_example :
    decode_canonical_base64url (str (encode_base64url three_bytes)) up_to_eight ≡ ok three_bytes
decode-encode_base64url_example =
    decode-encode_base64url three_bytes up_to_eight (omega arith, (omega arith, (omega arith, tt)))
      (omega arith) (omega arith) (omega arith) (omega arith)

decode_test : decode_canonical_base64url (str (codes "----")) up_to_eight ≡ ok three_bytes
unfolding decode_canonical_base64url
decode_test = refl

-- The last letter has bits that no byte holds.
not_canonical_test : decode_canonical_base64url (str (codes "AB")) up_to_eight ≡ refused corrupt
unfolding decode_canonical_base64url
not_canonical_test = refl

decode_canonical_base64url_sound_example :
    (encode_base64url three_bytes ≡ codes "----")
    × (lower_bound up_to_eight ≤ length three_bytes)
    × (length three_bytes ≤ upper_bound up_to_eight)
decode_canonical_base64url_sound_example =
    decode_canonical_base64url_sound (codes "----") up_to_eight three_bytes decode_test

abbrev stored_session : Stored
stored_session = obj (
    field (codes "baseUrl") (str (codes "http://127.0.0.1:8008")) (
      field (codes "userId") (str (codes "@ford:betelgeuse")) (
        field (codes "deviceId") (str (codes "GUIDE")) (
          field (codes "accessToken") (str (codes "towel")) (
            field (codes "authKind") (str (codes "password"))
              (field (codes "cryptoStorageKey") (str (letters 43)) end))))))

abbrev small_session : PersistedMatrixSession
small_session = record {
  base_url = codes "http://127.0.0.1:8008";
  user_id = codes "@ford:betelgeuse";
  device_id = codes "GUIDE";
  access_token = codes "towel";
  refresh_token = none;
  expires_at = none;
  auth_kind = password;
  crypto_storage_key = letters 43;
  crypto_database_prefix = codes "sub-etha-crypto-_ford_betelgeuse-GUIDE";
  oauth = none;
}

session_accepted :
    normalize_persisted_session development stored_session
      (some (codes "sub-etha-crypto-_ford_betelgeuse-GUIDE"))
    ≡ ok small_session
unfolding normalize_persisted_session
session_accepted = refl

normalize_persisted_session-IsSession_example :
    (fields : Fields) × (record_fields stored_session ≡ some fields)
    × IsSession development fields small_session
normalize_persisted_session-IsSession_example =
    normalize_persisted_session-IsSession development stored_session
      (some (codes "sub-etha-crypto-_ford_betelgeuse-GUIDE")) small_session session_accepted

no_prefix_test : normalize_persisted_session development stored_session none ≡ refused corrupt
unfolding normalize_persisted_session
no_prefix_test = refl

legacy_test : legacy_storage_metadata (codes "@ford:betelgeuse") (codes "GUIDE") ≡ record {
  crypto_database_prefix = codes "sub-etha-crypto-_ford_betelgeuse-GUIDE";
  legacy_sync_database = some (codes "matrix-js-sdk:sub-etha-sync-_ford_betelgeuse-GUIDE");
}
unfolding legacy_storage_metadata
legacy_test = refl

legacy_storage_metadata_stored_example :
    validate_vault_storage_metadata
      (stored_metadata (legacy_storage_metadata (codes "@ford:betelgeuse") (codes "GUIDE")))
    ≡ ok (legacy_storage_metadata (codes "@ford:betelgeuse") (codes "GUIDE"))
legacy_storage_metadata_stored_example =
    legacy_storage_metadata_stored (codes "@ford:betelgeuse") (codes "GUIDE")
