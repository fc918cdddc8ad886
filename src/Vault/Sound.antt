-- ===== src/Vault/Sound.antt =====
-- What a record has that the validators of lib/security/session-vault-format.ts let through.
pub mod Record
pub mod Session
use sub_etha.Prelude.{
  ℕ, ◌+◌, ◌≤◌, ◌≡◌, refl, sym, Text, Bool, true, false, not, ◌&&◌, ◌||◌, List, [], ◌∷◌, map, Option,
  none, some, ltb, leb, ◌==◌, codes, if◌then◌else◌, text_eq, length, all, All, filter_by, if_intro,
  option_intro, Outcome, ok, refused, ◌>>=◌, ◌>>◌, refuse_if, Ends, Ends->>=, Ends-refuse_if,
  Ends-ok, arith,
}
use sub_etha.Matrix.UrlPolicy.{WebPlatform}
use sub_etha.Media.Gate.{max_safe_integer}
use sub_etha.Vault.Base64.{
  lower_bound, upper_bound, encode_base64url, ByteBounds, is_malformed, atob, padded, accept_bytes,
  decode_text,
}
use sub_etha.Vault.Records.{
  Checked, is_text, AesGcmBox, UnlockSlot, recovery_key, webauthn_prf, VaultStorageMetadata,
  LockedMatrixSessionRecord, exactly, validate_encoded, validate_identifier, or_corrupt,
  positive_safe_integer, max_unlock_slots, max_payload_bytes,
}
use sub_etha.Vault.Slots.{
  validate_aes_box, box_keys, ciphertext_bounds, is_crypto_database_prefix, is_legacy_sync_database,
  validate_vault_storage_metadata, authenticator_transports, texts_of, are_unique,
  validate_transports, validate_recovery_slot, credential_bounds, validate_webauthn_slot,
  validate_unlock_slot, validate_unlock_slots, slot_id_of, is_recovery_key, is_slot_set,
  slot_of_kind, validate_rp_id,
}
use sub_etha.Vault.Stored.{
  Stored, undefined, null, bool, num, str, arr, obj, buffer, Fields, exact_keys, field_of, among,
  SessionVaultErrorCode, corrupt, required_string, optional_string, record_fields, dense_array,
}
use sub_etha.Vault.Validate.{validate_locked_record}

-- A text that is the canonical Base64URL of bytes within the bounds.
abbrev pub IsEncoded : Text → ByteBounds → Type 0
IsEncoded s options = (bytes : List ℕ) × (decode_text s options ≡ ok bytes)

abbrev pub IsTransports : List Text → Type 0
IsTransports ts = (all (among authenticator_transports) ts ≡ true) × (are_unique ts ≡ true)

abbrev pub IsBox : ℕ → Option ℕ → AesGcmBox → Type 0
IsBox maximum exact box =
    IsEncoded box.iv (exactly 12) × IsEncoded box.ciphertext (ciphertext_bounds maximum exact)

abbrev pub IsStorage : VaultStorageMetadata → Type 0
IsStorage m =
    (is_crypto_database_prefix m.crypto_database_prefix ≡ true)
    × (is_legacy_sync_database m.legacy_sync_database ≡ true)

abbrev pub IsSlot : UnlockSlot → Type 0
IsSlot (recovery_key s) =
    IsEncoded s.slot_id (exactly 16)
    × IsEncoded s.salt (exactly 32)
    × IsBox 48 (some 48) s.wrapped_dek
IsSlot (webauthn_prf s) =
    IsEncoded s.slot_id (exactly 16)
    × IsEncoded s.credential_id credential_bounds
    × ((all (among authenticator_transports) s.transports ≡ true)
        × (are_unique s.transports ≡ true))
    × IsEncoded s.prf_input (exactly 32)
    × IsEncoded s.hkdf_salt (exactly 32)
    × IsBox 48 (some 48) s.wrapped_dek

abbrev pub IsRecord : LockedMatrixSessionRecord → Type 0
IsRecord r =
    IsEncoded r.record_id (exactly 16)
    × ((1 ≤ r.revision) × (r.revision ≤ max_safe_integer))
    × IsStorage r.storage
    × IsBox (max_payload_bytes + 16) none r.payload
    × ((1 ≤ length r.unlock_slots) × (length r.unlock_slots ≤ max_unlock_slots))
    × All IsSlot r.unlock_slots
    × (are_unique (map slot_id_of r.unlock_slots) ≡ true)
    × (length (filter_by is_recovery_key r.unlock_slots) ≡ 1)

module _ {A B : Type 0} (Q : B → Type 0) where
  pub Ends-or_corrupt :
      (o : Option A) (f : A → Checked B)
      → ((a : A) → o ≡ some a → Ends Q (f a))
      → Ends Q (or_corrupt o >>= f)
  Ends-or_corrupt none f k = tt
  Ends-or_corrupt (some a) f k = k a refl

module _ {B : Type 0} (Q : B → Type 0) where
  pub Ends-exact_keys :
      (fields : Fields) (required optional : List Text) (m : Checked B)
      → Ends Q m
      → Ends Q (exact_keys fields required optional >> m)
  unfolding exact_keys
  Ends-exact_keys fields required optional m h = Ends-refuse_if Q _ corrupt m (λ e. h)

abbrev pub Settles : {A : Type 0} → Checked A → Type 0
Settles {A} o = Ends {E = SessionVaultErrorCode} {A = A} (λ a. Unit) o

pub Settles-if : {A : Type 0} (b : Bool) (a : A) → Settles (if b then refused corrupt else ok a)
Settles-if true a = tt
Settles-if false a = tt

module _ {A B : Type 0} (P : A → Type 0) (Q : B → Type 0) where
  pub Ends-bind :
      (m : Checked A) (f : A → Checked B)
      → Ends P m
      → ((a : A) → m ≡ ok a → P a → Ends Q (f a))
      → Ends Q (m >>= f)
  Ends-bind m f p k = Ends->>= P Q m f p k

Ends-decode_text : (s : Text) (options : ByteBounds) → Ends (λ b. Unit {0}) (decode_text s options)
unfolding decode_text accept_bytes
Ends-decode_text s options =
    if_intro Settles (is_malformed s options) _ _ (λ m. tt)
      (λ m.
        option_intro Settles (atob (padded s)) _ (accept_bytes s options) (λ n. tt)
          (λ bytes e. Settles-if (outside bytes) bytes))
  where
    outside : List ℕ → Bool
    outside bytes =
        ltb (length bytes) (lower_bound options)
        || ltb (upper_bound options) (length bytes)
        || not (text_eq (encode_base64url bytes) s)

pub Ends-validate_encoded :
    (value : Stored) (options : ByteBounds)
    → Ends (λ s. IsEncoded s options) (validate_encoded value options)
unfolding validate_encoded
Ends-validate_encoded (str s) options =
    Ends-bind (λ b. Unit {0}) (λ s. IsEncoded s options) (decode_text s options) _
      (Ends-decode_text s options) (λ bytes e u. (bytes, e))
Ends-validate_encoded _ options = tt

module _ (value : Stored) (maximum : ℕ) (exact : Option ℕ) where
  pub Ends-validate_aes_box : Ends (IsBox maximum exact) (validate_aes_box value maximum exact)
  unfolding validate_aes_box
  Ends-validate_aes_box =
      let goal = IsBox maximum exact in
      Ends-or_corrupt goal (record_fields value) _ (λ fields e.
        Ends-exact_keys goal fields box_keys [] _ (
          Ends-refuse_if goal
            (not (is_text (field_of fields (codes "algorithm")) (codes "AES-256-GCM"))) corrupt _
            (λ named.
              Ends-bind (λ s. IsEncoded s (exactly 12)) goal _ _
                (Ends-validate_encoded (field_of fields (codes "iv")) (exactly 12))
                (λ iv e iv_ok.
                  Ends-bind (λ s. IsEncoded s (ciphertext_bounds maximum exact)) goal _ _
                    (Ends-validate_encoded (field_of fields (codes "ciphertext"))
                      (ciphertext_bounds maximum exact))
                    (λ ciphertext e ok.
                      let box : IsBox maximum exact (record { iv = iv; ciphertext = ciphertext }) =
                        (iv_ok, ok) in
                      box)))))

pub Ends-required_string :
    (value : Stored) (maximum : ℕ) → Ends (λ s. Unit {0}) (required_string value maximum)
unfolding required_string
Ends-required_string (str s) maximum = Settles-if _ _
Ends-required_string _ maximum = tt

Ends-optional_string :
    (value : Stored) (maximum : ℕ) → Ends (λ s. Unit {0}) (optional_string value maximum)
unfolding optional_string
Ends-optional_string undefined maximum = tt
Ends-optional_string (str s) maximum = Settles-if _ _
Ends-optional_string _ maximum = tt

not-false : (b : Bool) → not b ≡ false → b ≡ true
not-false b h = ground arith

pub Ends-validate_vault_storage_metadata :
    (value : Stored) → Ends IsStorage (validate_vault_storage_metadata value)
unfolding validate_vault_storage_metadata
Ends-validate_vault_storage_metadata value =
    Ends-or_corrupt IsStorage (record_fields value) _ (λ fields e.
      Ends-exact_keys IsStorage fields (codes "cryptoDatabasePrefix" ∷ [])
        (codes "legacySyncDatabase" ∷ []) _
        (Ends-bind (λ s. Unit {0}) IsStorage _ _
          (Ends-required_string (field_of fields (codes "cryptoDatabasePrefix")) 192)
          (λ prefix e u.
            Ends-refuse_if IsStorage (not (is_crypto_database_prefix prefix)) corrupt _ (λ crypto.
              Ends-bind (λ s. Unit {0}) IsStorage _ _
                (Ends-optional_string (field_of fields (codes "legacySyncDatabase")) 180)
                (λ legacy e u.
                  Ends-refuse_if IsStorage (not (is_legacy_sync_database legacy)) corrupt _ (λ old.
                    let storage : IsStorage (record {
                      crypto_database_prefix = prefix;
                      legacy_sync_database = legacy;
                    }) =
                      (not-false _ crypto, not-false _ old) in
                    storage))))))

pub Ends-validate_transports :
    (value : Stored)
    → Ends
        (λ ts. (all (among authenticator_transports) ts ≡ true) × (are_unique ts ≡ true))
        (validate_transports value)
unfolding validate_transports
Ends-validate_transports value = Ends-or_corrupt IsTransports (dense_array value) _ (λ values e.
    Ends-refuse_if IsTransports (ltb (length authenticator_transports) (length values)) corrupt _
      (λ few. Ends-or_corrupt IsTransports (texts_of values) _ (λ texts e.
        Ends-refuse_if IsTransports
          (not (all (among authenticator_transports) texts) || not (are_unique texts)) corrupt _
          (λ ok. let both : IsTransports texts = ground arith in both))))
