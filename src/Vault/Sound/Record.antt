-- ===== src/Vault/Sound/Record.antt =====
-- The unlock slots and the locked record that the validators of lib/security/session-vault-format.ts
-- let through.
use sub_etha.Prelude.{
  ap, suc, starts_with, ends_with, ℕ, ◌+◌, ◌≤◌, ◌≡◌, refl, true, false, not, ◌||◌, List, [], ◌∷◌,
  map, none, some, ltb, codes, text_eq, length, all, All, filter_by, if_intro, ok, Ends,
  Ends-refuse_if, Ends-ok, arith,
}
use sub_etha.Matrix.UrlPolicy.{WebPlatform}
use sub_etha.Media.Gate.{max_safe_integer}
use sub_etha.Vault.Records.{
  is_text, is_number, recovery_iterations, vault_schema_version, UnlockSlot, recovery_key,
  webauthn_prf, LockedMatrixSessionRecord, exactly, validate_identifier, positive_safe_integer,
  max_unlock_slots, max_payload_bytes,
}
use sub_etha.Vault.Slots.{
  recovery_keys, webauthn_keys, is_rp_id_code, are_unique, validate_recovery_slot,
  credential_bounds, validate_webauthn_slot, validate_unlock_slot, validate_unlock_slots,
  slot_id_of, is_recovery_key, is_slot_set, validate_rp_id,
}
use sub_etha.Vault.Stored.{
  whole, negative, encoded, Stored, undefined, null, bool, num, str, arr, obj, buffer, Fields,
  field_of, corrupt, record_fields, dense_array,
}
use sub_etha.Vault.Validate.{finish_record, record_keys, validate_locked_record}
use sub_etha.Vault.Sound.{
  Ends-or_corrupt, Ends-exact_keys, Ends-bind, Settles, Ends-validate_encoded,
  Ends-validate_aes_box, Ends-required_string, Ends-validate_vault_storage_metadata,
  Ends-validate_transports, IsEncoded, IsTransports, IsBox, IsStorage, IsSlot, IsRecord,
}

Ends-validate_recovery_slot : (fields : Fields) → Ends IsSlot (validate_recovery_slot fields)
unfolding validate_recovery_slot validate_identifier
Ends-validate_recovery_slot fields = Ends-exact_keys IsSlot fields recovery_keys [] _ (
    Ends-refuse_if IsSlot
      (not (is_number (field_of fields (codes "iterations")) recovery_iterations)) corrupt _
      (λ work.
        Ends-bind (λ s. IsEncoded s (exactly 32)) IsSlot _ _
          (Ends-validate_encoded (field_of fields (codes "salt")) (exactly 32))
          (λ salt e salted.
            Ends-bind (λ s. IsEncoded s (exactly 16)) IsSlot _ _
              (Ends-validate_encoded (field_of fields (codes "slotId")) (exactly 16))
              (λ id e named.
                Ends-bind (IsBox 48 (some 48)) IsSlot _ _
                  (Ends-validate_aes_box (field_of fields (codes "wrappedDek")) 48 (some 48))
                  (λ box e boxed.
                    let slot : IsSlot
                        (recovery_key (record { slot_id = id; salt = salt; wrapped_dek = box })) =
                      (named, salted, boxed) in
                    slot)))))

positive_safe_integer_sound :
    (value : Stored) (n : ℕ)
    → positive_safe_integer value ≡ some n
    → (1 ≤ n) × (n ≤ max_safe_integer)
unfolding positive_safe_integer
positive_safe_integer_sound (num (whole m)) n h = ground arith
positive_safe_integer_sound (num (negative m)) n h = absurd cc
positive_safe_integer_sound (num (encoded m)) n h = absurd cc
positive_safe_integer_sound undefined n h = absurd cc
positive_safe_integer_sound null n h = absurd cc
positive_safe_integer_sound (bool b) n h = absurd cc
positive_safe_integer_sound (str s) n h = absurd cc
positive_safe_integer_sound (arr s) n h = absurd cc
positive_safe_integer_sound (obj s) n h = absurd cc
positive_safe_integer_sound (buffer s) n h = absurd cc

slot_count :
    (slots : List UnlockSlot) (values : List Stored)
    → length slots ≡ length values
    → (ltb (length values) 1 || ltb max_unlock_slots (length values)) ≡ false
    → (1 ≤ length slots) × (length slots ≤ max_unlock_slots)
slot_count slots values n few = ground arith

slot_set :
    (slots : List UnlockSlot)
    → not (is_slot_set slots) ≡ false
    → (are_unique (map slot_id_of slots) ≡ true) × (length (filter_by is_recovery_key slots) ≡ 1)
slot_set slots set = ground arith

finish_record-IsRecord :
    (fields : Fields) (revision : ℕ) (slots : List UnlockSlot)
    → (1 ≤ revision) × (revision ≤ max_safe_integer)
    → (1 ≤ length slots) × (length slots ≤ max_unlock_slots)
    → All IsSlot slots
    → (are_unique (map slot_id_of slots) ≡ true) × (length (filter_by is_recovery_key slots) ≡ 1)
    → Ends IsRecord (finish_record fields revision slots)
unfolding finish_record validate_identifier
finish_record-IsRecord fields revision slots r count valid (unique, one) =
    Ends-bind (λ s. IsEncoded s (exactly 16)) IsRecord _ _
      (Ends-validate_encoded (field_of fields (codes "recordId")) (exactly 16))
      (λ id e named.
        Ends-bind IsStorage IsRecord _ _
          (Ends-validate_vault_storage_metadata (field_of fields (codes "storage")))
          (λ storage e stored.
            Ends-bind (IsBox (max_payload_bytes + 16) none) IsRecord _ _
              (Ends-validate_aes_box (field_of fields (codes "payload")) (max_payload_bytes + 16)
                none)
              (λ payload e boxed.
                let made : LockedMatrixSessionRecord = record {
                  record_id = id;
                  revision = revision;
                  storage = storage;
                  payload = payload;
                  unlock_slots = slots;
                } in
                let sound : IsRecord made = (named, r, stored, boxed, count, valid, unique, one) in
                sound)))

module _ (platform : WebPlatform) where
  Settles-rp_id : (value : Stored) → Settles (validate_rp_id platform value)
  unfolding validate_rp_id
  Settles-rp_id value =
      Ends-bind (λ s. Unit {0}) (λ s. Unit {0}) _ _ (Ends-required_string value 253)
        (λ id e u.
          Ends-refuse_if (λ s. Unit {0})
            (not (text_eq id (platform.to_lower_case id))
              || starts_with id (b'.' ∷ [])
              || ends_with id (b'.' ∷ [])
              || not (all is_rp_id_code id))
            corrupt _ (λ e. tt))

  Ends-validate_webauthn_slot :
      (fields : Fields) → Ends IsSlot (validate_webauthn_slot platform fields)
  unfolding validate_webauthn_slot validate_identifier
  Ends-validate_webauthn_slot fields = Ends-exact_keys IsSlot fields webauthn_keys [] _ (
      Ends-bind (λ s. IsEncoded s credential_bounds) IsSlot _ _
        (Ends-validate_encoded (field_of fields (codes "credentialId")) credential_bounds)
        (λ credential e c.
          Ends-bind (λ s. IsEncoded s (exactly 32)) IsSlot _ _
            (Ends-validate_encoded (field_of fields (codes "prfInput")) (exactly 32))
            (λ input e p.
              Ends-bind (λ s. IsEncoded s (exactly 32)) IsSlot _ _
                (Ends-validate_encoded (field_of fields (codes "hkdfSalt")) (exactly 32))
                (λ salt e h.
                  Ends-bind (λ s. IsEncoded s (exactly 16)) IsSlot _ _
                    (Ends-validate_encoded (field_of fields (codes "slotId")) (exactly 16))
                    (λ id e n.
                      Ends-bind IsTransports IsSlot _ _
                        (Ends-validate_transports (field_of fields (codes "transports")))
                        (λ transports e t.
                          Ends-bind (λ s. Unit {0}) IsSlot _ _
                            (Settles-rp_id (field_of fields (codes "rpId")))
                            (λ rp e u.
                              Ends-bind (IsBox 48 (some 48)) IsSlot _ _
                                (Ends-validate_aes_box (field_of fields (codes "wrappedDek")) 48
                                  (some 48))
                                (λ box e b.
                                  let slot : IsSlot (
                                      webauthn_prf (record {
                                        slot_id = id;
                                        credential_id = credential;
                                        transports = transports;
                                        rp_id = rp;
                                        prf_input = input;
                                        hkdf_salt = salt;
                                        wrapped_dek = box;
                                      })) =
                                    (n, c, t, p, h, b) in
                                  slot))))))))

  Ends-validate_unlock_slot : (value : Stored) → Ends IsSlot (validate_unlock_slot platform value)
  unfolding validate_unlock_slot
  Ends-validate_unlock_slot value = Ends-or_corrupt IsSlot (record_fields value) _ (λ fields e.
      let kind = field_of fields (codes "kind") in
      if_intro (Ends IsSlot) (is_text kind (codes "recovery-key-pbkdf2")) _ _
        (λ h. Ends-validate_recovery_slot fields)
        (λ h.
          if_intro (Ends IsSlot) (is_text kind (codes "webauthn-prf")) _ _
            (λ h. Ends-validate_webauthn_slot fields) (λ h. tt)))

  -- As many valid slots as values.
  abbrev AreSlots : ℕ → List UnlockSlot → Type 0
  AreSlots n slots = All IsSlot slots × (length slots ≡ n)

  unlock_slots-AreSlots :
      (values : List Stored)
      → Ends (AreSlots (length values)) (validate_unlock_slots platform values)
  unfolding validate_unlock_slots
  unlock_slots-AreSlots [] = (tt, refl)
  unlock_slots-AreSlots (v ∷ vs) =
      Ends-bind IsSlot (AreSlots (suc (length vs))) _ _ (Ends-validate_unlock_slot v)
        (λ slot e valid.
          Ends-bind (AreSlots (length vs)) (AreSlots (suc (length vs))) _ _
            (unlock_slots-AreSlots vs)
            (λ slots e (rest, n).
              let goal : AreSlots (suc (length vs)) (slot ∷ slots) = ((valid, rest), ap suc n) in
              goal))

  Ends-validate_locked_record :
      (value : Stored) → Ends IsRecord (validate_locked_record platform value)
  unfolding validate_locked_record
  Ends-validate_locked_record value = Ends-or_corrupt IsRecord (record_fields value) _ (λ fields e.
      Ends-exact_keys IsRecord fields record_keys [] _ (
        Ends-refuse_if IsRecord
          (not (is_text (field_of fields (codes "kind")) (codes "locked-matrix-session"))
            || not (is_number (field_of fields (codes "schemaVersion")) vault_schema_version))
          corrupt _
          (λ e.
            Ends-or_corrupt IsRecord (positive_safe_integer (field_of fields (codes "revision"))) _
              (λ revision r.
                Ends-or_corrupt IsRecord (dense_array (field_of fields (codes "unlockSlots"))) _
                  (λ values e.
                    Ends-refuse_if IsRecord
                      (ltb (length values) 1 || ltb max_unlock_slots (length values)) corrupt _
                      (λ few.
                        Ends-bind (AreSlots (length values)) IsRecord _ _
                          (unlock_slots-AreSlots values)
                          (λ slots e (valid, n).
                            Ends-refuse_if IsRecord (not (is_slot_set slots)) corrupt _ (λ set.
                              finish_record-IsRecord fields revision slots
                                (positive_safe_integer_sound (field_of fields (codes "revision"))
                                  revision r)
                                (slot_count slots values n few) valid (slot_set slots set)))))))))

-- A record that `validateLockedRecord` returns has identifiers, salts, boxes and a payload that are
-- canonical Base64URL of their lengths, a revision from 1 to the greatest safe integer, database names of
-- the application, and from one to eight valid unlock slots with different identifiers of which exactly
-- one is a recovery key.
pub validate_locked_record-IsRecord :
    (platform : WebPlatform) (value : Stored) (r : LockedMatrixSessionRecord)
    → validate_locked_record platform value ≡ ok r
    → IsRecord r
validate_locked_record-IsRecord platform value r h =
    Ends-ok IsRecord (Ends-validate_locked_record platform value) h
