-- ===== src/Vault/Legacy.antt =====
-- The names that `legacyStorageMetadata` of lib/security/session-vault-format.ts derives from a session,
-- read back by the validator of the vault's names.
use sub_etha.Prelude.{
  Option, none, ℕ, zero, suc, ◌≤◌, ◌≡◌, refl, Text, codes, true, List, [], ◌∷◌, ◌++◌, map, take,
  some, length, all, if◌then◌else◌, ok, arith,
}
use sub_etha.Push.Gateway.{is_key_char}
use sub_etha.Vault.Records.{VaultStorageMetadata}
use sub_etha.Vault.Session.{stable_store_name, legacy_storage_metadata}
use sub_etha.Vault.Slots.{validate_vault_storage_metadata}
use sub_etha.Vault.Stored.{Stored, Fields, str, obj, field, end}

-- What the database holds for a record of names.
abbrev legacy_field : Option Text → Fields
legacy_field none = end
legacy_field (some s) = field (codes "legacySyncDatabase") (str s) end

abbrev pub stored_metadata : VaultStorageMetadata → Stored
stored_metadata m = obj (
    field (codes "cryptoDatabasePrefix") (str m.crypto_database_prefix)
      (legacy_field m.legacy_sync_database))

clean_is_key_char : (c : ℕ) → is_key_char (if is_key_char c then c else b'_') ≡ true
unfolding is_key_char
clean_is_key_char c = ground arith

all-clean :
    (n : ℕ) (s : Text)
    → all is_key_char (take n (map (λ c. if is_key_char c then c else b'_') s)) ≡ true
all-clean zero s = refl
all-clean (suc n) [] = refl
all-clean (suc n) (c ∷ s) = rw (clean_is_key_char c) (all-clean n s)

length-take : {A : Type 0} (n : ℕ) (s : List A) → length (take n s) ≤ n
length-take zero s = omega arith
length-take (suc n) [] = omega arith
length-take (suc n) (c ∷ s) = omega (arith, length-take n s)

joined_not_empty :
    (f : ℕ → ℕ) (user_id device_id : Text)
    → 1 ≤ length (take 120 (map f (user_id ++ (b'-' ∷ device_id))))
joined_not_empty f [] device_id = omega arith
joined_not_empty f (c ∷ user_id) device_id = omega arith

module _ (user_id device_id : Text) where
  IsName-stable_store_name :
      (all is_key_char (stable_store_name user_id device_id) ≡ true)
      × (1 ≤ length (stable_store_name user_id device_id))
      × (length (stable_store_name user_id device_id) ≤ 120)
  unfolding stable_store_name
  IsName-stable_store_name = (
    all-clean 120 (user_id ++ (b'-' ∷ device_id)),
    joined_not_empty _ user_id device_id,
    length-take 120 (map (λ c. if is_key_char c then c else b'_') (user_id ++ (b'-' ∷ device_id))),
  )

-- The two names behind their prefixes.
abbrev names_of : Text → VaultStorageMetadata
names_of name = record {
  crypto_database_prefix = codes "sub-etha-crypto-" ++ name;
  legacy_sync_database = some (codes "matrix-js-sdk:sub-etha-sync-" ++ name);
}

named_fits :
    (name : Text)
    → all is_key_char name ≡ true
    → 1 ≤ length name
    → length name ≤ 120
    → validate_vault_storage_metadata (stored_metadata (names_of name)) ≡ ok (names_of name)
unfolding validate_vault_storage_metadata
named_fits name letters positive small = ground arith

-- The names that `legacyStorageMetadata` derives from any user and device are names that the vault's
-- validator reads back unchanged.
pub legacy_storage_metadata_stored :
    (user_id device_id : Text)
    → validate_vault_storage_metadata (stored_metadata (legacy_storage_metadata user_id device_id))
      ≡ ok (legacy_storage_metadata user_id device_id)
unfolding legacy_storage_metadata
legacy_storage_metadata_stored user_id device_id =
    let (letters, positive, small) = IsName-stable_store_name user_id device_id in
    named_fits (stable_store_name user_id device_id) letters positive small
