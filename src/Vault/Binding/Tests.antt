-- ===== src/Vault/Binding/Tests.antt =====
-- A vault's bindings at concrete records, with an encoder that forgets a number's sign, as `JSON.stringify`
-- does for 0, and what is not canonical.
use sub_etha.Json.{Json, null, bool, num, str, arr, obj, Items, nil, cons}
use sub_etha.Prelude.{ℕ, ◌≡◌, refl, codes, Text, true, List, [], ◌∷◌, none, arith}
use sub_etha.Vault.Binding.Separate.{
  IsDistinct, is_canonical, are_canonical, payload_additional_data-injective,
  slot_additional_data-injective, unwrapped,
}
use sub_etha.Vault.Binding.{slot_additional_data}
use sub_etha.Vault.Records.{UnlockSlot, recovery_key, VaultStorageMetadata}

unfoldable write_text : Text → List ℕ → List ℕ
write_text [] rest = 0 ∷ rest
write_text (c ∷ cs) rest = 1 ∷ c ∷ write_text cs rest

unfoldable mutual
  unfolding write_text

  write_value : Json → List ℕ → List ℕ
  write_value null rest = 0 ∷ rest
  write_value (bool b) rest = 1 ∷ rest
  write_value (num negative n) rest = 2 ∷ n ∷ rest
  write_value (str s) rest = 3 ∷ write_text s rest
  write_value (arr vs) rest = 4 ∷ write_items vs rest
  write_value (obj fs) rest = 5 ∷ rest

  write_items : Items → List ℕ → List ℕ
  write_items nil rest = 0 ∷ rest
  write_items (cons v vs) rest = 1 ∷ write_value v (write_items vs rest)

write_text-injective :
    (s t : Text) (k l : List ℕ) → write_text s k ≡ write_text t l → (s ≡ t) × (k ≡ l)
unfolding write_text
write_text-injective [] [] k l h = (refl, cc)
write_text-injective [] (c ∷ t) k l h = absurd cc
write_text-injective (c ∷ s) [] k l h = absurd cc
write_text-injective (c ∷ s) (d ∷ t) k l h =
    let (e, rest) = write_text-injective s t k l cc in (cc, rest)

mutual
  unfolding write_value is_canonical

  write_value-injective :
      (v w : Json) (k l : List ℕ)
      → is_canonical v ≡ true
      → is_canonical w ≡ true
      → write_value v k ≡ write_value w l
      → (v ≡ w) × (k ≡ l)
  write_value-injective null null k l p q h = (refl, cc)
  write_value-injective null _ k l p q h = absurd cc
  write_value-injective (bool b) w k l p q h = absurd cc
  write_value-injective (num negative n) (num negative' n') k l p q h = (ground arith, cc)
  write_value-injective (num negative n) _ k l p q h = absurd cc
  write_value-injective (str s) (str t) k l p q h =
      let (e, rest) = write_text-injective s t k l cc in (cc, rest)
  write_value-injective (str s) _ k l p q h = absurd cc
  write_value-injective (arr vs) (arr ws) k l p q h =
      let (e, rest) = write_items-injective vs ws k l p q cc in (cc, rest)
  write_value-injective (arr vs) _ k l p q h = absurd cc
  write_value-injective (obj fs) w k l p q h = absurd cc

  write_items-injective :
      (vs ws : Items) (k l : List ℕ)
      → are_canonical vs ≡ true
      → are_canonical ws ≡ true
      → write_items vs k ≡ write_items ws l
      → (vs ≡ ws) × (k ≡ l)
  write_items-injective nil nil k l p q h = (refl, cc)
  write_items-injective nil (cons w ws) k l p q h = absurd cc
  write_items-injective (cons v vs) nil k l p q h = absurd cc
  write_items-injective (cons v vs) (cons w ws) k l p q h =
      let (e, h') =
        write_value-injective v w (write_items vs k) (write_items ws l) (ground arith)
          (ground arith) cc in
      let (es, rest) = write_items-injective vs ws k l (ground arith) (ground arith) h' in
      (cc, rest)

abbrev written : Json → List ℕ
written v = write_value v []

written-IsDistinct : IsDistinct written
written-IsDistinct v w p q h = (write_value-injective v w [] [] p q h).0

abbrev a_slot : UnlockSlot
a_slot = recovery_key (record {
  slot_id = codes "id";
  salt = codes "salt";
  wrapped_dek = record { iv = codes "iv"; ciphertext = codes "key" };
})

-- The same slot with its key wrapped anew.
abbrev rewrapped : UnlockSlot
rewrapped = recovery_key (record {
  slot_id = codes "id";
  salt = codes "salt";
  wrapped_dek = record { iv = codes "vi"; ciphertext = codes "yek" };
})

abbrev first_revision : ℕ
first_revision = 1

abbrev names : VaultStorageMetadata
names = record { crypto_database_prefix = codes "db"; legacy_sync_database = none }

payload_additional_data-injective_example :
    (codes "r" ≡ codes "r")
    × (first_revision ≡ first_revision)
    × (names ≡ names)
    × ((a_slot ∷ []) ≡ (a_slot ∷ []))
payload_additional_data-injective_example =
    payload_additional_data-injective written written-IsDistinct (codes "r") (codes "r")
      first_revision first_revision names names (a_slot ∷ []) (a_slot ∷ []) (omega arith)
      (omega arith) refl

rewrapped_same :
    slot_additional_data written (codes "r") a_slot
    ≡ slot_additional_data written (codes "r") rewrapped
unfolding slot_additional_data
rewrapped_same = refl

slot_additional_data-injective_example :
    (codes "r" ≡ codes "r") × (unwrapped a_slot ≡ unwrapped rewrapped)
slot_additional_data-injective_example =
    slot_additional_data-injective written written-IsDistinct (codes "r") (codes "r") a_slot
      rewrapped rewrapped_same
