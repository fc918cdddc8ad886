-- ===== src/Vault/Binding/Separate.antt =====
-- The additional data of lib/security/session-vault-format.ts as functions of the records and slots.
use sub_etha.Json.{Json, null, bool, num, str, arr, obj, Items, nil, cons}
use sub_etha.Media.Gate.{max_safe_integer}
use sub_etha.Prelude.{
  ℕ, ◌≡◌, ◌≤◌, refl, Text, Bool, true, false, ◌&&◌, not, leb, List, [], ◌∷◌, map, Option, none,
  some, arith,
}
use sub_etha.Vault.Records.{AesGcmBox, UnlockSlot, recovery_key, webauthn_prf, VaultStorageMetadata}
use sub_etha.Vault.Binding.{
  items_of, canonical_box, canonical_slot_metadata, bare_slot_metadata, or_null, canonical_storage,
  slot_additional_data, payload_additional_data,
}

-- The values that the bindings are made of: texts, null, arrays, and the whole numbers that are safe
-- integers, which `JSON.stringify` writes with all their digits.
unfoldable mutual
  pub is_canonical : Json → Bool
  is_canonical null = true
  is_canonical (bool b) = false
  is_canonical (num negative n) = not negative && leb n max_safe_integer
  is_canonical (str s) = true
  is_canonical (arr vs) = are_canonical vs
  is_canonical (obj fs) = false

  pub are_canonical : Items → Bool
  are_canonical nil = true
  are_canonical (cons v vs) = is_canonical v && are_canonical vs

-- The encoder gives different bytes for different values of these.
abbrev pub IsDistinct : {Encoded : Type 0} → (Json → Encoded) → Type 0
IsDistinct canonical_json =
    (v w : Json)
    → is_canonical v ≡ true
    → is_canonical w ≡ true
    → canonical_json v ≡ canonical_json w
    → v ≡ w

texts-are_canonical : (ts : List Text) → are_canonical (items_of (map str ts)) ≡ true
unfolding is_canonical
texts-are_canonical [] = refl
texts-are_canonical (t ∷ ts) = texts-are_canonical ts

canonical_slot_metadata-is_canonical :
    (s : UnlockSlot) → is_canonical (canonical_slot_metadata s) ≡ true
unfolding canonical_slot_metadata is_canonical
canonical_slot_metadata-is_canonical (recovery_key s) = refl
canonical_slot_metadata-is_canonical (webauthn_prf s) =
    ground (arith, texts-are_canonical s.transports)

bare_slot_metadata-is_canonical : (s : UnlockSlot) → is_canonical (bare_slot_metadata s) ≡ true
unfolding is_canonical
bare_slot_metadata-is_canonical (recovery_key s) = refl
bare_slot_metadata-is_canonical (webauthn_prf s) = ground (arith, texts-are_canonical s.transports)

slots-are_canonical :
    (slots : List UnlockSlot) → are_canonical (items_of (map canonical_slot_metadata slots)) ≡ true
unfolding is_canonical
slots-are_canonical [] = refl
slots-are_canonical (s ∷ slots) =
    ground (arith, canonical_slot_metadata-is_canonical s, slots-are_canonical slots)

canonical_storage-is_canonical :
    (m : VaultStorageMetadata) → is_canonical (canonical_storage m) ≡ true
unfolding is_canonical
canonical_storage-is_canonical m = ground arith

canonical_box-injective : (b c : AesGcmBox) → canonical_box b ≡ canonical_box c → b ≡ c
canonical_box-injective b c h = cc

items_of-injective : (xs ys : List Json) → items_of xs ≡ items_of ys → xs ≡ ys
items_of-injective [] [] h = refl
items_of-injective [] (y ∷ ys) h = absurd cc
items_of-injective (x ∷ xs) [] h = absurd cc
items_of-injective (x ∷ xs) (y ∷ ys) h =
    let rest : xs ≡ ys = items_of-injective xs ys cc in let first : x ≡ y = cc in cc

texts-injective : (s t : List Text) → map str s ≡ map str t → s ≡ t
texts-injective [] [] h = refl
texts-injective [] (y ∷ ys) h = absurd cc
texts-injective (x ∷ xs) [] h = absurd cc
texts-injective (x ∷ xs) (y ∷ ys) h = let rest : xs ≡ ys = texts-injective xs ys cc in cc

canonical_slot_metadata-injective :
    (s t : UnlockSlot) → canonical_slot_metadata s ≡ canonical_slot_metadata t → s ≡ t
unfolding canonical_slot_metadata
canonical_slot_metadata-injective (recovery_key s) (recovery_key t) h = cc
canonical_slot_metadata-injective (recovery_key s) (webauthn_prf t) h = absurd cc
canonical_slot_metadata-injective (webauthn_prf s) (recovery_key t) h = absurd cc
canonical_slot_metadata-injective (webauthn_prf s) (webauthn_prf t) h =
    let transports : s.transports ≡ t.transports =
      texts-injective _ _ (items_of-injective (map str s.transports) (map str t.transports) cc) in
    cc

slots-injective :
    (s t : List UnlockSlot) → map canonical_slot_metadata s ≡ map canonical_slot_metadata t → s ≡ t
slots-injective [] [] h = refl
slots-injective [] (y ∷ ys) h = absurd cc
slots-injective (x ∷ xs) [] h = absurd cc
slots-injective (x ∷ xs) (y ∷ ys) h =
    let first : x ≡ y = canonical_slot_metadata-injective x y cc in
    let rest : xs ≡ ys = slots-injective xs ys cc in cc

or_null-injective : (a b : Option Text) → or_null a ≡ or_null b → a ≡ b
or_null-injective none none h = refl
or_null-injective none (some s) h = absurd cc
or_null-injective (some s) none h = absurd cc
or_null-injective (some s) (some t) h = cc

canonical_storage-injective :
    (m n : VaultStorageMetadata) → canonical_storage m ≡ canonical_storage n → m ≡ n
canonical_storage-injective m n h =
    let legacy : m.legacy_sync_database ≡ n.legacy_sync_database = or_null-injective _ _ cc in cc

-- Where the encoder gives different bytes for different values that are made of texts, null, arrays and
-- safe whole numbers: the additional data of two payloads, whose revisions are safe integers, are the same
-- only for the same record, revision, names and unlock slots, each with its wrapped key.
pub payload_additional_data-injective :
    {Encoded : Type 0} (canonical_json : Json → Encoded)
    → IsDistinct canonical_json
    → (record_id record_id' : Text) (revision revision' : ℕ)
      (storage storage' : VaultStorageMetadata) (slots slots' : List UnlockSlot)
    → revision ≤ max_safe_integer
    → revision' ≤ max_safe_integer
    → payload_additional_data canonical_json record_id revision storage slots
      ≡ payload_additional_data canonical_json record_id' revision' storage' slots'
    → (record_id ≡ record_id') × (revision ≡ revision') × (storage ≡ storage') × (slots ≡ slots')
unfolding payload_additional_data is_canonical
payload_additional_data-injective json distinct r r' n n' m m' s s' safe safe' h =
    let same =
      distinct _ _ (ground (arith, canonical_storage-is_canonical m, slots-are_canonical s))
        (ground (arith, canonical_storage-is_canonical m', slots-are_canonical s')) h in
    (
      cc,
      cc,
      canonical_storage-injective m m' cc,
      slots-injective s s'
          (items_of-injective (map canonical_slot_metadata s) (map canonical_slot_metadata s') cc),
    )

abbrev no_box : AesGcmBox
no_box = record { iv = []; ciphertext = [] }

-- A slot before its key is wrapped.
abbrev pub unwrapped : UnlockSlot → UnlockSlot
unwrapped (recovery_key s) = recovery_key (record s { wrapped_dek = no_box })
unwrapped (webauthn_prf s) = webauthn_prf (record s { wrapped_dek = no_box })

bare_slot_metadata-injective :
    (s t : UnlockSlot) → bare_slot_metadata s ≡ bare_slot_metadata t → unwrapped s ≡ unwrapped t
bare_slot_metadata-injective (recovery_key s) (recovery_key t) h = cc
bare_slot_metadata-injective (recovery_key s) (webauthn_prf t) h = absurd cc
bare_slot_metadata-injective (webauthn_prf s) (recovery_key t) h = absurd cc
bare_slot_metadata-injective (webauthn_prf s) (webauthn_prf t) h =
    let transports : s.transports ≡ t.transports =
      texts-injective _ _ (items_of-injective (map str s.transports) (map str t.transports) cc) in
    cc

-- With the same condition on the encoder: the additional data of two slots are the same only for the same
-- record and the same kind of slot with the same fields, the wrapped key apart.
pub slot_additional_data-injective :
    {Encoded : Type 0} (canonical_json : Json → Encoded)
    → IsDistinct canonical_json
    → (record_id record_id' : Text) (slot slot' : UnlockSlot)
    → slot_additional_data canonical_json record_id slot
      ≡ slot_additional_data canonical_json record_id' slot'
    → (record_id ≡ record_id') × (unwrapped slot ≡ unwrapped slot')
unfolding slot_additional_data is_canonical
slot_additional_data-injective json distinct r r' s t h =
    let same =
      distinct _ _ (ground (arith, bare_slot_metadata-is_canonical s))
        (ground (arith, bare_slot_metadata-is_canonical t)) h in
    (cc, bare_slot_metadata-injective s t cc)
