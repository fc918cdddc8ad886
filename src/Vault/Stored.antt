-- ===== src/Vault/Stored.antt =====
-- What lib/security/session-vault-format.ts reads from the database, a structured clone, and its
-- elementary tests. Of an object its own fields are known; of an array its elements and its gaps. An
-- `ArrayBuffer` is an object with no fields of its own. The errors keep their code, not their message.
use sub_etha.Prelude.{
  ℕ, Text, text_eq, Bool, not, ◌||◌, List, [], ◌∷◌, Option, none, some, if◌then◌else◌, ltb, ◌==◌,
  length, any, Outcome, ok, refused, refuse_if,
}

pub data SessionVaultErrorCode : Type 0 where
  authentication conflict corrupt disposed invalid_input unavailable : SessionVaultErrorCode

-- A whole number from 0 on, the negative of one, or any other number by its encoding.
pub data StoredNumber : Type 0 where
  whole : ℕ → StoredNumber
  negative : ℕ → StoredNumber
  encoded : (bits : ℕ) → StoredNumber

mutual
  pub data Stored : Type 0 where
    undefined null : Stored
    bool : Bool → Stored
    num : StoredNumber → Stored
    str : Text → Stored
    arr : Items → Stored
    obj : Fields → Stored
    buffer : List ℕ → Stored

  pub data Items : Type 0 where
    nil : Items
    cons : Stored → Items → Items
    gap : Items → Items

  pub data Fields : Type 0 where
    end : Fields
    field : Text → Stored → Fields → Fields

unfoldable pub keys : Fields → List Text
keys end = []
keys (field k v fs) = k ∷ keys fs

-- `value[key]`
unfoldable pub field_of : Fields → Text → Stored
unfolding text_eq
field_of end key = undefined
field_of (field k v fs) key = if text_eq k key then v else field_of fs key

-- `isRecord(value)`, with the fields.
abbrev pub record_fields : Stored → Option Fields
record_fields (obj fs) = some fs
record_fields (buffer b) = some end
record_fields _ = none

-- `Array.isArray(value) && isDenseArray(value)`, with the elements.
unfoldable pub dense_items : Items → Option (List Stored)
dense_items nil = some []
dense_items (gap is) = none
dense_items (cons v is) = elim (dense_items is) [ none ↦ none | some vs ↦ some (v ∷ vs) ]

unfoldable pub dense_array : Stored → Option (List Stored)
unfolding dense_items
dense_array (arr is) = dense_items is
dense_array _ = none

abbrev pub among : List Text → Text → Bool
among texts t = any (λ u. text_eq u t) texts

unfoldable pub exact_keys :
    Fields → (required optional : List Text) → Outcome SessionVaultErrorCode (Unit {0})
unfolding keys text_eq
exact_keys fs required optional =
    refuse_if
      (any (λ k. not (among (keys fs) k)) required
        || any (λ k. not (among required k || among optional k)) (keys fs))
      corrupt

abbrev pub bounded_text : Text → ℕ → Outcome SessionVaultErrorCode Text
bounded_text s maximum = if length s == 0 || ltb maximum (length s) then refused corrupt else ok s

unfoldable pub required_string : Stored → (maximum_length : ℕ) → Outcome SessionVaultErrorCode Text
required_string (str s) maximum = bounded_text s maximum
required_string _ maximum = refused corrupt

unfoldable pub optional_string :
    Stored → (maximum_length : ℕ) → Outcome SessionVaultErrorCode (Option Text)
optional_string undefined maximum = ok none
optional_string (str s) maximum =
    if length s == 0 || ltb maximum (length s) then refused corrupt else ok (some s)
optional_string _ maximum = refused corrupt
