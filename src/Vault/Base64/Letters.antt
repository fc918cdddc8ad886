-- ===== src/Vault/Base64/Letters.antt =====
-- The letters of Base64 and Base64URL texts, for the codec of lib/security/session-vault-format.ts: without
-- the padding, and with `-` and `_`.
use sub_etha.Prelude.{
  is_empty, ℕ, suc, ◌+◌, ◌*◌, ◌/◌, ◌%◌, ◌<◌, ◌≡◌, refl, ap, Text, Bool, true, false, ◌&&◌, List, [],
  ◌∷◌, some, if◌then◌else◌, ◌==◌, length, All, arith,
}
use sub_etha.Vault.Base64.{
  base64_letter, base64_digit, btoa, atob, strip_padding, encode_base64url, is_base64url_code,
  padding, padded,
}

abbrev pub IsByte : ℕ → Type 0
IsByte b = b < 256

digit-letter : (n : ℕ) → n < 64 → base64_digit (base64_letter n) ≡ some n
unfolding base64_digit base64_letter
digit-letter n h = ground arith

letter_not_padding : (n : ℕ) → n < 64 → (base64_letter n == 61) ≡ false
unfolding base64_letter
letter_not_padding n h = ground arith

-- The bytes of four digits.
first_byte : (a b : ℕ) → a < 256 → b < 256 → a / 4 * 4 + (a % 4 * 16 + b / 16) / 16 ≡ a
first_byte a b ha hb = omega arith

second_byte :
    (a b c : ℕ)
    → b < 256
    → c < 256
    → (a % 4 * 16 + b / 16) % 16 * 16 + (b % 16 * 4 + c / 64) / 4 ≡ b
second_byte a b c hb hc = omega arith

third_byte : (b c : ℕ) → c < 256 → (b % 16 * 4 + c / 64) % 4 * 64 + c % 64 ≡ c
third_byte b c hc = omega arith

is_empty_off : (s : Text) (b : Bool) → b ≡ false → (is_empty s && b) ≡ false
is_empty_off s b h = ground arith

pub atob-btoa : (bytes : List ℕ) → All IsByte bytes → atob (btoa bytes) ≡ some bytes
unfolding atob btoa
atob-btoa [] h = refl
atob-btoa (a ∷ []) (ha, u) =
    rw (digit-letter (a / 4) (omega arith), digit-letter (a % 4 * 16) (omega arith))
      (ap (λ x. some (x ∷ [])) (omega arith))
atob-btoa (a ∷ b ∷ []) (ha, (hb, u)) =
    rw
      (
        digit-letter (a / 4) (omega arith),
        digit-letter (a % 4 * 16 + b / 16) (omega arith),
        letter_not_padding (b % 16 * 4) (omega arith),
        digit-letter (b % 16 * 4) (omega arith),
      )
      (rw (first_byte a b ha hb) (ap (λ y. some (a ∷ y ∷ [])) (omega arith)))
atob-btoa (a ∷ b ∷ c ∷ bytes) (ha, (hb, (hc, h))) =
    rw
      (
        is_empty_off (btoa bytes) _ (letter_not_padding (c % 64) (omega arith)),
        digit-letter (a / 4) (omega arith),
        digit-letter (a % 4 * 16 + b / 16) (omega arith),
        digit-letter (b % 16 * 4 + c / 64) (omega arith),
        digit-letter (c % 64) (omega arith),
        atob-btoa bytes h,
      )
      (rw (first_byte a b ha hb, second_byte a b c hb hc, third_byte b c hc) refl)

-- The text without padding, as it is stored.
unfoldable pub url_letter : ℕ → ℕ
url_letter n = if n == 62 then 45 else if n == 63 then 95 else base64_letter n

unfoldable pub url_text : List ℕ → Text
unfolding url_letter
url_text [] = []
url_text (a ∷ []) = url_letter (a / 4) ∷ url_letter (a % 4 * 16) ∷ []
url_text (a ∷ b ∷ []) =
    url_letter (a / 4) ∷ url_letter (a % 4 * 16 + b / 16) ∷ url_letter (b % 16 * 4) ∷ []
url_text (a ∷ b ∷ c ∷ bytes) =
    url_letter (a / 4)
    ∷ url_letter (a % 4 * 16 + b / 16)
    ∷ url_letter (b % 16 * 4 + c / 64)
    ∷ url_letter (c % 64)
    ∷ url_text bytes

-- What the two replacements of the encoder make of a letter, and those of the decoder.
abbrev to_url : ℕ → ℕ
to_url c = let d = if c == 43 then 45 else c in if d == 47 then 95 else d

abbrev from_url : ℕ → ℕ
from_url c = let d = if c == 45 then 43 else c in if d == 95 then 47 else d

to_url-letter : (n : ℕ) → n < 64 → to_url (base64_letter n) ≡ url_letter n
unfolding base64_letter url_letter
to_url-letter n h = ground arith

from_url-letter : (n : ℕ) → n < 64 → from_url (url_letter n) ≡ base64_letter n
unfolding base64_letter url_letter
from_url-letter n h = ground arith

url_letter_not_padding : (n : ℕ) → n < 64 → (url_letter n == 61) ≡ false
unfolding base64_letter url_letter
url_letter_not_padding n h = ground arith

pub is_base64url_code-letter : (n : ℕ) → n < 64 → is_base64url_code (url_letter n) ≡ true
unfolding base64_letter url_letter is_base64url_code
is_base64url_code-letter n h = ground arith

pub encode_lem : (bytes : List ℕ) → All IsByte bytes → encode_base64url bytes ≡ url_text bytes
unfolding encode_base64url strip_padding btoa url_text
encode_lem [] h = refl
encode_lem (a ∷ []) (ha, u) =
    rw
      (
        to_url-letter (a / 4) (omega arith),
        to_url-letter (a % 4 * 16) (omega arith),
        url_letter_not_padding (a / 4) (omega arith),
        url_letter_not_padding (a % 4 * 16) (omega arith),
      )
      refl
encode_lem (a ∷ b ∷ []) (ha, (hb, u)) =
    rw
      (
        to_url-letter (a / 4) (omega arith),
        to_url-letter (a % 4 * 16 + b / 16) (omega arith),
        to_url-letter (b % 16 * 4) (omega arith),
        url_letter_not_padding (a / 4) (omega arith),
        url_letter_not_padding (a % 4 * 16 + b / 16) (omega arith),
        url_letter_not_padding (b % 16 * 4) (omega arith),
      )
      refl
encode_lem (a ∷ b ∷ c ∷ bytes) (ha, (hb, (hc, h))) =
    rw
      (
        to_url-letter (a / 4) (omega arith),
        to_url-letter (a % 4 * 16 + b / 16) (omega arith),
        to_url-letter (b % 16 * 4 + c / 64) (omega arith),
        to_url-letter (c % 64) (omega arith),
        url_letter_not_padding (a / 4) (omega arith),
        url_letter_not_padding (a % 4 * 16 + b / 16) (omega arith),
        url_letter_not_padding (b % 16 * 4 + c / 64) (omega arith),
        url_letter_not_padding (c % 64) (omega arith),
        encode_lem bytes h,
      )
      refl

padding_lem : (n : ℕ) → padding (suc (suc (suc (suc n)))) ≡ padding n
padding_lem n = ground arith

pub padded-url_text : (bytes : List ℕ) → All IsByte bytes → padded (url_text bytes) ≡ btoa bytes
unfolding padded btoa url_text
padded-url_text [] h = refl
padded-url_text (a ∷ []) (ha, u) =
    rw (from_url-letter (a / 4) (omega arith), from_url-letter (a % 4 * 16) (omega arith)) refl
padded-url_text (a ∷ b ∷ []) (ha, (hb, u)) =
    rw
      (
        from_url-letter (a / 4) (omega arith),
        from_url-letter (a % 4 * 16 + b / 16) (omega arith),
        from_url-letter (b % 16 * 4) (omega arith),
      )
      refl
padded-url_text (a ∷ b ∷ c ∷ bytes) (ha, (hb, (hc, h))) =
    rw
      (
        from_url-letter (a / 4) (omega arith),
        from_url-letter (a % 4 * 16 + b / 16) (omega arith),
        from_url-letter (b % 16 * 4 + c / 64) (omega arith),
        from_url-letter (c % 64) (omega arith),
        padding_lem (length (url_text bytes)),
        padded-url_text bytes h,
      )
      refl
