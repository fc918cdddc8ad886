-- ===== src/Vault/Base64.antt =====
-- `encodeBase64Url` and `decodeCanonicalBase64Url` of lib/security/session-vault-format.ts, with `btoa`
-- and `atob` written out. The text that `atob` gets has no white space, which it would pass over.
pub mod Letters
pub mod RoundTrip
use sub_etha.Prelude.{
  is_empty, ℕ, ◌+◌, ◌-◌, ◌*◌, ◌/◌, ◌%◌, Text, text_eq, Bool, true, false, not, ◌&&◌, ◌||◌, List, [],
  ◌∷◌, ◌++◌, map, Option, none, some, if◌then◌else◌, ltb, leb, ◌==◌, length, all, Outcome, ok,
  refused,
}
use sub_etha.Vault.Stored.{Stored, str, SessionVaultErrorCode, corrupt}

-- The letter of a digit in base 64.
unfoldable pub base64_letter : ℕ → ℕ
base64_letter n =
    if ltb n 26
    then 65 + n
    else if ltb n 52
    then 71 + n
    else if ltb n 62
    then n - 4
    else if n == 62
    then 43
    else 47

unfoldable pub base64_digit : ℕ → Option ℕ
base64_digit c =
    if leb 65 c && leb c 90
    then some (c - 65)
    else if leb 97 c && leb c 122
    then some (c - 71)
    else if leb 48 c && leb c 57
    then some (c + 4)
    else if c == 43
    then some 62
    else if c == 47
    then some 63
    else none

unfoldable pub btoa : List ℕ → Text
unfolding base64_letter
btoa [] = []
btoa (a ∷ []) = base64_letter (a / 4) ∷ base64_letter (a % 4 * 16) ∷ 61 ∷ 61 ∷ []
btoa (a ∷ b ∷ []) =
    base64_letter (a / 4)
    ∷ base64_letter (a % 4 * 16 + b / 16)
    ∷ base64_letter (b % 16 * 4)
    ∷ 61
    ∷ []
btoa (a ∷ b ∷ c ∷ bytes) =
    base64_letter (a / 4)
    ∷ base64_letter (a % 4 * 16 + b / 16)
    ∷ base64_letter (b % 16 * 4 + c / 64)
    ∷ base64_letter (c % 64)
    ∷ btoa bytes

-- The bytes of two, three and four digits; left-over bits are dropped.
abbrev pub one_byte : Option ℕ → Option ℕ → Option (List ℕ)
one_byte (some p) (some q) = some ((p * 4 + q / 16) ∷ [])
one_byte _ _ = none

abbrev pub two_bytes : Option ℕ → Option ℕ → Option ℕ → Option (List ℕ)
two_bytes (some p) (some q) (some r) = some ((p * 4 + q / 16) ∷ (q % 16 * 16 + r / 4) ∷ [])
two_bytes _ _ _ = none

abbrev pub three_bytes :
    Option ℕ → Option ℕ → Option ℕ → Option ℕ → Option (List ℕ) → Option (List ℕ)
three_bytes (some p) (some q) (some r) (some s) (some bytes) =
    some ((p * 4 + q / 16) ∷ (q % 16 * 16 + r / 4) ∷ (r % 4 * 64 + s) ∷ bytes)
three_bytes _ _ _ _ _ = none

unfoldable pub atob : Text → Option (List ℕ)
unfolding base64_digit
atob [] = some []
atob (p ∷ []) = none
atob (p ∷ q ∷ []) = one_byte (base64_digit p) (base64_digit q)
atob (p ∷ q ∷ r ∷ []) = two_bytes (base64_digit p) (base64_digit q) (base64_digit r)
atob (p ∷ q ∷ r ∷ s ∷ rest) =
    let bytes = atob rest in
    if is_empty rest && s == 61
    then (if r == 61
        then one_byte (base64_digit p) (base64_digit q)
        else two_bytes (base64_digit p) (base64_digit q) (base64_digit r))
    else three_bytes (base64_digit p) (base64_digit q) (base64_digit r) (base64_digit s) bytes

-- `s.replace(/a/g, b)` of single characters.
abbrev pub replace_code : ℕ → ℕ → Text → Text
replace_code a b s = map (λ c. if c == a then b else c) s

-- `s.replace(/=+$/g, "")`
unfoldable pub strip_padding : Text → Text
strip_padding [] = []
strip_padding (c ∷ s) =
    let rest = strip_padding s in if c == 61 && is_empty rest then [] else c ∷ rest

unfoldable pub encode_base64url : List ℕ → Text
unfolding btoa strip_padding
encode_base64url bytes = strip_padding (replace_code 47 95 (replace_code 43 45 (btoa bytes)))

-- `/^[A-Za-z0-9_-]+$/`, for a text that is not empty.
unfoldable pub is_base64url_code : ℕ → Bool
is_base64url_code c =
    (leb 65 c && leb c 90)
    || (leb 97 c && leb c 122)
    || (leb 48 c && leb c 57)
    || c == 95
    || c == 45

-- `"=".repeat((4 - (n % 4)) % 4)`, where `n % 4` is not 1.
abbrev pub padding : ℕ → Text
padding n =
    if n % 4 == 2
    then 61 ∷ 61 ∷ []
    else if n % 4 == 3
    then 61 ∷ []
    else if n % 4 == 1
    then 61 ∷ 61 ∷ 61 ∷ []
    else []

unfoldable pub padded : Text → Text
padded s = replace_code 95 47 (replace_code 45 43 s) ++ padding (length s)

pub record ByteBounds : Type 0 where
  pub exact : Option ℕ
  pub minimum : Option ℕ
  pub maximum : ℕ

-- `a ?? b`
abbrev pub or_else : Option ℕ → ℕ → ℕ
or_else none b = b
or_else (some a) b = a

abbrev pub lower_bound : ByteBounds → ℕ
lower_bound o = or_else o.exact (or_else o.minimum 0)

abbrev pub upper_bound : ByteBounds → ℕ
upper_bound o = or_else o.exact o.maximum

-- The tests in front of `atob`; `Math.ceil((max * 4) / 3)` of a whole number.
unfoldable pub is_malformed : Text → ByteBounds → Bool
unfolding is_base64url_code
is_malformed s options =
    length s == 0
    || ltb ((options.maximum * 4 + 2) / 3 + 2) (length s)
    || not (all is_base64url_code s)
    || length s % 4 == 1

-- The tests behind it.
unfoldable pub accept_bytes : Text → ByteBounds → List ℕ → Outcome SessionVaultErrorCode (List ℕ)
unfolding encode_base64url text_eq
accept_bytes s options bytes =
    if ltb (length bytes) (lower_bound options)
      || ltb (upper_bound options) (length bytes)
      || not (text_eq (encode_base64url bytes) s)
    then refused corrupt
    else ok bytes

unfoldable pub decode_text : Text → ByteBounds → Outcome SessionVaultErrorCode (List ℕ)
unfolding is_malformed accept_bytes atob padded
decode_text s options = if is_malformed s options then refused corrupt else elim (atob (padded s)) [
  | none ↦ refused corrupt
  | some bytes ↦ accept_bytes s options bytes
]

unfoldable pub decode_canonical_base64url :
    Stored → ByteBounds → Outcome SessionVaultErrorCode (List ℕ)
unfolding decode_text
decode_canonical_base64url (str s) options = decode_text s options
decode_canonical_base64url _ options = refused corrupt
