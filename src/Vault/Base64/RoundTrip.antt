-- ===== src/Vault/Base64/RoundTrip.antt =====
-- Bytes through `encodeBase64Url` and back, for lib/security/session-vault-format.ts.
use sub_etha.Prelude.{
  ℕ, ◌+◌, ◌*◌, ◌/◌, ◌%◌, ◌<◌, ◌≤◌, ◌≡◌, refl, sym, subst, Text, text_eq, text_eq_iff, true, false,
  List, [], ◌∷◌, length, all, All, Outcome, ok, if_intro, option_intro, arith,
}
use sub_etha.Vault.Base64.{
  atob, encode_base64url, is_base64url_code, padded, ByteBounds, lower_bound, upper_bound,
  is_malformed, accept_bytes, decode_text, decode_canonical_base64url,
}
use sub_etha.Vault.Stored.{str, SessionVaultErrorCode}
use sub_etha.Vault.Base64.Letters.{
  IsByte, url_text, is_base64url_code-letter, atob-btoa, encode_lem, padded-url_text,
}

all-url_text : (bytes : List ℕ) → All IsByte bytes → all is_base64url_code (url_text bytes) ≡ true
unfolding url_text
all-url_text [] h = refl
all-url_text (a ∷ []) (ha, u) =
    rw
      (
        is_base64url_code-letter (a / 4) (omega arith),
        is_base64url_code-letter (a % 4 * 16) (omega arith),
      )
      refl
all-url_text (a ∷ b ∷ []) (ha, (hb, u)) =
    rw
      (
        is_base64url_code-letter (a / 4) (omega arith),
        is_base64url_code-letter (a % 4 * 16 + b / 16) (omega arith),
        is_base64url_code-letter (b % 16 * 4) (omega arith),
      )
      refl
all-url_text (a ∷ b ∷ c ∷ bytes) (ha, (hb, (hc, h))) =
    rw
      (
        is_base64url_code-letter (a / 4) (omega arith),
        is_base64url_code-letter (a % 4 * 16 + b / 16) (omega arith),
        is_base64url_code-letter (b % 16 * 4 + c / 64) (omega arith),
        is_base64url_code-letter (c % 64) (omega arith),
        all-url_text bytes h,
      )
      refl

length-url_text : (bytes : List ℕ) → length (url_text bytes) ≡ (length bytes * 4 + 2) / 3
unfolding url_text
length-url_text [] = refl
length-url_text (a ∷ []) = refl
length-url_text (a ∷ b ∷ []) = refl
length-url_text (a ∷ b ∷ c ∷ bytes) = omega (arith, length-url_text bytes)

-- Any texts of the alphabet with the right length pass the tests in front of `atob`.
well_formed :
    (s : Text) (options : ByteBounds) (n : ℕ)
    → length s ≡ (n * 4 + 2) / 3
    → all is_base64url_code s ≡ true
    → 0 < n
    → n ≤ options.maximum
    → is_malformed s options ≡ false
unfolding is_malformed
well_formed s options n len letters positive small = ground arith

accepted_bytes :
    (s : Text) (options : ByteBounds) (bytes : List ℕ)
    → lower_bound options ≤ length bytes
    → length bytes ≤ upper_bound options
    → encode_base64url bytes ≡ s
    → accept_bytes s options bytes ≡ ok bytes
unfolding accept_bytes
accepted_bytes s options bytes lower upper e =
    let same : text_eq (encode_base64url bytes) s ≡ true =
      (text_eq_iff (encode_base64url bytes) s).1 e in
    ground arith

module _ (bytes : List ℕ) (options : ByteBounds) (h : All IsByte bytes)
    (positive : 0 < length bytes) (small : length bytes ≤ options.maximum) where
  decode-url_text :
      lower_bound options ≤ length bytes
      → length bytes ≤ upper_bound options
      → decode_text (url_text bytes) options ≡ ok bytes
  unfolding decode_text
  decode-url_text lower upper =
      rw
        (
          well_formed (url_text bytes) options (length bytes) (length-url_text bytes)
              (all-url_text bytes h) positive small,
          padded-url_text bytes h,
          atob-btoa bytes h,
        )
        (accepted_bytes (url_text bytes) options bytes lower upper (encode_lem bytes h))

-- Every list of bytes that is not empty, and whose length is within the bounds of the caller and the
-- maximum that limits the text, is decoded from its encoding.
pub decode-encode_base64url :
    (bytes : List ℕ) (options : ByteBounds)
    → All IsByte bytes
    → 0 < length bytes
    → length bytes ≤ options.maximum
    → lower_bound options ≤ length bytes
    → length bytes ≤ upper_bound options
    → decode_canonical_base64url (str (encode_base64url bytes)) options ≡ ok bytes
unfolding decode_canonical_base64url
decode-encode_base64url bytes options h positive small lower upper =
    subst (λ s. decode_text s options ≡ ok bytes) (sym (encode_lem bytes h))
      (decode-url_text bytes options h positive small lower upper)

module _ (s : Text) (options : ByteBounds) (bytes : List ℕ) where
  abbrev IsDecoded : Type 0
  IsDecoded =
      (encode_base64url bytes ≡ s)
      × (lower_bound options ≤ length bytes)
      × (length bytes ≤ upper_bound options)

  accept_bytes_sound : (b : List ℕ) → accept_bytes s options b ≡ ok bytes → IsDecoded
  unfolding accept_bytes
  accept_bytes_sound b = ground (arith, text_eq_iff (encode_base64url b) s)

  pub decode_text_sound : decode_text s options ≡ ok bytes → IsDecoded
  unfolding decode_text
  decode_text_sound =
      let goal : Outcome SessionVaultErrorCode (List ℕ) → Type 0 = λ o. o ≡ ok bytes → IsDecoded in
      if_intro goal (is_malformed s options) _ _ (λ m e. absurd cc)
        (λ m.
          option_intro goal (atob (padded s)) _ _ (λ n e. absurd cc) (λ b e. accept_bytes_sound b))

-- What is decoded is encoded to the text that was read, so that no two texts stand for the same bytes,
-- and its length is within the bounds of the caller.
pub decode_canonical_base64url_sound :
    (s : Text) (options : ByteBounds) (bytes : List ℕ)
    → decode_canonical_base64url (str s) options ≡ ok bytes
    → (encode_base64url bytes ≡ s)
      × (lower_bound options ≤ length bytes)
      × (length bytes ≤ upper_bound options)
unfolding decode_canonical_base64url
decode_canonical_base64url_sound s options bytes h = decode_text_sound s options bytes h
