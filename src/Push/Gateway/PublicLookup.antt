-- ===== src/Push/Gateway/PublicLookup.antt =====
-- `createPublicLookup` of lib/push-gateway.ts, from what the resolver calls back with to what the
-- connection is given. A `family` of 0, or none, asks for any, and a name of a family is NaN as a number,
-- which the source takes for none.
pub mod Tests
use mathlib.Core.List.{Mem, mem-cons, mem-cons_self}
use mathlib.Core.Logic.Or
use sub_etha.Prelude.{
  ℕ, ◌≡◌, refl, Text, Bool, true, false, ◌||◌, not, List, [], ◌∷◌, ◌==◌, any, filter_by, All, arith,
  if◌then◌else◌, if_intro, All-filter_by, ◌⊎◌, ==_iff, inl, Option, none, some,
}

pub record LookupAddress : Type 0 where
  pub address : Text
  pub family : ℕ

pub data Resolved : Type 0 where
  failed : Resolved
  addresses : List LookupAddress → Resolved

pub data LookupCode : Type 0 where
  resolver_error not_public no_family : LookupCode

pub data LookupAnswer : Type 0 where
  error : LookupCode → LookupAnswer
  every : List LookupAddress → LookupAnswer
  one : LookupAddress → LookupAnswer

-- `options.family` of Node's `LookupOptions`: a number, 'IPv4', 'IPv6' or undefined.
pub data LookupFamily : Type 0 where
  unspecified ipv4 ipv6 : LookupFamily
  numbered : ℕ → LookupFamily

pub record LookupOptions : Type 0 where
  pub wants_all : Bool
  pub family : LookupFamily

abbrev pub is_empty_list : List LookupAddress → Bool
is_empty_list [] = true
is_empty_list (a ∷ rest) = false

-- `requestedFamily`, where `none` is NaN.
abbrev pub requested_family : LookupFamily → Option ℕ
requested_family unspecified = some 0
requested_family (numbered n) = some n
requested_family ipv4 = none
requested_family ipv6 = none

-- Neither 0 nor NaN is true.
abbrev pub matching : Option ℕ → List LookupAddress → List LookupAddress
matching none found = found
matching (some wanted) found =
    if wanted == 0 then found else filter_by (λ a. a.family == wanted) found

-- Only a number other than 0 asks for a family.
abbrev pub serves : LookupFamily → LookupAddress → Bool
serves (numbered wanted) a = wanted == 0 || a.family == wanted
serves _ a = true

abbrev pub answer : Bool → List LookupAddress → LookupAnswer
answer wants_all [] = error LookupCode.no_family
answer wants_all (a ∷ rest) = if wants_all then every (a ∷ rest) else one a

module _ (is_public : Text → Bool) where
  unfoldable pub public_lookup : LookupOptions → Resolved → LookupAnswer
  public_lookup options failed = error LookupCode.resolver_error
  public_lookup options (addresses found) =
      if is_empty_list found || any (λ a. not (is_public a.address)) found
      then error LookupCode.not_public
      else answer options.wants_all (matching (requested_family options.family) found)

-- The addresses that a connection may be made to.
abbrev pub offered : LookupAnswer → List LookupAddress
offered (error code) = []
offered (every found) = found
offered (one a) = a ∷ []

-- An address has the family that was asked for by a number other than 0.
abbrev pub InFamily : LookupFamily → LookupAddress → Type 0
InFamily (numbered wanted) a = (wanted ≡ 0) ⊎ (a.family ≡ wanted)
InFamily _ a = Unit

abbrev pub Usable : (Text → Bool) → LookupFamily → LookupAddress → Type 0
Usable is_public family a = (is_public a.address ≡ true) × InFamily family a

All-Mem :
    (xs ys : List LookupAddress)
    → ((a : LookupAddress) → Mem a xs → Mem a ys)
    → All (λ a. Mem a ys) xs
All-Mem [] ys h = tt
All-Mem (x ∷ xs) ys h = (h x mem-cons_self, All-Mem xs ys (λ a m. h a (mem-cons.1 (Or.inr m))))

module _ (is_public : Text → Bool) where
  filtered-Usable :
      (wanted : ℕ) (found : List LookupAddress)
      → any (λ a. not (is_public a.address)) found ≡ false
      → All (Usable is_public (numbered wanted)) (filter_by (λ a. a.family == wanted) found)
  filtered-Usable wanted [] h = tt
  filtered-Usable wanted (a ∷ found) h = ground (arith, filtered-Usable wanted found)

  -- Where every address will do.
  unfiltered-Usable :
      (family : LookupFamily) (found : List LookupAddress)
      → ((a : LookupAddress) → InFamily family a)
      → any (λ a. not (is_public a.address)) found ≡ false
      → All (Usable is_public family) found
  unfiltered-Usable family [] e h = tt
  unfiltered-Usable family (a ∷ found) e h =
      ((ground arith, e a), unfiltered-Usable family found e (ground arith))

  matching-Usable :
      (family : LookupFamily) (found : List LookupAddress)
      → any (λ a. not (is_public a.address)) found ≡ false
      → All (Usable is_public family) (matching (requested_family family) found)
  matching-Usable (numbered wanted) found h =
      if_intro (All (Usable is_public (numbered wanted))) (wanted == 0) _ _
        (λ e. unfiltered-Usable (numbered wanted) found (λ a. inl ((==_iff wanted 0).0 e)) h)
        (λ _. filtered-Usable wanted found h)
  matching-Usable unspecified found h = unfiltered-Usable unspecified found (λ a. tt) h
  matching-Usable ipv4 found h = unfiltered-Usable ipv4 found (λ a. tt) h
  matching-Usable ipv6 found h = unfiltered-Usable ipv6 found (λ a. tt) h

  matching-Mem :
      (wanted : Option ℕ) (found : List LookupAddress)
      → All (λ a. Mem a found) (matching wanted found)
  matching-Mem none found = All-Mem found found (λ a m. m)
  matching-Mem (some wanted) found =
      if_intro (All (λ a. Mem a found)) (wanted == 0) _ _ (λ _. All-Mem found found (λ a m. m))
        (λ _.
          All-filter_by (λ a. Mem a found) (λ a. a.family == wanted) found
            (All-Mem found found (λ a m. m)))

  All-answer {ℓ} :
      (P : LookupAddress → Type ℓ) (wants_all : Bool) (found : List LookupAddress)
      → All P found
      → All P (offered (answer wants_all found))
  All-answer P wants_all [] h = tt
  All-answer P true (a ∷ found) h = h
  All-answer P false (a ∷ found) h = (h.0, tt)

  All-public_lookup {ℓ} :
      (P : LookupAddress → Type ℓ) (options : LookupOptions) (found : List LookupAddress)
      → (any (λ a. not (is_public a.address)) found ≡ false
          → All P (matching (requested_family options.family) found))
      → All P (offered (public_lookup is_public options (addresses found)))
  unfolding public_lookup
  All-public_lookup P options [] k = tt
  All-public_lookup P options (a ∷ found) k =
      if_intro (λ (r : LookupAnswer). All P (offered r))
        (any (λ b. not (is_public b.address)) (a ∷ found)) _ _ (λ _. tt)
        (λ public.
          All-answer P options.wants_all (matching (requested_family options.family) (a ∷ found))
            (k public))

  -- Whatever addresses the resolver returns, a connection is offered only public ones, of the family that
  -- it asked for where it did by a number other than 0, and each of them is one that the resolver returned.
  pub public_lookup_safe :
      (options : LookupOptions) (found : List LookupAddress)
      → All
          (Usable is_public options.family)
          (offered (public_lookup is_public options (addresses found)))
        × All (λ a. Mem a found) (offered (public_lookup is_public options (addresses found)))
  public_lookup_safe options found = (
    All-public_lookup (Usable is_public options.family) options found
        (matching-Usable options.family found),
    All-public_lookup (λ a. Mem a found) options found
        (λ _. matching-Mem (requested_family options.family) found),
  )

  is_empty-answer :
      (wants_all : Bool) (found : List LookupAddress)
      → is_empty_list (offered (answer wants_all found)) ≡ is_empty_list found
  is_empty-answer wants_all [] = refl
  is_empty-answer true (a ∷ found) = refl
  is_empty-answer false (a ∷ found) = refl

  is_empty-filter :
      (wanted : ℕ) (found : List LookupAddress)
      → is_empty_list (matching (some wanted) found) ≡ not (any (serves (numbered wanted)) found)
  is_empty-filter wanted [] = ground arith
  is_empty-filter wanted (a ∷ found) = ground (arith, is_empty-filter wanted found)

  is_empty-matching :
      (family : LookupFamily) (a : LookupAddress) (found : List LookupAddress)
      → is_empty_list (matching (requested_family family) (a ∷ found))
        ≡ not (any (serves family) (a ∷ found))
  is_empty-matching (numbered wanted) a found = is_empty-filter wanted (a ∷ found)
  is_empty-matching unspecified a found = refl
  is_empty-matching ipv4 a found = refl
  is_empty-matching ipv6 a found = refl

  -- No address is offered exactly if one of those that the resolver returned is not public, or there are
  -- none, or the connection asked for a family by a number other than 0 and none of them is of it.
  pub public_lookup_decides :
      (options : LookupOptions) (found : List LookupAddress)
      → is_empty_list (offered (public_lookup is_public options (addresses found)))
        ≡ (any (λ a. not (is_public a.address)) found || not (any (serves options.family) found))
  unfolding public_lookup
  public_lookup_decides options [] = refl
  public_lookup_decides options (a ∷ found) = ground (
    arith,
    is_empty-answer options.wants_all (matching (requested_family options.family) (a ∷ found)),
    is_empty-matching options.family a found,
  )
