-- ===== src/Push/Gateway/PublicLookup/Tests.antt =====
-- Lookups of lib/push-gateway.ts with a resolver that finds a public and a private address.
use mathlib.Core.List.{Mem}
use sub_etha.Prelude.{
  take, ◌≡◌, refl, Text, codes, text_eq, Bool, true, ◌||◌, not, List, [], ◌∷◌, All, any,
}
use sub_etha.Push.Gateway.PublicLookup.{
  LookupAddress, LookupOptions, numbered, ipv6, addresses, public_lookup, offered, serves,
  is_empty_list, Usable, public_lookup_safe, public_lookup_decides,
}

-- A resolver that returns one address of each family, and a test that finds the private one.
abbrev resolved : List LookupAddress
resolved =
    record { address = codes "1.1.1.1"; family = 4 }
    ∷ record { address = codes "::1"; family = 6 }
    ∷ []

abbrev not_loopback : Text → Bool
not_loopback s = not (text_eq s (codes "::1"))

abbrev wants_v4 : LookupOptions
wants_v4 = record { wants_all = true; family = numbered 4 }

public_lookup_safe_example :
    All
      (Usable not_loopback (numbered 4))
      (offered (public_lookup not_loopback wants_v4 (addresses (take 1 resolved))))
    × All
        (λ a. Mem a (take 1 resolved))
        (offered (public_lookup not_loopback wants_v4 (addresses (take 1 resolved))))
public_lookup_safe_example = public_lookup_safe not_loopback wants_v4 (take 1 resolved)

public_lookup_decides_example :
    is_empty_list (offered (public_lookup not_loopback wants_v4 (addresses resolved)))
    ≡ (any (λ a. not (not_loopback a.address)) resolved || not (any (serves (numbered 4)) resolved))
public_lookup_decides_example = public_lookup_decides not_loopback wants_v4 resolved

-- A family that is named is not looked at.
named_family_test :
    offered (
      public_lookup not_loopback
        (record { wants_all = true; family = ipv6 })
        (addresses (take 1 resolved)))
    ≡ take 1 resolved
unfolding public_lookup text_eq
named_family_test = refl
