-- ===== src/Prelude/Tables.antt =====
-- Tables as lists of rows: what a search, a change and a deletion by a test do to one another, and
-- lists in which no two rows have the same key.
use Prim.Native.Nat.{◌-◌}
use mathlib.Core.Logic.{inl, inr}
use mathlib.Core.Path.{◌≡◌, refl}
use mathlib.Core.Bool.{Bool, true, false, not, ◌&&◌, ◌||◌}
use mathlib.Core.List.{List, [], ◌∷◌, ◌++◌}
use mathlib.Core.Option
use mathlib.Core.Option.{Option, none, some}
use native.Mathlib.Omega.{arith}
use sub_etha.Prelude.Tests.{if◌then◌else◌, is_some, holds, keep_if, Bool-cases}
use sub_etha.Prelude.Lists.{any, find, filter_by, update_where, length, length-filter_by}

module _ {ℓ} {A : Type ℓ} where
  pub is_some-find : (p : A → Bool) (xs : List A) → is_some (find p xs) ≡ any p xs
  is_some-find p [] = refl
  is_some-find p (x ∷ xs) = ground (arith, is_some-find p xs)

  pub find_sound : (p : A → Bool) (xs : List A) (x : A) → find p xs ≡ some x → p x ≡ true
  find_sound p [] x h = cc
  find_sound p (y ∷ xs) x h = ground (arith, find_sound p xs x)

  pub find-of_any :
      (p q : A → Bool) (xs : List A) (x : A) → find p xs ≡ some x → any q xs ≡ false → q x ≡ false
  find-of_any p q [] x h k = cc
  find-of_any p q (y ∷ xs) x h k = ground (arith, find-of_any p q xs x)

  pub holds-find : (p : A → Bool) (xs : List A) → holds p (find p xs) ≡ any p xs
  holds-find p [] = refl
  holds-find p (x ∷ xs) = ground (arith, holds-find p xs)

  -- A change that keeps the test's answer changes what is found.
  pub find-update_where :
      (p q : A → Bool) (f : A → A) (xs : List A)
      → ((x : A) → p (f x) ≡ p x)
      → find p (update_where q f xs) ≡ Option.map (λ x. if q x then f x else x) (find p xs)
  find-update_where p q f [] h = refl
  find-update_where p q f (x ∷ xs) h = ground (arith, h x, find-update_where p q f xs h)

  pub find-append :
      (p : A → Bool) (xs : List A) (y : A)
      → find p (xs ++ y ∷ []) ≡ (if any p xs then find p xs else if p y then some y else none)
  find-append p [] y = refl
  find-append p (x ∷ xs) y = ground (arith, find-append p xs y)

  -- A deletion that spares every row that meets the test.
  pub find-filter_by_other :
      (p q : A → Bool) (xs : List A)
      → ((x : A) → p x ≡ true → q x ≡ true)
      → find p (filter_by q xs) ≡ find p xs
  find-filter_by_other p q [] h = refl
  find-filter_by_other p q (x ∷ xs) h = ground (arith, h x, find-filter_by_other p q xs h)

  pub any-filter_by_le :
      (p q : A → Bool) (xs : List A) → any p xs ≡ false → any p (filter_by q xs) ≡ false
  any-filter_by_le p q [] h = refl
  any-filter_by_le p q (x ∷ xs) h = ground (arith, any-filter_by_le p q xs)

  pub any-update_where :
      (p q : A → Bool) (f : A → A) (xs : List A)
      → ((x : A) → p (f x) ≡ p x)
      → any p (update_where q f xs) ≡ any p xs
  any-update_where p q f [] h = refl
  any-update_where p q f (x ∷ xs) h = ground (arith, h x, any-update_where p q f xs h)

  pub any-congr : (p q : A → Bool) (xs : List A) → ((x : A) → p x ≡ q x) → any p xs ≡ any q xs
  any-congr p q [] h = refl
  any-congr p q (x ∷ xs) h = ground (arith, h x, any-congr p q xs h)

  pub any-filter_by_and :
      (p q : A → Bool) (xs : List A)
      → any (λ x. p x && q x) xs ≡ false
      → any p (filter_by q xs) ≡ false
  any-filter_by_and p q [] h = refl
  any-filter_by_and p q (x ∷ xs) h = ground (arith, any-filter_by_and p q xs)

  pub any-implied :
      (p q : A → Bool) (xs : List A)
      → ((x : A) → p x ≡ true → q x ≡ true)
      → any q xs ≡ false
      → any p xs ≡ false
  any-implied p q [] h k = refl
  any-implied p q (x ∷ xs) h k = ground (arith, h x, any-implied p q xs h)

  -- A change whose results fail the test.
  pub any-update_away :
      (p q : A → Bool) (f : A → A) (xs : List A)
      → ((x : A) → p (f x) ≡ false)
      → any p xs ≡ false
      → any p (update_where q f xs) ≡ false
  any-update_away p q f [] h k = refl
  any-update_away p q f (x ∷ xs) h k = ground (arith, h x, any-update_away p q f xs h)

  -- Where no row meets the test, a change of those that do is none, and none is left out.
  pub update_where-none :
      (q : A → Bool) (f : A → A) (xs : List A) → any q xs ≡ false → update_where q f xs ≡ xs
  update_where-none q f [] h = refl
  update_where-none q f (x ∷ xs) h = ground (arith, update_where-none q f xs)

  pub length-filter_not :
      (p : A → Bool) (xs : List A)
      → length (filter_by (λ x. not (p x)) xs) ≡ length xs - length (filter_by p xs)
  length-filter_not p [] = omega arith
  length-filter_not p (x ∷ xs) = ground (arith, length-filter_not p xs, length-filter_by p xs)

  pub any-or :
      (p q : A → Bool) (xs : List A)
      → any p xs ≡ false
      → any q xs ≡ false
      → any (λ x. p x || q x) xs ≡ false
  any-or p q [] h k = refl
  any-or p q (x ∷ xs) h k = ground (arith, any-or p q xs)

  pub any-append : (p : A → Bool) (xs : List A) (y : A) → any p (xs ++ y ∷ []) ≡ (any p xs || p y)
  any-append p [] y = ground arith
  any-append p (x ∷ xs) y = ground (arith, any-append p xs y)

-- No two rows have the same key: `same` compares the keys of two rows.
module _ {ℓ} {A : Type ℓ} (same : A → A → Bool) where
  abbrev pub Keyed : List A → Type 0
  Keyed [] = Unit
  Keyed (x ∷ xs) = (any (same x) xs ≡ false) × Keyed xs

module _ {ℓ} {A : Type ℓ} (same : A → A → Bool) where
  pub Keyed-filter_by : (q : A → Bool) (xs : List A) → Keyed same xs → Keyed same (filter_by q xs)
  Keyed-filter_by q [] h = tt
  Keyed-filter_by q (x ∷ xs) h =
      ground (arith, Keyed-filter_by q xs h.1, any-filter_by_le (same x) q xs h.0)

  pub Keyed-update_where :
      (q : A → Bool) (f : A → A) (xs : List A)
      → ((x y : A) → same x (f y) ≡ same x y)
      → ((x y : A) → same (f x) y ≡ same x y)
      → Keyed same xs
      → Keyed same (update_where q f xs)
  Keyed-update_where q f [] right left h = tt
  Keyed-update_where q f (x ∷ xs) right left h = (
    ground (
      arith,
      any-congr (same (f x)) (same x) (update_where q f xs) (left x),
      any-update_where (same x) q f xs (right x),
      h.0,
    ),
    Keyed-update_where q f xs right left h.1,
  )

  pub Keyed-append :
      (xs : List A) (y : A)
      → Keyed same xs
      → ((x : A) → same x y ≡ same y x)
      → any (same y) xs ≡ false
      → Keyed same (xs ++ y ∷ [])
  Keyed-append [] y h swap fresh = (refl, tt)
  Keyed-append (x ∷ xs) y h swap fresh =
      ground (arith, any-append (same x) xs y, swap x, Keyed-append xs y h.1 swap)

-- What a test finds in a list with distinct keys, where the test means one key.
module _ {ℓ} {A : Type ℓ} (same : A → A → Bool) (p : A → Bool)
    (one : (x y : A) → p x ≡ true → p y ≡ true → same x y ≡ true) where
  pub any-other : (x : A) (xs : List A) → p x ≡ true → any (same x) xs ≡ false → any p xs ≡ false
  any-other x [] px h = refl
  any-other x (y ∷ xs) px h = ground (arith, one x y px, any-other x xs px)

  pub find-filter_by :
      (q : A → Bool) (xs : List A) → Keyed same xs → find p (filter_by q xs) ≡ keep_if q (find p xs)
  find-filter_by q [] h = refl
  find-filter_by q (x ∷ xs) h = ground (
    arith,
    any-other x xs,
    find-filter_by q xs h.1,
    is_some-find p (filter_by q xs),
    any-filter_by_le p q xs,
  )

  -- A test that implies this one holds somewhere exactly if it holds of what is found.
  pub any-find :
      (q : A → Bool) (xs : List A)
      → ((x : A) → q x ≡ true → p x ≡ true)
      → Keyed same xs
      → any q xs ≡ holds q (find p xs)
  any-find q [] sub h = refl
  any-find q (x ∷ xs) sub h =
      ground (arith, sub x, any-other x xs, any-find q xs sub h.1, any-implied q p xs sub)

-- The change of the one row that meets `q`, to a row that no other row clashes with.
module _ {ℓ} {A : Type ℓ} (same same_key : A → A → Bool) (q clash : A → Bool) (f : A → A)
    (one : (x y : A) → q x ≡ true → q y ≡ true → same_key x y ≡ true)
    (apart : (x y : A) → q x ≡ false → clash x ≡ false → same x (f y) ≡ false)
    (apart' : (x y : A) → same (f x) y ≡ true → (clash y || q y) ≡ true) where
  pub Keyed-replace :
      (xs : List A)
      → any clash xs ≡ false
      → Keyed same_key xs
      → Keyed same xs
      → Keyed same (update_where q f xs)
  Keyed-replace [] c k h = tt
  Keyed-replace (x ∷ xs) c k h = elim (Bool-cases (q x)) [
    | inl here ↦
        let rest : any q xs ≡ false = any-other same_key q one x xs here k.0 in
        rw (here, update_where-none q f xs rest)
          (
            any-implied (same (f x)) (λ y. clash y || q y) xs (apart' x)
                (any-or clash q xs (ground arith) rest),
            h.1,
          )
    | inr away ↦ rw away (
      any-update_away (same x) q f xs (λ y. apart x y away (ground arith)) h.0,
      Keyed-replace xs (ground arith) k.1 h.1,
    )
  ]
