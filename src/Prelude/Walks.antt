-- ===== src/Prelude/Walks.antt =====
-- Loops that may throw, as steps on a state with fuel, and the ways to prove that one ends.
use Prim.Native.Nat.{ℕ, zero, suc, ◌<◌}
use mathlib.Core.Path.{◌≡◌, refl, subst}
use mathlib.Core.Logic.{◌≢◌}
use mathlib.Core.Bool.{Bool, true, false}
use sub_etha.Prelude.Tests.{if◌then◌else◌}
use native.Mathlib.Omega.{arith}

-- What a call does: it returns, it throws, or its fuel runs out.
pub data Outcome (E A : Type 0) : Type 0 where
  ok : A → Outcome E A
  refused : E → Outcome E A
  out_of_fuel : Outcome E A

-- One round of a loop: to the next state, or out of the loop.
pub data Step (E S A : Type 0) : Type 0 where
  next : S → Step E S A
  stop : Outcome E A → Step E S A

module _ {E S A B : Type 0} where
  -- The call after which the round goes on.
  abbrev pub step_after : Outcome E B → (B → Step E S A) → Step E S A
  step_after (ok b) f = f b
  step_after (refused e) f = stop (refused e)
  step_after out_of_fuel f = stop out_of_fuel

module _ {E : Type 0} where
  infixl 5 ◌>>=◌ ◌>>◌
  abbrev pub ◌>>=◌ : {A B : Type 0} → Outcome E A → (A → Outcome E B) → Outcome E B
  ok a >>= f = f a
  refused e >>= f = refused e
  out_of_fuel >>= f = out_of_fuel

  abbrev pub ◌>>◌ : {B : Type 0} → Outcome E (Unit {0}) → Outcome E B → Outcome E B
  m >> k = m >>= λ _. k

  -- `if (b) { throw e; }`
  abbrev pub refuse_if : Bool → E → Outcome E (Unit {0})
  refuse_if true e = refused e
  refuse_if false e = ok tt

module _ {E S A : Type 0} where
  unfoldable pub walk : ℕ → (S → Step E S A) → S → Outcome E A
  walk zero step s = out_of_fuel
  walk (suc fuel) step s = elim (step s) [ next t ↦ walk fuel step t | stop o ↦ o ]

-- The call has thrown, or has returned what `Q` holds of.
module _ {E A : Type 0} (Q : A → Type 0) where
  abbrev pub Ends : Outcome E A → Type 0
  Ends (ok a) = Q a
  Ends (refused e) = Unit
  Ends out_of_fuel = ⊥

-- A round keeps `P` and comes nearer to the end, or leaves the loop as `Ends` asks.
module _ {E S A : Type 0} (P : S → Type 0) (left : S → ℕ) (Q : A → Type 0) where
  abbrev pub Advances : S → Step E S A → Type 0
  Advances s (next t) = P t × (left t < left s)
  Advances s (stop o) = Ends Q o

module _ {E S A : Type 0} (P : S → Type 0) (left : S → ℕ) (Q : A → Type 0) where
  Ends-round :
      (s : S) (r : Step E S A) (f : S → Outcome E A)
      → Advances P left Q s r
      → ((t : S) → P t → left t < left s → Ends Q (f t))
      → Ends Q (elim r [ next t ↦ f t | stop o ↦ o ])
  Ends-round s (next t) f a k = k t a.0 a.1
  Ends-round s (stop o) f a k = a

  -- Where every round advances, fuel for what is left is enough.
  pub Ends-walk :
      (step : S → Step E S A)
      → ((s : S) → P s → Advances P left Q s (step s))
      → (fuel : ℕ) (s : S) → P s
      → left s < fuel
      → Ends Q (walk fuel step s)
  unfolding walk
  Ends-walk step h zero s p lt = absurd (omega (arith, lt))
  Ends-walk step h (suc fuel) s p lt =
      Ends-round s (step s) (walk fuel step) (h s p)
        (λ t q closer. Ends-walk step h fuel t q (omega (arith, closer, lt)))

module _ {E A B : Type 0} (P : A → Type 0) (Q : B → Type 0) where
  pub Ends->>= :
      (m : Outcome E A) (f : A → Outcome E B)
      → Ends P m
      → ((a : A) → m ≡ ok a → P a → Ends Q (f a))
      → Ends Q (m >>= f)
  Ends->>= (ok a) f p k = k a refl p
  Ends->>= (refused e) f p k = tt
  Ends->>= out_of_fuel f p k = p

module _ {E A : Type 0} (P Q : A → Type 0) where
  pub Ends-map : (m : Outcome E A) → ((a : A) → P a → Q a) → Ends P m → Ends Q m
  Ends-map (ok a) k p = k a p
  Ends-map (refused e) k p = tt
  Ends-map out_of_fuel k p = p

module _ {E A : Type 0} (Q : A → Type 0) where
  pub Ends-finished : (m : Outcome E A) → Ends Q m → m ≢ out_of_fuel
  Ends-finished (ok a) e h = cc
  Ends-finished (refused l) e h = cc
  Ends-finished out_of_fuel e h = absurd e

  pub Ends-ok : {m : Outcome E A} {a : A} → Ends Q m → m ≡ ok a → Q a
  Ends-ok e h = subst (Ends Q) h e

module _ {E B : Type 0} (Q : B → Type 0) where
  -- Behind a test that throws, the test is false.
  pub Ends-refuse_if :
      (b : Bool) (e : E) (m : Outcome E B) → (b ≡ false → Ends Q m) → Ends Q (refuse_if b e >> m)
  Ends-refuse_if true e m k = tt
  Ends-refuse_if false e m k = k refl

-- Two calls side by side: the second matches the first, unless the first throws.
module _ {E A B : Type 0} (R : A → B → Type 0) where
  abbrev pub Matches : Outcome E A → Outcome E B → Type 0
  Matches (ok a) (ok b) = R a b
  Matches (refused e) o = Unit
  Matches out_of_fuel out_of_fuel = Unit
  Matches _ _ = ⊥

module _ {E S T A B : Type 0} (R : S → T → Type 0) (Q : A → B → Type 0) where
  abbrev pub StepsMatch : Step E S A → Step E T B → Type 0
  StepsMatch (next s) (next t) = R s t
  StepsMatch (stop o) (stop p) = Matches Q o p
  StepsMatch (stop (refused e)) (next t) = Unit
  StepsMatch _ _ = ⊥

  Matches-round :
      (a : Step E S A) (b : Step E T B) (f : S → Outcome E A) (g : T → Outcome E B)
      → StepsMatch a b
      → ((s : S) (t : T) → R s t → Matches Q (f s) (g t))
      → Matches Q (elim a [ next s ↦ f s | stop o ↦ o ]) (elim b [ next t ↦ g t | stop o ↦ o ])
  Matches-round (next s) (next t) f g m k = k s t m
  Matches-round (stop o) (stop p) f g m k = m
  Matches-round (stop (refused e)) (next t) f g m k = tt
  Matches-round (stop (ok a)) (next t) f g m k = absurd m
  Matches-round (stop out_of_fuel) (next t) f g m k = absurd m
  Matches-round (next s) (stop p) f g m k = absurd m

  -- Two loops whose rounds match, match.
  pub Matches-walk :
      (f : S → Step E S A) (g : T → Step E T B)
      → ((s : S) (t : T) → R s t → StepsMatch (f s) (g t))
      → (fuel : ℕ) (s : S) (t : T) → R s t
      → Matches Q (walk fuel f s) (walk fuel g t)
  unfolding walk
  Matches-walk f g h zero s t r = tt
  Matches-walk f g h (suc fuel) s t r =
      Matches-round (f s) (g t) (walk fuel f) (walk fuel g) (h s t r)
        (λ s t r. Matches-walk f g h fuel s t r)

-- The call has returned this value.
module _ {E A : Type 0} where
  abbrev pub Yields : Outcome E A → A → Type 0
  Yields o a = o ≡ ok a

-- A chain that returns has returned at every step.
module _ {E A B : Type 0} {b : B} where
  pub Yields->>= :
      (first : Outcome E A) (rest : A → Outcome E B)
      → Yields (first >>= rest) b
      → (a : A) × Yields first a × Yields (rest a) b
  Yields->>= (refused e) rest returned = absurd cc
  Yields->>= out_of_fuel rest returned = absurd cc
  Yields->>= (ok a) rest returned = (a, refl, returned)

module _ {E B : Type 0} where
  pub refuse_if-eq-ok :
      (b : Bool) (e : E) (m : Outcome E B) {r : B}
      → (refuse_if b e >> m) ≡ ok r
      → (b ≡ false) × (m ≡ ok r)
  refuse_if-eq-ok true e m h = absurd cc
  refuse_if-eq-ok false e m h = (refl, h)

  pub ok-injective : {a b : B} → ◌≡◌ {A = Outcome E B} (ok a) (ok b) → a ≡ b
  ok-injective h = cc

  pub unless-eq-ok :
      (b : Bool) (e : E) (a : B) {r : B}
      → (if b then refused e else ok a) ≡ ok r
      → (b ≡ false) × (a ≡ r)
  unless-eq-ok true e a h = absurd cc
  unless-eq-ok false e a h = (refl, cc)
