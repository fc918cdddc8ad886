-- ===== src/Push/Exec/Preserves.antt =====
-- Invariants of actions, with a rule for each way to build one.
use sub_etha.Prelude.{
  ℕ, ◌+◌, ◌≡◌, refl, Bool, true, false, List, [], ◌∷◌, ◌++◌, Option, none, some, if◌then◌else◌,
  if_intro,
}
use sub_etha.Push.Exec.{
  Response, LogEntry, World, Result, ok, thrown, failed, Dependencies, Exec, pure, throw, catch,
  query, write_log, read_clock, random_capability, answered, resume, recover, ◌>>=◌, ◌>>◌,
}
use sub_etha.Push.Repository.{Query}

-- `m` preserves `P`, whether it returns or throws.
pub record Preserves {S A : Type 0} (P : World S → Type 0) (action : Exec S A) : Type 0 where
  pub after : (w : World S) → P w → P (action w).1

-- `P` does not depend on the store, the log, the clock and the generator.
pub record IsFramed {S : Type 0} (P : World S → Type 0) : Type 0 where
  pub on_store : (w : World S) (s : S) → P w → P (record w { store = s })
  pub on_logs : (w : World S) (ls : List LogEntry) → P w → P (record w { logs = ls })
  pub on_readings : (w : World S) (n : ℕ) → P w → P (record w { readings = n })
  pub on_challenges : (w : World S) (n : ℕ) → P w → P (record w { challenges = n })

-- `Q` holds of what `m` returns, if it returns.
abbrev pub Returned : {A : Type 0} → (A → Type 0) → Result A → Type 0
Returned Q (ok a) = Q a
Returned Q (thrown e) = Unit
Returned Q (failed n) = Unit

pub record Yields {S A : Type 0} (Q : A → Type 0) (m : Exec S A) : Type 0 where
  pub at : (w : World S) → Returned Q (m w).0

module _ {S A : Type 0} {Q : A → Type 0} where
  pub Yields-pure : (a : A) → Q a → Yields {S = S} Q (pure a)
  unfolding pure
  Yields-pure a q = record { at = λ w. q }

  pub Yields-throw : (r : Response) → Yields {S = S} Q (throw r)
  unfolding throw
  Yields-throw r = record { at = λ w. tt }

  pub Yields-if :
      (b : Bool) (m n : Exec S A)
      → (b ≡ true → Yields Q m)
      → (b ≡ false → Yields Q n)
      → Yields Q (if b then m else n)
  Yields-if true m n km kn = km refl
  Yields-if false m n km kn = kn refl

  pub Yields-option :
      {B : Type 0} (o : Option B) (m : Exec S A) (f : B → Exec S A)
      → Yields Q m
      → ((b : B) → Yields Q (f b))
      → Yields Q (elim o [ none ↦ m | some b ↦ f b ])
  Yields-option none m f ym yf = ym
  Yields-option (some b) m f ym yf = yf b

  pub Yields-bind :
      {B : Type 0} (m : Exec S B) (f : B → Exec S A)
      → ((b : B) → Yields Q (f b))
      → Yields Q (m >>= f)
  unfolding ◌>>=◌
  Yields-bind {B} m f yf = record { at = λ w. go (m w) }
    where
      go : (r : Result B × World S) → Returned Q (resume f r).0
      go (ok b, w) = (yf b).at w
      go (thrown e, w) = tt
      go (failed n, w) = tt

module _ {S : Type 0} {P : World S → Type 0} where
  pub Preserves-option :
      {A B : Type 0} (o : Option A) (m : Exec S B) (f : A → Exec S B)
      → Preserves P m
      → ((a : A) → Preserves P (f a))
      → Preserves P (elim o [ none ↦ m | some a ↦ f a ])
  Preserves-option none m f km kf = km
  Preserves-option (some a) m f km kf = kf a

  pub Preserves-if :
      {A : Type 0} (test : Bool) (first second : Exec S A)
      → (test ≡ true → Preserves P first)
      → (test ≡ false → Preserves P second)
      → Preserves P (if test then first else second)
  Preserves-if test first second = if_intro (Preserves P) test first second

  pub Preserves-throw : {A : Type 0} (response : Response) → Preserves P (throw {A = A} response)
  unfolding throw
  Preserves-throw response = record { after = λ w holds. holds }

  pub Preserves-pure : {A : Type 0} (result : A) → Preserves P (pure result)
  unfolding pure
  Preserves-pure result = record { after = λ w holds. holds }

  pub Preserves-bind :
      {A B : Type 0} (m : Exec S A) (f : A → Exec S B)
      → Preserves P m
      → ((a : A) → Preserves P (f a))
      → Preserves P (m >>= f)
  unfolding ◌>>=◌
  Preserves-bind {A} {B} m f km kf = record { after = λ w h. go (m w) (km.after w h) }
    where
      go : (r : Result A × World S) → P r.1 → P (resume f r).1
      go (ok a, w) h = (kf a).after w h
      go (thrown e, w) h = h
      go (failed n, w) h = h

  -- A bind whose continuation is only asked about results that `m` can return.
  pub Preserves-bind_yield :
      {A B : Type 0} (Q : A → Type 0) (m : Exec S A) (f : A → Exec S B)
      → Preserves P m
      → Yields Q m
      → ((a : A) → Q a → Preserves P (f a))
      → Preserves P (m >>= f)
  unfolding ◌>>=◌
  Preserves-bind_yield {A} {B} Q m f km ym kf = record {
    after = λ w h. go (m w) (km.after w h) (ym.at w);
  }
    where
      go : (r : Result A × World S) → P r.1 → Returned Q r.0 → P (resume f r).1
      go (ok a, w) h q = (kf a q).after w h
      go (thrown e, w) h q = h
      go (failed n, w) h q = h

  pub Preserves-then :
      {A B : Type 0} (m : Exec S A) (k : Exec S B)
      → Preserves P m
      → Preserves P k
      → Preserves P (m >> k)
  unfolding ◌>>◌
  Preserves-then m k km kk = Preserves-bind m (λ _. k) km (λ _. kk)

  pub Preserves-catch :
      {A : Type 0} (m : Exec S A) (handler : ℕ → Exec S A)
      → Preserves P m
      → ((n : ℕ) → Preserves P (handler n))
      → Preserves P (catch m handler)
  unfolding catch
  Preserves-catch {A} m handler km kh = record { after = λ w h. go (m w) (km.after w h) }
    where
      go : (r : Result A × World S) → P r.1 → P (recover handler r).1
      go (ok a, w) h = h
      go (thrown e, w) h = (kh 0).after w h
      go (failed n, w) h = (kh n).after w h

  module _ (frame : IsFramed P) where
    pub Preserves-query : {A : Type 0} (q : Query S A) → Preserves P (query q)
    unfolding query
    Preserves-query {A} q = record { after = λ w h. go w (q w.store) h }
      where
        go : (w : World S) (o : Option (A × S)) → P w → P (answered w o).1
        go w none h = h
        go w (some r) h = frame.on_store w r.1 h

    pub Preserves-write_log : (entry : LogEntry) → Preserves P (write_log entry)
    unfolding write_log
    Preserves-write_log entry = record { after = λ w h. frame.on_logs w (w.logs ++ entry ∷ []) h }

    pub Preserves-read_clock : (deps : Dependencies S) → Preserves P (read_clock deps)
    unfolding read_clock
    Preserves-read_clock deps = record { after = λ w h. frame.on_readings w (w.readings + 1) h }

    pub Preserves-random_capability : (deps : Dependencies S) → Preserves P (random_capability deps)
    unfolding random_capability
    Preserves-random_capability deps = record {
      after = λ w h. frame.on_challenges w (w.challenges + 1) h;
    }

pub ruleset preserving = (
  Preserves-pure, Preserves-throw, Preserves-if, Preserves-option, Preserves-bind, Preserves-then,
  Preserves-catch, Preserves-query, Preserves-write_log, Preserves-read_clock,
  Preserves-random_capability,
)
