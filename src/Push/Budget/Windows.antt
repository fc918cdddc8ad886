-- ===== src/Push/Budget/Windows.antt =====
-- What the counters of `consume_rate_limit` and `consume_global_rate_limit` admit over a sequence of
-- requests.
use sub_etha.Prelude.{
  ℕ, ◌+◌, ◌-◌, ◌*◌, ◌≤◌, ◌<◌, min, Text, ◌≡◌, refl, ◌∙◌, List, [], ◌∷◌, none, some, leb, find,
  text_eq, length, All, if◌then◌else◌, arith, find-update_where, find_sound,
}
use sub_etha.Push.Tables.{PushSubscription, RateBudget, Database}
use sub_etha.Push.Budget.{
  Counter, tick, subscription_counter, budget_counter, charge_subscription, charge_budget,
  consume_rate_limit, consume_global_rate_limit,
}

-- The requests admitted by one counter, at the times of the list.
admitted : ℕ → ℕ → List ℕ → Counter → ℕ
admitted window limit [] c = 0
admitted window limit (t ∷ ts) c =
    (if leb (tick t window c).count limit then 1 else 0)
    + admitted window limit ts (tick t window c)

abbrev pub Inside : ℕ → ℕ → ℕ → Type 0
Inside lo window t = (lo ≤ t) × (t < lo + window)

-- From the later start of a new window, the span ends before the window does.
All-later :
    (lo window t : ℕ) (ts : List ℕ)
    → lo ≤ t
    → All (Inside lo window) ts
    → All (λ u. u < t + window) ts
All-later lo window t [] h k = tt
All-later lo window t (u ∷ ts) h k = (omega arith, All-later lo window t ts h k.1)

module _ (window limit : ℕ) where
  -- While the window stands, exactly the room that is left is given out.
  admitted_in_window :
      (ts : List ℕ) (c : Counter)
      → All (λ t. t < c.window_start + window) ts
      → admitted window limit ts c ≡ min (length ts) (limit - c.count)
  unfolding admitted tick
  admitted_in_window [] c h = omega arith
  admitted_in_window (t ∷ ts) c h =
      ground (arith, admitted_in_window ts (record c { count = c.count + 1 }))

  admitted_bound :
      (lo : ℕ) (ts : List ℕ) (c : Counter)
      → All (Inside lo window) ts
      → admitted window limit ts c ≤ (limit - c.count) + limit
  unfolding admitted tick
  admitted_bound lo [] c h = omega arith
  admitted_bound lo (t ∷ ts) c h = ground (
    arith,
    admitted_bound lo ts (record c { count = c.count + 1 }) h.1,
    admitted_in_window ts (record { window_start = t; count = 1 }),
    All-later lo window t ts h.0.0 h.1,
  )

-- The requests that `consume_rate_limit` admits, one after the other.
unfoldable pub grants : Text → ℕ → ℕ → List ℕ → Database → ℕ
grants key window limit [] db = 0
grants key window limit (t ∷ ts) db =
    let (allowed, db') = consume_rate_limit key t window limit db in
    (if allowed then 1 else 0) + grants key window limit ts db'

grants-eq-admitted :
    (key : Text) (window limit : ℕ) (ts : List ℕ) (db : Database) (s : PushSubscription)
    → find (λ r. text_eq r.push_key_hash key) db.subscriptions ≡ some s
    → grants key window limit ts db ≡ admitted window limit ts (subscription_counter s)
unfolding grants admitted consume_rate_limit
grants-eq-admitted key window limit [] db s e = refl
grants-eq-admitted key window limit (t ∷ ts) db s e = ground (
  arith,
  find_sound (λ (r : PushSubscription). text_eq r.push_key_hash key) db.subscriptions s,
  find-update_where (λ (r : PushSubscription). text_eq r.push_key_hash key)
      (λ r. text_eq r.push_key_hash key) (charge_subscription t window) db.subscriptions
      (λ r. refl),
  grants-eq-admitted key window limit ts (consume_rate_limit key t window limit db).1
      (charge_subscription t window s),
)

-- While a subscription's window stands, `consumeRateLimit` admits exactly the requests that its
-- limit has room for, whatever the order of their times.
pub grants_in_window :
    (key : Text) (window limit : ℕ) (ts : List ℕ) (db : Database) (s : PushSubscription)
    → find (λ r. text_eq r.push_key_hash key) db.subscriptions ≡ some s
    → All (λ t. t < s.rate_window_start + window) ts
    → grants key window limit ts db ≡ min (length ts) (limit - s.rate_count)
grants_in_window key window limit ts db s e h =
    grants-eq-admitted key window limit ts db s e
    ∙ admitted_in_window window limit ts (subscription_counter s) h

-- In any span of time as long as the window, `consumeRateLimit` admits at most twice its limit for a
-- subscription, from any state of its row and whatever the order of the times in the span.
pub grants_bound :
    (key : Text) (window limit lo : ℕ) (ts : List ℕ) (db : Database) (s : PushSubscription)
    → find (λ r. text_eq r.push_key_hash key) db.subscriptions ≡ some s
    → All (Inside lo window) ts
    → grants key window limit ts db ≤ 2 * limit
grants_bound key window limit lo ts db s e h = omega (
  arith,
  grants-eq-admitted key window limit ts db s e,
  admitted_bound window limit lo ts (subscription_counter s) h,
)

-- A key with no row is admitted nothing.
pub grants_missing :
    (key : Text) (window limit : ℕ) (ts : List ℕ) (db : Database)
    → find (λ r. text_eq r.push_key_hash key) db.subscriptions ≡ none
    → grants key window limit ts db ≡ 0
unfolding grants consume_rate_limit
grants_missing key window limit [] db e = refl
grants_missing key window limit (t ∷ ts) db e = ground (
  arith,
  find-update_where (λ (r : PushSubscription). text_eq r.push_key_hash key)
      (λ r. text_eq r.push_key_hash key) (charge_subscription t window) db.subscriptions
      (λ r. refl),
  grants_missing key window limit ts (consume_rate_limit key t window limit db).1,
)

-- The requests that `consume_global_rate_limit` admits, one after the other.
unfoldable pub global_grants : Text → ℕ → ℕ → List ℕ → Database → ℕ
global_grants bucket window limit [] db = 0
global_grants bucket window limit (t ∷ ts) db =
    let (allowed, db') = consume_global_rate_limit bucket t window limit db in
    (if allowed then 1 else 0) + global_grants bucket window limit ts db'

global_grants-eq-admitted :
    (bucket : Text) (window limit : ℕ) (ts : List ℕ) (db : Database) (b : RateBudget)
    → find (λ r. text_eq r.name bucket) db.budgets ≡ some b
    → global_grants bucket window limit ts db ≡ admitted window limit ts (budget_counter b)
unfolding global_grants admitted consume_global_rate_limit
global_grants-eq-admitted bucket window limit [] db b e = refl
global_grants-eq-admitted bucket window limit (t ∷ ts) db b e = ground (
  arith,
  find_sound (λ (r : RateBudget). text_eq r.name bucket) db.budgets b,
  find-update_where (λ (r : RateBudget). text_eq r.name bucket) (λ r. text_eq r.name bucket)
      (charge_budget t window) db.budgets (λ r. refl),
  global_grants-eq-admitted bucket window limit ts
      (consume_global_rate_limit bucket t window limit db).1 (charge_budget t window b),
)

-- In any span of time as long as the window, `consumeGlobalRateLimit` admits at most twice its limit
-- for a budget that has a row, whatever the order of the times in the span.
pub global_grants_bound :
    (bucket : Text) (window limit lo : ℕ) (ts : List ℕ) (db : Database) (b : RateBudget)
    → find (λ r. text_eq r.name bucket) db.budgets ≡ some b
    → All (Inside lo window) ts
    → global_grants bucket window limit ts db ≤ 2 * limit
global_grants_bound bucket window limit lo ts db b e h = omega (
  arith,
  global_grants-eq-admitted bucket window limit ts db b e,
  admitted_bound window limit lo ts (budget_counter b) h,
)
