-- ===== src/Push/Budget.antt =====
-- The fixed-window counters of lib/push-repository.ts: `consumeRateLimit` on a subscription's row and
-- `consumeGlobalRateLimit` on a named budget. The two columns of a counter are updated by one rule.
-- `x <= now - window` is written `x + window ≤ now`: the source's numbers may be negative there.
pub mod Windows
use sub_etha.Prelude.{
  ℕ, ◌+◌, Text, Bool, false, List, [], ◌∷◌, Option, none, some, leb, text_eq, find, update_where,
  if◌then◌else◌,
}
use sub_etha.Push.Tables.{PushSubscription, RateBudget, Database}

pub record Counter : Type 0 where
  pub window_start : ℕ
  pub count : ℕ

-- The two `CASE` expressions: a counter whose window has passed starts again at `now`.
unfoldable pub tick : ℕ → ℕ → Counter → Counter
tick now window c =
    if leb (c.window_start + window) now
    then record { window_start = now; count = 1 }
    else record c { count = c.count + 1 }

abbrev pub subscription_counter : PushSubscription → Counter
subscription_counter s = record { window_start = s.rate_window_start; count = s.rate_count }

abbrev pub budget_counter : RateBudget → Counter
budget_counter b = record { window_start = b.window_start; count = b.request_count }

abbrev pub charge_subscription : ℕ → ℕ → PushSubscription → PushSubscription
charge_subscription now window s =
    let c = tick now window (subscription_counter s) in
    record s { rate_window_start = c.window_start; rate_count = c.count }

abbrev pub charge_budget : ℕ → ℕ → RateBudget → RateBudget
charge_budget now window b =
    let c = tick now window (budget_counter b) in
    record b { window_start = c.window_start; request_count = c.count }

-- `Number(result?.rateCount ?? limit + 1) <= limit`
abbrev pub within : Option ℕ → ℕ → Bool
within none limit = leb (limit + 1) limit
within (some count) limit = leb count limit

abbrev pub returned_count : ℕ → ℕ → Option PushSubscription → Option ℕ
returned_count now window none = none
returned_count now window (some s) = some (charge_subscription now window s).rate_count

abbrev pub returned_budget : ℕ → ℕ → Option RateBudget → Option ℕ
returned_budget now window none = none
returned_budget now window (some b) = some (charge_budget now window b).request_count

unfoldable pub consume_rate_limit : Text → ℕ → ℕ → ℕ → Database → Bool × Database
consume_rate_limit key now window limit db =
    let mine = λ (s : PushSubscription). text_eq s.push_key_hash key in
    (
      within (returned_count now window (find mine db.subscriptions)) limit,
      record db {
        subscriptions = update_where mine (charge_subscription now window) db.subscriptions;
      },
    )

unfoldable pub consume_global_rate_limit : Text → ℕ → ℕ → ℕ → Database → Bool × Database
consume_global_rate_limit bucket now window limit db =
    let mine = λ (b : RateBudget). text_eq b.name bucket in
    (
      within (returned_budget now window (find mine db.budgets)) limit,
      record db { budgets = update_where mine (charge_budget now window) db.budgets },
    )
