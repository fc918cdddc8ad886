-- ===== src/Push/Cleanup.antt =====
-- `cleanupSubscriptions` of lib/push-repository.ts, with the SQL function
-- `subetha_cleanup_push_subscriptions`. The database's order of texts is a parameter; a cutoff is the
-- pair of the time and the age, for `updated_at <= now - age`.
use sub_etha.Prelude.{
  ℕ, ◌+◌, Text, Bool, ◌&&◌, ◌||◌, not, List, [], ◌∷◌, leb, ltb, ◌==◌, any, filter_by, take, length,
  if◌then◌else◌,
}
use sub_etha.Push.Tables.{PushSubscription, Database}
use sub_etha.Push.Registration.{has_key, delete_subscriptions}

abbrev pub is_stale_subscription : ℕ → ℕ → PushSubscription → Bool
is_stale_subscription now age s = leb (s.updated_at + age) now

module _ (collates : Text → Text → Bool) where
  -- `ORDER BY "updated_at", "push_key_hash"`
  abbrev pub precedes : PushSubscription → PushSubscription → Bool
  precedes s t =
      ltb s.updated_at t.updated_at
      || (s.updated_at == t.updated_at && collates s.push_key_hash t.push_key_hash)

  unfoldable pub insert : PushSubscription → List PushSubscription → List PushSubscription
  insert s [] = s ∷ []
  insert s (t ∷ ts) = if precedes s t then s ∷ t ∷ ts else t ∷ insert s ts

  unfoldable pub sort : List PushSubscription → List PushSubscription
  unfolding insert
  sort [] = []
  sort (s ∷ ss) = insert s (sort ss)

  unfoldable pub stalest : ℕ → ℕ → ℕ → Database → List PushSubscription
  unfolding sort
  stalest now age limit db =
      take limit (sort (filter_by (is_stale_subscription now age) db.subscriptions))

  unfoldable pub cleanup_subscriptions : ℕ → ℕ → ℕ → Database → ℕ × Database
  unfolding stalest delete_subscriptions
  cleanup_subscriptions now age limit db =
      let chosen = stalest now age limit db in
      let is_chosen = λ (key : Text). any (has_key key) chosen in
      let removed = λ (s : PushSubscription). is_chosen s.push_key_hash in
      (
        length (filter_by removed db.subscriptions),
        delete_subscriptions removed (record db {
          deliveries = filter_by (λ d. not (is_chosen d.push_key_hash)) db.deliveries;
        }),
      )
