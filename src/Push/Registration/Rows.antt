-- ===== src/Push/Registration/Rows.antt =====
-- The rows of `push_subscriptions` under the changes of `sub_etha.Push.Registration`: the three unique
-- columns of a subscription's row.
use sub_etha.Prelude.{
  ℕ, ◌≡◌, refl, Text, text_eq, text_eq_iff, text_eq_comm, Bool, true, false, ◌||◌, List, ◌∷◌,
  Option, none, some, any, filter_by, update_where, arith, Keyed, Keyed-filter_by,
  Keyed-update_where, Keyed-replace, any-implied, any-or,
}
use sub_etha.Push.Tables.{PushSubscription}
use sub_etha.Push.Registration.{Registration, manager_eq, has_key, clashes, reassign}
use sub_etha.Push.Registration.Confirm.{new_subscription}

abbrev pub same_key : PushSubscription → PushSubscription → Bool
same_key s t = text_eq s.push_key_hash t.push_key_hash

abbrev pub same_endpoint : PushSubscription → PushSubscription → Bool
same_endpoint s t = text_eq s.endpoint t.endpoint

abbrev pub same_manager : PushSubscription → PushSubscription → Bool
same_manager s t = manager_eq s.management_key_hash t.management_key_hash

-- The primary key and the two unique indexes.
pub record IsUnique (subs : List PushSubscription) : Type 0 where
  pub keys : Keyed same_key subs
  pub endpoints : Keyed same_endpoint subs
  pub managers : Keyed same_manager subs

pub manager_eq_comm : (m n : Option Text) → manager_eq m n ≡ manager_eq n m
unfolding manager_eq
manager_eq_comm none none = refl
manager_eq_comm none (some n) = refl
manager_eq_comm (some m) none = refl
manager_eq_comm (some m) (some n) = text_eq_comm m n

pub IsUnique-filter_by :
    (p : PushSubscription → Bool) (subs : List PushSubscription)
    → IsUnique subs
    → IsUnique (filter_by p subs)
IsUnique-filter_by p subs h = record {
  keys = Keyed-filter_by same_key p subs h.keys;
  endpoints = Keyed-filter_by same_endpoint p subs h.endpoints;
  managers = Keyed-filter_by same_manager p subs h.managers;
}

module _ (r : Registration) (now : ℕ) where
  abbrev mine : PushSubscription → Bool
  mine = has_key r.delivery_key_hash

  abbrev clash : PushSubscription → Bool
  clash = clashes r.delivery_key_hash r.management_key_hash r.endpoint

  mine-one : (s t : PushSubscription) → mine s ≡ true → mine t ≡ true → same_key s t ≡ true
  mine-one s t h k = ground (
    arith,
    text_eq_iff s.push_key_hash r.delivery_key_hash,
    text_eq_iff t.push_key_hash r.delivery_key_hash,
    text_eq_iff s.push_key_hash t.push_key_hash,
  )

  pub IsUnique-reassign :
      (subs : List PushSubscription)
      → any clash subs ≡ false
      → IsUnique subs
      → IsUnique (update_where mine (reassign r now) subs)
  unfolding clashes
  IsUnique-reassign subs c h = record {
    keys =
        Keyed-update_where same_key mine (reassign r now) subs (λ s t. refl) (λ s t. refl) h.keys;
    endpoints =
        Keyed-replace same_endpoint same_key mine clash (reassign r now) mine-one
          (λ s t away free. ground arith)
          (λ s t h. ground (arith, text_eq_comm r.endpoint t.endpoint)) subs c h.keys h.endpoints;
    managers =
        Keyed-replace same_manager same_key mine clash (reassign r now) mine-one
          (λ s t away free. ground arith)
          (λ s t h.
            ground (arith, manager_eq_comm (some r.management_key_hash) t.management_key_hash))
          subs c h.keys h.managers;
  }

  pub IsUnique-new :
      (subs : List PushSubscription)
      → any clash subs ≡ false
      → any mine subs ≡ false
      → IsUnique subs
      → IsUnique (new_subscription r now ∷ subs)
  unfolding clashes
  IsUnique-new subs c fresh h = record {
    keys = (
      any-implied (same_key (new_subscription r now)) mine subs
          (λ s k. ground (arith, text_eq_comm r.delivery_key_hash s.push_key_hash)) fresh,
      h.keys,
    );
    endpoints = (
      any-implied (same_endpoint (new_subscription r now)) (λ s. clash s || mine s) subs
          (λ s k. ground (arith, text_eq_comm r.endpoint s.endpoint))
          (any-or clash mine subs c fresh),
      h.endpoints,
    );
    managers = (
      any-implied (same_manager (new_subscription r now)) (λ s. clash s || mine s) subs
          (λ s k.
            ground (arith, manager_eq_comm (some r.management_key_hash) s.management_key_hash))
          (any-or clash mine subs c fresh),
      h.managers,
    );
  }
