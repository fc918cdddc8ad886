-- ===== src/Media/Gate/Serial.antt =====
-- The gate's leases over any operations, before and after it closes.
use sub_etha.Prelude.{
  ℕ, ◌≡◌, refl, sym, subst, true, false, ◌||◌, List, [], ◌∷◌, Option, none, some, ltb, holds, arith,
  if_intro, if_yes, is_some, find, Bool,
}
use sub_etha.Media.Gate.{
  Node, Gate, Refusal, mem, has_id, new_gate, pump, is_safe, acquire, is_active, release, close,
  dequeue, give_up, abort_node, Operation, acquires, releases, aborts, closes, perform, perform_all,
}
use sub_etha.Media.Gate.Moves.{IsSound, perform_all-IsSound}

same_active :
    (i j : ℕ) (active : Option Node)
    → holds (has_id i) active ≡ true
    → holds (has_id j) active ≡ true
    → i ≡ j
same_active i j none h k = ground arith
same_active i j (some n) h k = ground arith

-- Whatever was asked of a new gate, in any order, two leases that are granted and not released are
-- one: no two media operations run at a time.
pub one_at_a_time :
    (os : List Operation) (i j : ℕ)
    → mem i (perform_all os new_gate).granted ≡ true
    → mem i (perform_all os new_gate).released ≡ false
    → mem j (perform_all os new_gate).granted ≡ true
    → mem j (perform_all os new_gate).released ≡ false
    → i ≡ j
one_at_a_time os i j gi ri gj rj =
    same_active i j (perform_all os new_gate).active (s.steady.serial i gi ri)
      (s.steady.serial j gj rj)
  where
    s : IsSound (perform_all os new_gate)
    s = perform_all-IsSound os

-- `g'` is closed and has granted what `g` has.
abbrev Shut : Gate → Gate → Type 0
Shut g g' = (g'.closed ≡ true) × (g'.granted ≡ g.granted)

pump_closed : (g g' : Gate) → Shut g g' → Shut g (pump g')
unfolding pump
pump_closed g g' h = if_yes (Shut g) (is_some g'.active || g'.closed) _ _ (ground (arith, h.0)) h

acquire_closed :
    (reservation : Option ℕ) (is_aborted : Bool) (g : Gate)
    → g.closed ≡ true
    → (acquire reservation is_aborted g).1 ≡ g
unfolding acquire
acquire_closed reservation is_aborted g shut =
    if_intro (λ (r : Option Refusal × Gate). r.1 ≡ g) (is_safe reservation) _ _
      (λ _.
        if_yes (λ (r : Option Refusal × Gate). r.1 ≡ g) (g.closed || is_aborted) _ _ (ground arith)
          refl)
      (λ _. refl)

release_closed : (i : ℕ) (g g' : Gate) → Shut g g' → Shut g (release i g')
unfolding release
release_closed i g g' h =
    if_intro (Shut g) (mem i g'.released) _ _ (λ _. h)
      (λ _.
        if_intro (Shut g) (is_active i g') _ _
          (λ _. pump_closed g (record g' { released = i ∷ g'.released; active = none }) h) (λ _. h))

abort_closed : (i : ℕ) (g g' : Gate) → Shut g g' → Shut g (abort_node i g')
unfolding abort_node
abort_closed i g g' h =
    if_intro (Shut g) (mem i g'.released) _ _ (λ _. h)
      (λ _.
        if_intro (Shut g) (mem i g'.granted) _ _ (λ _. h)
          (λ _. dequeued (find (has_id i) g'.queue)))
  where
    dequeued : (o : Option Node) → Shut g (give_up i (dequeue i o g'))
    dequeued none = h
    dequeued (some n) = h

perform_closed : (o : Operation) (g g' : Gate) → Shut g g' → Shut g (perform o g')
unfolding perform close
perform_closed (acquires reservation is_aborted) g g' h =
    subst (Shut g) (sym (acquire_closed reservation is_aborted g' h.0)) h
perform_closed (releases i) g g' h =
    if_intro (Shut g) (mem i g'.granted) _ _ (λ _. release_closed i g g' h) (λ _. h)
perform_closed (aborts i) g g' h =
    if_intro (Shut g) (ltb i g'.next) _ _ (λ _. abort_closed i g g' h) (λ _. h)
perform_closed closes g g' h = if_yes (Shut g) g'.closed _ _ h.0 h

-- A gate that is closed stays closed over any operations, and grants no lease.
pub closed_is_final :
    (os : List Operation) (g : Gate)
    → g.closed ≡ true
    → ((perform_all os g).closed ≡ true) × ((perform_all os g).granted ≡ g.granted)
unfolding perform_all
closed_is_final os g shut = go os g (shut, refl)
  where
    go : (os : List Operation) (g' : Gate) → Shut g g' → Shut g (perform_all os g')
    go [] g' h = h
    go (o ∷ os) g' h = go os (perform o g') (perform_closed o g g' h)
