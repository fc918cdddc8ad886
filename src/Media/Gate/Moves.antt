-- ===== src/Media/Gate/Moves.antt =====
-- The gate's operations and its invariant.
use sub_etha.Prelude.{
  ℕ, ◌<◌, ◌≡◌, refl, ap, Bool, true, false, ◌||◌, List, [], ◌∷◌, Option, none, some, ltb, find,
  arith, if_intro, holds,
}
use sub_etha.Media.Gate.{
  Refusal, Node, Gate, mem, has_id, without, ids, new_gate, pump, is_full, is_safe, acquire,
  is_active, release, close, dequeue, give_up, abort_node, Operation, acquires, releases, aborts,
  closes, perform, perform_all, amount,
}
use sub_etha.Media.Gate.Queue.{
  total, Ascends, after_first, Below, Apart, total-without, length-without, Ascends-bounds,
  Ascends-without, Apart-cons, Apart-without, Below-ids, mem-Descends, mem-append, Apart-missing,
}
use sub_etha.Media.Gate.Steady.{
  IsSteady, IsBusy, pump-IsSteady, pump-IsBusy, enqueue-IsSteady, new_gate-IsSteady,
}

-- A lease that is in hand is given back.
give_back-IsSteady :
    (i : ℕ) (g : Gate)
    → IsSteady g
    → mem i g.granted ≡ true
    → IsSteady (record g { released = i ∷ g.released })
unfolding Below mem
give_back-IsSteady i g s held = record {
  counted = s.counted;
  within_bytes = s.within_bytes;
  within_places = s.within_places;
  in_order = s.in_order;
  granted_in_order = s.granted_in_order;
  apart = Apart-cons i g.released (after_first g.granted) g.queue g.next earlier s.in_order s.apart;
  released_below = (
    omega (arith, earlier, Ascends-bounds (after_first g.granted) g.queue g.next s.in_order),
    s.released_below,
  );
  serial = λ j h k. s.serial j h (ground arith);
  stopped = s.stopped;
}
  where
    earlier : i < after_first g.granted
    earlier = mem-Descends i g.granted s.granted_in_order held

only_active :
    (i j : ℕ) (active : Option Node) (rel : List ℕ)
    → holds (has_id i) active ≡ true
    → holds (has_id j) active ≡ true
    → mem j (i ∷ rel) ≡ false
    → false ≡ true
unfolding mem
only_active i j none rel h k m = h
only_active i j (some n) rel h k m = ground arith

vacated-IsSteady :
    (i : ℕ) (g : Gate)
    → IsSteady (record g { released = i ∷ g.released })
    → is_active i g ≡ true
    → IsSteady (record g { released = i ∷ g.released; active = none })
vacated-IsSteady i g s a = record {
  counted = s.counted;
  within_bytes = s.within_bytes;
  within_places = s.within_places;
  in_order = s.in_order;
  granted_in_order = s.granted_in_order;
  apart = s.apart;
  released_below = s.released_below;
  serial = λ j h k. only_active i j g.active g.released a (s.serial j h k) k;
  stopped = s.stopped;
}

close-IsSteady : (g : Gate) → IsSteady g → IsSteady (close g)
unfolding close total Ascends Apart
close-IsSteady g s =
    if_intro IsSteady g.closed _ _ (λ _. s)
      (λ _. record {
        counted = refl;
        within_bytes = omega arith;
        within_places = omega arith;
        in_order = Ascends-bounds (after_first g.granted) g.queue g.next s.in_order;
        granted_in_order = s.granted_in_order;
        apart = tt;
        released_below =
            Below-ids (after_first g.granted) g.queue g.next g.released s.in_order s.released_below;
        serial = λ i h k. s.serial i h (mem-append i (ids g.queue) g.released k);
        stopped = λ h. refl;
      })

signalled-IsSteady :
    (i : ℕ) (g : Gate) → IsSteady g → IsSteady (record g { aborted = i ∷ g.aborted })
signalled-IsSteady i g s = record {
  counted = s.counted;
  within_bytes = s.within_bytes;
  within_places = s.within_places;
  in_order = s.in_order;
  granted_in_order = s.granted_in_order;
  apart = s.apart;
  released_below = s.released_below;
  serial = s.serial;
  stopped = s.stopped;
}

dequeued-IsSteady :
    (i : ℕ) (g : Gate)
    → IsSteady g
    → i < g.next
    → (o : Option Node) → find (has_id i) g.queue ≡ o
    → IsSteady (give_up i (dequeue i o g))
unfolding Below without
dequeued-IsSteady i g s made none e = record {
  counted = s.counted;
  within_bytes = s.within_bytes;
  within_places = s.within_places;
  in_order = s.in_order;
  granted_in_order = s.granted_in_order;
  apart = Apart-missing i g.released g.queue e s.apart;
  released_below = (made, s.released_below);
  serial = λ j h k. s.serial j h (mem-append j (i ∷ []) g.released k);
  stopped = s.stopped;
}
dequeued-IsSteady i g s made (some n) e = record {
  counted = omega (arith, s.counted, total-without i g.queue n e);
  within_bytes = omega (arith, s.within_bytes);
  within_places = omega (arith, s.within_places, length-without i g.queue);
  in_order = Ascends-without (after_first g.granted) i g.queue g.next s.in_order;
  granted_in_order = s.granted_in_order;
  apart = Apart-without i g.released (after_first g.granted) g.queue g.next s.in_order s.apart;
  released_below = (made, s.released_below);
  serial = λ j h k. s.serial j h (mem-append j (i ∷ []) g.released k);
  stopped = λ h. ap (without i) (s.stopped h);
}

abort_node-IsSteady : (i : ℕ) (g : Gate) → IsSteady g → i < g.next → IsSteady (abort_node i g)
unfolding abort_node
abort_node-IsSteady i g s made =
    if_intro IsSteady (mem i g.released) _ _ (λ _. s)
      (λ _.
        if_intro IsSteady (mem i g.granted) _ _ (λ _. signalled-IsSteady i g s)
          (λ _. dequeued-IsSteady i g s made (find (has_id i) g.queue) refl))

-- The invariant: the books are right, and nothing waits while nothing is active.
pub record IsSound (g : Gate) : Type 0 where
  pub steady : IsSteady g
  pub busy : IsBusy g

pumped : {g : Gate} → IsSteady g → IsSound (pump g)
pumped {g} s = record { steady = pump-IsSteady g s; busy = pump-IsBusy g s }

-- What `acquire` leaves is sound.
abbrev Leaves : Option Refusal × Gate → Type 0
Leaves r = IsSound r.1

acquire-IsSound :
    (reservation : Option ℕ) (is_aborted : Bool) (g : Gate)
    → IsSound g
    → IsSound (acquire reservation is_aborted g).1
unfolding acquire
acquire-IsSound reservation is_aborted g s =
    if_intro Leaves (is_safe reservation) _ _
      (λ _.
        if_intro Leaves (g.closed || is_aborted) _ _ (λ _. s)
          (λ running.
            if_intro Leaves (is_full (amount reservation) g) _ _ (λ _. s)
              (λ room.
                pumped (enqueue-IsSteady (amount reservation) g s.steady (ground arith) room))))
      (λ _. s)

release-IsSound : (i : ℕ) (g : Gate) → IsSound g → mem i g.granted ≡ true → IsSound (release i g)
unfolding release
release-IsSound i g s held =
    if_intro IsSound (mem i g.released) _ _ (λ _. s)
      (λ _.
        if_intro IsSound (is_active i g) _ _
          (λ a. pumped (vacated-IsSteady i g (give_back-IsSteady i g s.steady held) a))
          (λ _. record { steady = give_back-IsSteady i g s.steady held; busy = s.busy }))

close-IsBusy : (g : Gate) → IsBusy g → IsBusy (close g)
unfolding close
close-IsBusy g b = if_intro IsBusy g.closed _ _ (λ _. b) (λ _ h. refl)

abort_node-IsBusy : (i : ℕ) (g : Gate) → IsBusy g → IsBusy (abort_node i g)
unfolding abort_node without
abort_node-IsBusy i g b =
    if_intro IsBusy (mem i g.released) _ _ (λ _. b)
      (λ _.
        if_intro IsBusy (mem i g.granted) _ _ (λ _. b) (λ _. dequeued (find (has_id i) g.queue)))
  where
    dequeued : (o : Option Node) → IsBusy (give_up i (dequeue i o g))
    dequeued none = b
    dequeued (some n) = λ h. ap (without i) (b h)

-- Every operation keeps the invariant.
perform-IsSound : (o : Operation) (g : Gate) → IsSound g → IsSound (perform o g)
unfolding perform
perform-IsSound (acquires reservation is_aborted) g s = acquire-IsSound reservation is_aborted g s
perform-IsSound (releases i) g s =
    if_intro IsSound (mem i g.granted) _ _ (release-IsSound i g s) (λ _. s)
perform-IsSound (aborts i) g s =
    if_intro IsSound (ltb i g.next) _ _
      (λ lt. record {
        steady = abort_node-IsSteady i g s.steady (ground arith);
        busy = abort_node-IsBusy i g s.busy;
      })
      (λ _. s)
perform-IsSound closes g s = record {
  steady = close-IsSteady g s.steady;
  busy = close-IsBusy g s.busy;
}

kept : (os : List Operation) (g : Gate) → IsSound g → IsSound (perform_all os g)
unfolding perform_all
kept [] g s = s
kept (o ∷ os) g s = kept os (perform o g) (perform-IsSound o g s)

-- Whatever is asked of a new gate, in any order, its invariant holds: the bytes it counts are those
-- that wait, at most 256 MiB in at most three places; what waits, and what was granted, is in the
-- order of asking; a lease that is granted and not released is the active node's; and nothing waits
-- while nothing is active.
pub perform_all-IsSound : (os : List Operation) → IsSound (perform_all os new_gate)
perform_all-IsSound os = kept os new_gate (record { steady = new_gate-IsSteady; busy = λ h. refl })
