-- ===== src/Media/Gate/Steady.antt =====
-- What holds of the gate after each of its operations: the invariant, and the pump.
use sub_etha.Prelude.{
  ℕ, ◌-◌, ◌≤◌, ◌≡◌, refl, suc, Bool, true, false, ◌||◌, List, [], ◌∷◌, Option, none, some, ◌==◌,
  length, arith, if_no, is_some, length-append,
}
use sub_etha.Media.Gate.{
  Node, Gate, mem, max_media_operation_queue, max_queued_media_bytes, new_gate, start, pump,
  enqueue, is_full, is_active,
}
use sub_etha.Media.Gate.Queue.{
  total, Ascends, after_first, Descends, Below, Apart, total-enqueue, Ascends-enqueue,
  Apart-enqueue, mem-Below, Below-raise,
}

-- The gate's books are right: what waits is counted and bounded and is in the order of asking, and
-- a lease that is granted and not released is the active node's.
pub record IsSteady (g : Gate) : Type 0 where
  pub counted : g.queued_bytes ≡ total g.queue
  pub within_bytes : g.queued_bytes ≤ max_queued_media_bytes
  pub within_places : length g.queue ≤ max_media_operation_queue
  pub in_order : Ascends (after_first g.granted) g.queue g.next
  pub granted_in_order : Descends g.granted
  pub apart : Apart g.released g.queue
  pub released_below : Below g.next g.released
  pub serial : (i : ℕ) → mem i g.granted ≡ true → mem i g.released ≡ false → is_active i g ≡ true
  pub stopped : g.closed ≡ true → g.queue ≡ []

-- Nothing waits while nothing is active.
abbrev pub IsBusy : Gate → Type 0
IsBusy g = is_some g.active ≡ false → g.queue ≡ []

-- The gate with its first three fields apart.
abbrev with_state : Option Node → List Node → Bool → Gate → Gate
with_state active queue closed g = record g { active = active; queue = queue; closed = closed }

granted_active :
    (x y z : Bool) → (y ≡ true → z ≡ false → false ≡ true) → (x || y) ≡ true → z ≡ false → x ≡ true
granted_active true y z f h k = refl
granted_active false y z f h k = f h k

started-IsSteady :
    (n : Node) (queue : List Node) (g : Gate)
    → IsSteady (with_state none (n ∷ queue) false g)
    → IsSteady (record (with_state (some n) queue false g) {
      queued_bytes = g.queued_bytes - n.reservation_bytes;
      granted = n.id ∷ g.granted;
    })
unfolding total Ascends Descends Apart mem
started-IsSteady n queue g s = record {
  counted = omega (arith, s.counted);
  within_bytes = omega (arith, s.within_bytes);
  within_places = omega (arith, s.within_places);
  in_order = s.in_order.1;
  granted_in_order = (s.in_order.0, s.granted_in_order);
  apart = s.apart.1;
  released_below = s.released_below;
  serial =
      λ i h k. granted_active (n.id == i) (mem i g.granted) (mem i g.released) (s.serial i) h k;
  stopped = λ h. cc;
}

pumped-IsSteady :
    (active : Option Node) (queue : List Node) (closed : Bool) (g : Gate)
    → IsSteady (with_state active queue closed g)
    → IsSteady (pump (with_state active queue closed g))
unfolding pump start Apart
pumped-IsSteady (some n) queue closed g s = s
pumped-IsSteady none queue true g s = s
pumped-IsSteady none [] false g s = s
pumped-IsSteady none (n ∷ queue) false g s =
    if_no IsSteady (mem n.id g.released) _ _ s.apart.0 (started-IsSteady n queue g s)

pub pump-IsSteady : (g : Gate) → IsSteady g → IsSteady (pump g)
pump-IsSteady g s = pumped-IsSteady g.active g.queue g.closed g s

pumped-IsBusy :
    (active : Option Node) (queue : List Node) (closed : Bool) (g : Gate)
    → IsSteady (with_state active queue closed g)
    → IsBusy (pump (with_state active queue closed g))
unfolding pump start Apart
pumped-IsBusy (some n) queue closed g s = λ h. ground arith
pumped-IsBusy none queue true g s = λ h. s.stopped refl
pumped-IsBusy none [] false g s = λ h. refl
pumped-IsBusy none (n ∷ queue) false g s =
    if_no IsBusy (mem n.id g.released) _ _ s.apart.0 (λ h. ground arith)

pub pump-IsBusy : (g : Gate) → IsSteady g → IsBusy (pump g)
pump-IsBusy g s = pumped-IsBusy g.active g.queue g.closed g s

pub new_gate-IsSteady : IsSteady new_gate
unfolding total Ascends Descends Apart Below mem
new_gate-IsSteady = record {
  counted = refl;
  within_bytes = omega arith;
  within_places = omega arith;
  in_order = omega arith;
  granted_in_order = tt;
  apart = tt;
  released_below = tt;
  serial = λ i h k. h;
  stopped = λ h. refl;
}

pub enqueue-IsSteady :
    (bytes : ℕ) (g : Gate)
    → IsSteady g
    → g.closed ≡ false
    → is_full bytes g ≡ false
    → IsSteady (enqueue bytes g)
enqueue-IsSteady bytes g s running room = record {
  counted =
      omega (
        arith,
        s.counted,
        total-enqueue g.queue (record { id = g.next; reservation_bytes = bytes }),
      );
  within_bytes = ground arith;
  within_places =
      ground
        (arith, length-append g.queue (record { id = g.next; reservation_bytes = bytes } ∷ []));
  in_order = Ascends-enqueue (after_first g.granted) g.queue g.next bytes s.in_order;
  granted_in_order = s.granted_in_order;
  apart = Apart-enqueue g.released g.queue _ s.apart (mem-Below g.next g.released s.released_below);
  released_below = Below-raise g.next (suc g.next) g.released (omega arith) s.released_below;
  serial = s.serial;
  stopped = λ h. ground arith;
}
