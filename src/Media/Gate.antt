-- ===== src/Media/Gate.antt =====
-- `MediaOperationGate` of lib/matrix/media.ts. A node is known by the number of the call of `acquire`
-- that made it; `released` has the nodes whose flag is set, `granted` and `rejected` the nodes whose
-- promise is settled, and `aborted` those whose controller is aborted, each with the latest first.
pub mod Queue
pub mod Steady
pub mod Moves
pub mod Serial
pub mod Tests
use sub_etha.Prelude.{
  ℕ, ◌+◌, ◌-◌, ◌*◌, suc, Bool, true, false, ◌||◌, List, [], ◌∷◌, ◌++◌, Option, none, some,
  if◌then◌else◌, ltb, leb, ◌==◌, length, any, find, map, is_some, holds,
}

abbrev pub max_media_operation_queue : ℕ
max_media_operation_queue = 3

abbrev pub max_media_operation_capacity : ℕ
max_media_operation_capacity = 4

abbrev pub max_queued_media_bytes : ℕ
max_queued_media_bytes = 256 * 1024 * 1024

abbrev pub max_safe_integer : ℕ
max_safe_integer = 9007199254740991

pub record Node : Type 0 where
  pub id : ℕ
  pub reservation_bytes : ℕ

pub record Gate : Type 0 where
  pub active : Option Node
  pub queue : List Node
  pub queued_bytes : ℕ
  pub closed : Bool
  pub next : ℕ  -- the number of the next node
  pub released : List ℕ
  pub granted : List ℕ
  pub rejected : List ℕ
  pub aborted : List ℕ

pub data Refusal : Type 0 where
  invalid_reservation refused busy : Refusal

abbrev pub new_gate : Gate
new_gate = record {
  active = none;
  queue = [];
  queued_bytes = 0;
  closed = false;
  next = 0;
  released = [];
  granted = [];
  rejected = [];
  aborted = [];
}

unfoldable pub mem : ℕ → List ℕ → Bool
mem i [] = false
mem i (j ∷ js) = (j == i) || mem i js

abbrev pub has_id : ℕ → Node → Bool
has_id i n = n.id == i

abbrev pub ids : List Node → List ℕ
ids = map (λ n. n.id)

-- `node.start`
unfoldable pub start : Node → Gate → Gate
start node g =
    if g.closed || mem node.id g.released
    then g
    else record g { active = some node; granted = node.id ∷ g.granted }

abbrev pub start_first : List Node → Gate → Gate
start_first [] g = g
start_first (node ∷ queue) g =
    start node (record g { queue = queue; queued_bytes = g.queued_bytes - node.reservation_bytes })

unfoldable pub pump : Gate → Gate
pump g = if is_some g.active || g.closed then g else start_first g.queue g

abbrev pub enqueue : ℕ → Gate → Gate
enqueue bytes g = record g {
  queue = g.queue ++ record { id = g.next; reservation_bytes = bytes } ∷ [];
  queued_bytes = g.queued_bytes + bytes;
  next = suc g.next;
}

abbrev pub occupied : Option Node → ℕ
occupied none = 0
occupied (some n) = 1

abbrev pub is_full : ℕ → Gate → Bool
is_full bytes g =
    leb max_media_operation_capacity (length g.queue + occupied g.active)
    || leb max_media_operation_queue (length g.queue)
    || ltb max_queued_media_bytes (g.queued_bytes + bytes)

-- `isSafeNonNegativeInteger`: `none` is a number that is not one of ℕ.
abbrev pub is_safe : Option ℕ → Bool
is_safe = holds (λ n. leb n max_safe_integer)

abbrev amount : Option ℕ → ℕ
amount none = 0
amount (some n) = n

-- `acquire`, with whether the caller's signal is aborted: the refusal, if it is refused at once.
unfoldable pub acquire : Option ℕ → Bool → Gate → Option Refusal × Gate
acquire reservation is_aborted g =
    if is_safe reservation
    then if g.closed || is_aborted
      then (some Refusal.refused, g)
      else if is_full (amount reservation) g
      then (some Refusal.busy, g)
      else (none, pump (enqueue (amount reservation) g))
    else (some Refusal.invalid_reservation, g)

abbrev pub is_active : ℕ → Gate → Bool
is_active i g = holds (has_id i) g.active

abbrev pub vacate : ℕ → Gate → Gate
vacate i g = if is_active i g then pump (record g { active = none }) else g

-- `lease.release`
unfoldable pub release : ℕ → Gate → Gate
release i g = if mem i g.released then g else vacate i (record g { released = i ∷ g.released })

abbrev pub active_ids : Option Node → List ℕ
active_ids none = []
active_ids (some n) = n.id ∷ []

unfoldable pub close : Gate → Gate
close g = if g.closed then g else record g {
  closed = true;
  queue = [];
  queued_bytes = 0;
  released = ids g.queue ++ g.released;
  rejected = ids g.queue ++ g.rejected;
  aborted = active_ids g.active ++ g.aborted;
}

-- `queue.splice(index, 1)` at the first node with the number.
unfoldable pub without : ℕ → List Node → List Node
without i [] = []
without i (n ∷ ns) = if n.id == i then ns else n ∷ without i ns

abbrev pub dequeue : ℕ → Option Node → Gate → Gate
dequeue i none g = g
dequeue i (some n) g = record g {
  queue = without i g.queue;
  queued_bytes = g.queued_bytes - n.reservation_bytes;
}

abbrev pub give_up : ℕ → Gate → Gate
give_up i g = record g { released = i ∷ g.released; rejected = i ∷ g.rejected }

-- A node is queued until it is granted.
unfoldable pub abort_node : ℕ → Gate → Gate
abort_node i g =
    if mem i g.released
    then g
    else if mem i g.granted
    then record g { aborted = i ∷ g.aborted }
    else give_up i (dequeue i (find (has_id i) g.queue) g)

-- What the holders of the gate, of its signals and of its leases can do.
pub data Operation : Type 0 where
  acquires : Option ℕ → Bool → Operation
  releases : ℕ → Operation
  aborts : ℕ → Operation
  closes : Operation

-- A lease is in hand once it is granted, and a signal belongs to a node once it is made.
unfoldable pub perform : Operation → Gate → Gate
perform (acquires reservation is_aborted) g = (acquire reservation is_aborted g).1
perform (releases i) g = if mem i g.granted then release i g else g
perform (aborts i) g = if ltb i g.next then abort_node i g else g
perform closes g = close g

unfoldable pub perform_all : List Operation → Gate → Gate
perform_all [] g = g
perform_all (o ∷ os) g = perform_all os (perform o g)
