-- ===== src/Media/Gate/Queue.antt =====
-- The gate's queue: the bytes it reserves and the order of its nodes.
use sub_etha.Prelude.{
  ℕ, ◌+◌, ◌≤◌, ◌<◌, ◌≡◌, refl, suc, true, false, List, [], ◌∷◌, ◌++◌, none, some, ◌==◌, length,
  find, arith, if_intro,
}
use sub_etha.Media.Gate.{Node, mem, has_id, without, ids}

-- The bytes that the nodes reserve.
unfoldable pub total : List Node → ℕ
total [] = 0
total (n ∷ ns) = n.reservation_bytes + total ns

-- The nodes' numbers ascend, from `lo` on and below `hi`.
unfoldable pub Ascends : ℕ → List Node → ℕ → Type 0
Ascends lo [] hi = lo ≤ hi
Ascends lo (n ∷ ns) hi = lo ≤ n.id × Ascends (suc n.id) ns hi

-- One more than the first number, 0 without one.
abbrev pub after_first : List ℕ → ℕ
after_first [] = 0
after_first (i ∷ is) = suc i

-- The numbers descend.
unfoldable pub Descends : List ℕ → Type 0
Descends [] = Unit
Descends (i ∷ is) = after_first is ≤ i × Descends is

-- All are below a number.
unfoldable pub Below : ℕ → List ℕ → Type 0
Below n [] = Unit
Below n (i ∷ is) = i < n × Below n is

-- None of the nodes is among the numbers.
unfoldable pub Apart : List ℕ → List Node → Type 0
Apart is [] = Unit
Apart is (n ∷ ns) = (mem n.id is ≡ false) × Apart is ns

pub total-enqueue :
    (ns : List Node) (n : Node) → total (ns ++ n ∷ []) ≡ total ns + n.reservation_bytes
unfolding total
total-enqueue [] n = omega arith
total-enqueue (m ∷ ms) n = omega (arith, total-enqueue ms n)

pub total-without :
    (i : ℕ) (ns : List Node) (n : Node)
    → find (has_id i) ns ≡ some n
    → total ns ≡ n.reservation_bytes + total (without i ns)
unfolding total without
total-without i [] n h = ground arith
total-without i (m ∷ ms) n h = ground (arith, total-without i ms n)

pub length-without : (i : ℕ) (ns : List Node) → length (without i ns) ≤ length ns
unfolding without
length-without i [] = omega arith
length-without i (m ∷ ms) = ground (arith, length-without i ms)

pub Ascends-enqueue :
    (lo : ℕ) (ns : List Node) (hi bytes : ℕ)
    → Ascends lo ns hi
    → Ascends lo (ns ++ record { id = hi; reservation_bytes = bytes } ∷ []) (suc hi)
unfolding Ascends
Ascends-enqueue lo [] hi bytes h = (h, omega arith)
Ascends-enqueue lo (n ∷ ns) hi bytes h = (h.0, Ascends-enqueue (suc n.id) ns hi bytes h.1)

pub Ascends-lower :
    (lo lo' : ℕ) (ns : List Node) (hi : ℕ) → lo ≤ lo' → Ascends lo' ns hi → Ascends lo ns hi
unfolding Ascends
Ascends-lower lo lo' [] hi le h = omega arith
Ascends-lower lo lo' (n ∷ ns) hi le h = (omega (arith, h.0), h.1)

pub Ascends-bounds : (lo : ℕ) (ns : List Node) (hi : ℕ) → Ascends lo ns hi → lo ≤ hi
unfolding Ascends
Ascends-bounds lo [] hi h = h
Ascends-bounds lo (n ∷ ns) hi h = omega (arith, h.0, Ascends-bounds (suc n.id) ns hi h.1)

pub Ascends-without :
    (lo i : ℕ) (ns : List Node) (hi : ℕ) → Ascends lo ns hi → Ascends lo (without i ns) hi
unfolding Ascends without
Ascends-without lo i [] hi h = h
Ascends-without lo i (n ∷ ns) hi h =
    if_intro (λ ms. Ascends lo ms hi) (n.id == i) ns (n ∷ without i ns)
      (λ _. Ascends-lower lo (suc n.id) ns hi (omega (arith, h.0)) h.1)
      (λ _. (h.0, Ascends-without (suc n.id) i ns hi h.1))

-- A number below the nodes is none of theirs.
pub Apart-cons :
    (i : ℕ) (is : List ℕ) (lo : ℕ) (ns : List Node) (hi : ℕ)
    → i < lo
    → Ascends lo ns hi
    → Apart is ns
    → Apart (i ∷ is) ns
unfolding Ascends Apart mem
Apart-cons i is lo [] hi lt h k = tt
Apart-cons i is lo (n ∷ ns) hi lt h k =
    (ground (arith, h.0, k.0), Apart-cons i is (suc n.id) ns hi (omega (arith, h.0)) h.1 k.1)

-- A number that is taken out of the queue is none of those that remain.
pub Apart-without :
    (i : ℕ) (is : List ℕ) (lo : ℕ) (ns : List Node) (hi : ℕ)
    → Ascends lo ns hi
    → Apart is ns
    → Apart (i ∷ is) (without i ns)
unfolding Ascends Apart mem without
Apart-without i is lo [] hi h k = tt
Apart-without i is lo (n ∷ ns) hi h k =
    if_intro (Apart (i ∷ is)) (n.id == i) ns (n ∷ without i ns)
      (λ e. Apart-cons i is (suc n.id) ns hi (ground arith) h.1 k.1)
      (λ e. (ground (arith, k.0), Apart-without i is (suc n.id) ns hi h.1 k.1))

pub Apart-enqueue :
    (is : List ℕ) (ns : List Node) (n : Node)
    → Apart is ns
    → mem n.id is ≡ false
    → Apart is (ns ++ n ∷ [])
unfolding Apart
Apart-enqueue is [] n h k = (k, tt)
Apart-enqueue is (m ∷ ms) n h k = (h.0, Apart-enqueue is ms n h.1 k)

pub mem-Below : (n : ℕ) (is : List ℕ) → Below n is → mem n is ≡ false
unfolding Below mem
mem-Below n [] h = refl
mem-Below n (i ∷ is) h = ground (arith, h.0, mem-Below n is h.1)

pub Below-raise : (n m : ℕ) (is : List ℕ) → n ≤ m → Below n is → Below m is
unfolding Below
Below-raise n m [] le h = tt
Below-raise n m (i ∷ is) le h = (omega (arith, h.0), Below-raise n m is le h.1)

pub Below-ids :
    (lo : ℕ) (ns : List Node) (hi : ℕ) (is : List ℕ)
    → Ascends lo ns hi
    → Below hi is
    → Below hi (ids ns ++ is)
unfolding Ascends Below
Below-ids lo [] hi is h k = k
Below-ids lo (n ∷ ns) hi is h k =
    (omega (arith, Ascends-bounds (suc n.id) ns hi h.1), Below-ids (suc n.id) ns hi is h.1 k)

-- What is granted is below what comes after the latest grant.
pub mem-Descends : (i : ℕ) (is : List ℕ) → Descends is → mem i is ≡ true → i < after_first is
unfolding Descends mem
mem-Descends i [] d h = ground arith
mem-Descends i (j ∷ js) d h = ground (arith, d.0, mem-Descends i js d.1)

pub mem-append : (i : ℕ) (is js : List ℕ) → mem i (is ++ js) ≡ false → mem i js ≡ false
unfolding mem
mem-append i [] js h = h
mem-append i (k ∷ ks) js h = ground (arith, mem-append i ks js)

pub Apart-missing :
    (i : ℕ) (is : List ℕ) (ns : List Node)
    → find (has_id i) ns ≡ none
    → Apart is ns
    → Apart (i ∷ is) ns
unfolding Apart mem
Apart-missing i is [] h k = tt
Apart-missing i is (n ∷ ns) h k = (ground (arith, k.0), Apart-missing i is ns (ground arith) k.1)
