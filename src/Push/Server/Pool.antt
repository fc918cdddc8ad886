-- ===== src/Push/Server/Pool.antt =====
-- `mapWithConcurrency` of lib/push-server.ts, with every schedule of its workers. A worker is at the test
-- of its loop, where it takes the next item or ends, or it awaits the mapper for its item, which fulfils,
-- and the worker goes back to the test, or rejects, and the worker is gone. An item is its index, and the
-- results are those of the items that are mapped. `Promise.all` fulfils when every worker has ended; a
-- rejected worker makes it reject, although the others work on.
pub mod Schedules
pub mod Tests
use sub_etha.Prelude.{
  Bool-cases, inl, inr, ◌⊎◌, ◌*◌, ℕ, zero, suc, ◌+◌, ◌-◌, ◌≤◌, ◌<◌, ◌≡◌, refl, sym, ap, subst, ◌∙◌,
  Bool, true, false, List, [], ◌∷◌, ◌++◌, if◌then◌else◌, ltb, ◌==◌, length, length-append, min,
  arith,
}

pub record Pool : Type 0 where
  pub cursor : ℕ
  pub testing : ℕ  -- workers at the test of their loop
  pub ended : ℕ  -- workers that have left it
  pub running : List ℕ
  pub finished : List ℕ
  pub rejected : List ℕ

module _ (items concurrency : ℕ) where
  abbrev pub workers : ℕ
  workers = min concurrency items

  abbrev pub new_pool : Pool
  new_pool = record {
    cursor = 0;
    testing = workers;
    ended = 0;
    running = [];
    finished = [];
    rejected = [];
  }

  -- One move of a worker.
  pub data Move (p : Pool) : Pool → Type 0 where
    take_next :
        0 < p.testing
        → p.cursor < items
        → Move p (record p {
          cursor = suc p.cursor;
          testing = p.testing - 1;
          running = p.cursor ∷ p.running;
        })
    end_worker :
        0 < p.testing
        → items ≤ p.cursor
        → Move p (record p { testing = p.testing - 1; ended = suc p.ended })
    fulfil :
        (before after : List ℕ) (i : ℕ)
        → p.running ≡ before ++ (i ∷ after)
        → Move p (record p {
          testing = suc p.testing;
          running = before ++ after;
          finished = i ∷ p.finished;
        })
    reject :
        (before after : List ℕ) (i : ℕ)
        → p.running ≡ before ++ (i ∷ after)
        → Move p (record p { running = before ++ after; rejected = i ∷ p.rejected })

  pub data Moves : Pool → Pool → Type 0 where
    rest : {p : Pool} → Moves p p
    more : {p q r : Pool} → Move p q → Moves q r → Moves p r

  -- Every worker has ended, none by a rejection.
  abbrev pub Fulfilled : Pool → Type 0
  Fulfilled p = p.ended ≡ workers

-- How often an index stands in a list.
unfoldable pub times : ℕ → List ℕ → ℕ
times i [] = 0
times i (j ∷ js) = (if i == j then 1 else 0) + times i js

times-append : (i : ℕ) (xs ys : List ℕ) → times i (xs ++ ys) ≡ times i xs + times i ys
unfolding times
times-append i [] ys = omega arith
times-append i (x ∷ xs) ys = omega (arith, times-append i xs ys)

abbrev pub places : ℕ → Pool → ℕ
places i p = times i p.running + times i p.finished + times i p.rejected

module _ (items concurrency : ℕ) where
  -- Every item before the cursor is in one place, once; every worker is in one place; and none has ended
  -- before all items were taken.
  abbrev pub IsFair : Pool → Type 0
  IsFair p =
      ((i : ℕ) → places i p ≡ (if ltb i p.cursor then 1 else 0))
      × (p.testing + p.ended + length p.running + length p.rejected ≡ workers items concurrency)
      × (p.cursor ≤ items)
      × ((p.ended ≡ 0) ⊎ (p.cursor ≡ items))

  -- One item leaves the running ones.
  times-middle :
      (j : ℕ) (before after : List ℕ) (i : ℕ) (running : List ℕ)
      → running ≡ before ++ (i ∷ after)
      → times j running ≡ (if j == i then 1 else 0) + times j (before ++ after)
  unfolding times
  times-middle j before after i running e =
      ap (times j) e ∙ omega (arith, times-append j before (i ∷ after), times-append j before after)

  pub length-middle :
      (before after : List ℕ) (i : ℕ) (running : List ℕ)
      → running ≡ before ++ (i ∷ after)
      → length running ≡ suc (length (before ++ after))
  length-middle before after i running e =
      ap length e ∙ omega (arith, length-append before (i ∷ after), length-append before after)

  pub Move-IsFair : {p q : Pool} → Move items concurrency p q → IsFair p → IsFair q
  unfolding times
  Move-IsFair {p = p} (take_next free there) (once, all_workers, in_range, late) =
      ((λ i. ground (arith, once i)), omega arith, omega arith, inl (ground arith))
  Move-IsFair {p = p} (end_worker free gone) (once, all_workers, in_range, late) =
      (once, omega arith, in_range, inr (omega arith))
  Move-IsFair {p = p} (fulfil before after i e) (once, all_workers, in_range, late) = (
    (λ j. ground (arith, once j, times-middle j before after i p.running e)),
    omega (arith, length-middle before after i p.running e),
    in_range,
    late,
  )
  Move-IsFair {p = p} (reject before after i e) (once, all_workers, in_range, late) = (
    (λ j. ground (arith, once j, times-middle j before after i p.running e)),
    omega (arith, length-middle before after i p.running e),
    in_range,
    late,
  )

  Moves-IsFair : {p q : Pool} → Moves items concurrency p q → IsFair p → IsFair q
  Moves-IsFair rest fair = fair
  Moves-IsFair (more m ms) fair = Moves-IsFair ms (Move-IsFair m fair)

  new_pool-IsFair : IsFair (new_pool items concurrency)
  unfolding times
  new_pool-IsFair = ((λ i. ground arith), omega arith, omega arith, inl refl)

  pub reached-IsFair :
      (p : Pool) → Moves items concurrency (new_pool items concurrency) p → IsFair p
  reached-IsFair p moves = Moves-IsFair moves new_pool-IsFair
