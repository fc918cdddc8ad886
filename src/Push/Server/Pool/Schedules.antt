-- ===== src/Push/Server/Pool/Schedules.antt =====
-- What every schedule of the workers of `mapWithConcurrency` of lib/push-server.ts comes to.
use sub_etha.Prelude.{
  Bool-cases, inl, inr, ◌⊎◌, ℕ, zero, suc, ◌+◌, ◌*◌, ◌-◌, ◌≤◌, ◌<◌, ◌≡◌, refl, List, [], ◌∷◌,
  if◌then◌else◌, ltb, length, arith,
}
use sub_etha.Push.Server.Pool.{
  Pool, new_pool, workers, Move, Moves, take_next, end_worker, fulfil, reject, rest, more, times,
  Fulfilled, IsFair, length-middle, Move-IsFair, reached-IsFair,
}

times-nil : (i : ℕ) (xs : List ℕ) → length xs ≡ 0 → times i xs ≡ 0
unfolding times
times-nil i [] h = refl
times-nil i (x ∷ xs) h = absurd (omega arith)

-- However the workers of `mapWithConcurrency` are scheduled: where the concurrency is not 0 and every
-- worker has ended, none by a rejection, every item has been mapped exactly once, and nothing else has.
pub map_with_concurrency_once :
    (items concurrency : ℕ) (p : Pool)
    → 0 < concurrency
    → Moves items concurrency (new_pool items concurrency) p
    → Fulfilled items concurrency p
    → (i : ℕ) → times i p.finished ≡ (if ltb i items then 1 else 0)
unfolding times
map_with_concurrency_once items concurrency p room moves all_ended i =
    let (once, all_workers, in_range, late) = reached-IsFair items concurrency p moves in
    let all_taken : p.cursor ≡ items = elim late [ inl e ↦ omega arith | inr e ↦ e ] in
    let none_running : times i p.running ≡ 0 = times-nil i p.running (omega arith) in
    let none_rejected : times i p.rejected ≡ 0 = times-nil i p.rejected (omega arith) in
    ground (arith, once i)

list_cases : (xs : List ℕ) → (length xs ≡ 0) ⊎ ((i : ℕ) × (ys : List ℕ) × (xs ≡ i ∷ ys))
list_cases [] = inl refl
list_cases (i ∷ ys) = inr (i, ys, refl)

module _ (items concurrency : ℕ) where
  -- The moves that a state has left at most.
  abbrev pub moves_left : Pool → ℕ
  moves_left p = 3 * (items - p.cursor) + 2 * length p.running + p.testing

  unfoldable pub number_of_moves : {p q : Pool} → Moves items concurrency p q → ℕ
  number_of_moves rest = 0
  number_of_moves (more m ms) = suc (number_of_moves ms)

  Move-less : {p q : Pool} → Move items concurrency p q → moves_left q < moves_left p
  Move-less {p = p} (take_next free there) = omega arith
  Move-less {p = p} (end_worker free gone) = omega arith
  Move-less {p = p} (fulfil before after i e) =
      omega (arith, length-middle items concurrency before after i p.running e)
  Move-less {p = p} (reject before after i e) =
      omega (arith, length-middle items concurrency before after i p.running e)

  Moves-less :
      {p q : Pool} (ms : Moves items concurrency p q)
      → number_of_moves ms + moves_left q ≤ moves_left p
  unfolding number_of_moves
  Moves-less rest = omega arith
  Moves-less (more m ms) = omega (arith, Move-less m, Moves-less ms)

  -- The rest of the work: what runs is fulfilled, and a worker at its test takes an item or ends.
  finish_work :
      (fuel : ℕ) (p : Pool)
      → IsFair items concurrency p
      → length p.rejected ≡ 0
      → moves_left p < fuel
      → (q : Pool) × Moves items concurrency p q
        × Fulfilled items concurrency q
        × (length q.rejected ≡ 0)
  finish_work zero p fair none_rejected lt = absurd (omega arith)
  finish_work (suc fuel) p fair none_rejected lt =
      let go : (q : Pool)
          → Move items concurrency p q
          → length q.rejected ≡ 0
          → (r : Pool) × Moves items concurrency p r
            × Fulfilled items concurrency r
            × (length r.rejected ≡ 0) =
        λ q m same.
          let (r, ms, ended, clean) =
            finish_work fuel q (Move-IsFair items concurrency m fair) same
              (omega (arith, Move-less m)) in
          (r, more m ms, ended, clean) in
      elim (list_cases p.running) [
        | inr (i, after, e) ↦ go _ (fulfil [] after i e) none_rejected
        | inl idle ↦ elim (Bool-cases (ltb 0 p.testing)) [
          | inr no_worker ↦
              let (once, all_workers, in_range, late) = fair in
              (p, rest, ground arith, none_rejected)
          | inl free ↦ elim (Bool-cases (ltb p.cursor items)) [
            | inl there ↦ go _ (take_next (ground arith) (ground arith)) none_rejected
            | inr gone ↦ go _ (end_worker (ground arith) (ground arith)) none_rejected
          ]
        ]
      ]

-- However the workers of `mapWithConcurrency` have been scheduled: as long as no call has rejected, they
-- have made at most three moves for each item and one for each worker, and there is a schedule of the rest
-- in which no call rejects and every worker ends.
pub map_with_concurrency_live :
    (items concurrency : ℕ) (p : Pool)
    (moves : Moves items concurrency (new_pool items concurrency) p)
    → length p.rejected ≡ 0
    → (number_of_moves items concurrency moves ≤ 3 * items + workers items concurrency)
      × ((q : Pool) × Moves items concurrency p q
          × Fulfilled items concurrency q
          × (length q.rejected ≡ 0))
map_with_concurrency_live items concurrency p moves none_rejected = (
  omega (arith, Moves-less items concurrency moves),
  finish_work items concurrency (suc (moves_left items concurrency p)) p
      (reached-IsFair items concurrency p moves) none_rejected (omega arith),
)
