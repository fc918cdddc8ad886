-- ===== src/Push/Server/Pool/Tests.antt =====
-- Two items and two workers of lib/push-server.ts, the first item finished last.
use sub_etha.Prelude.{◌≡◌, ◌≤◌, ◌+◌, ◌*◌, refl, [], ◌∷◌, if◌then◌else◌, ltb, length, arith}
use sub_etha.Push.Server.Pool.{
  Pool, new_pool, workers, Moves, rest, more, take_next, end_worker, fulfil, times, Fulfilled,
}
use sub_etha.Push.Server.Pool.Schedules.{
  map_with_concurrency_once, map_with_concurrency_live, number_of_moves,
}

abbrev both_running : Pool
both_running = record {
  cursor = 2;
  testing = 0;
  ended = 0;
  running = 1 ∷ 0 ∷ [];
  finished = [];
  rejected = [];
}

abbrev both_finished : Pool
both_finished = record {
  cursor = 2;
  testing = 0;
  ended = 2;
  running = [];
  finished = 0 ∷ 1 ∷ [];
  rejected = [];
}

started : Moves 2 2 (new_pool 2 2) both_running
started =
    more (take_next (omega arith) (omega arith)) (more (take_next (omega arith) (omega arith)) rest)

ended_both : Moves 2 2 (new_pool 2 2) both_finished
ended_both = more (take_next (omega arith) (omega arith)) (
    more (take_next (omega arith) (omega arith)) (
      more (fulfil [] (0 ∷ []) 1 refl) (
        more (end_worker (omega arith) (omega arith))
          (more (fulfil [] [] 0 refl) (more (end_worker (omega arith) (omega arith)) rest)))))

map_with_concurrency_once_example : times 1 both_finished.finished ≡ (if ltb 1 2 then 1 else 0)
map_with_concurrency_once_example =
    map_with_concurrency_once 2 2 both_finished (omega arith) ended_both refl 1

map_with_concurrency_live_example :
    (number_of_moves 2 2 started ≤ 3 * 2 + workers 2 2)
    × ((q : Pool) × Moves 2 2 both_running q × Fulfilled 2 2 q × (length q.rejected ≡ 0))
map_with_concurrency_live_example = map_with_concurrency_live 2 2 both_running started refl
