-- ===== src/Media/Gate/Tests.antt =====
-- The gate's theorems at a run: three operations of which one waits, and a lease that is given back.
use sub_etha.Prelude.{ℕ, ◌≡◌, refl, true, false, List, [], ◌∷◌, some}
use sub_etha.Media.Gate.{
  Gate, mem, new_gate, Operation, acquires, releases, aborts, closes, perform_all,
}
use sub_etha.Media.Gate.Moves.{IsSound, perform_all-IsSound}
use sub_etha.Media.Gate.Serial.{one_at_a_time, closed_is_final}

abbrev run : List Operation
run =
    acquires (some 10) false
    ∷ acquires (some 20) false
    ∷ acquires (some 30) false
    ∷ aborts 1
    ∷ releases 0
    ∷ []

-- The last operation runs: the one before it was aborted while it waited.
grants_last : (perform_all run new_gate).granted ≡ 2 ∷ 0 ∷ []
unfolding perform_all sub_etha.Media.Gate.perform sub_etha.Media.Gate.acquire
    sub_etha.Media.Gate.release sub_etha.Media.Gate.close sub_etha.Media.Gate.abort_node
    sub_etha.Media.Gate.pump sub_etha.Media.Gate.start sub_etha.Media.Gate.without mem
grants_last = refl

perform_all-IsSound_example : IsSound (perform_all run new_gate)
perform_all-IsSound_example = perform_all-IsSound run

last_granted : mem 2 (perform_all run new_gate).granted ≡ true
unfolding perform_all sub_etha.Media.Gate.perform sub_etha.Media.Gate.acquire
    sub_etha.Media.Gate.release sub_etha.Media.Gate.close sub_etha.Media.Gate.abort_node
    sub_etha.Media.Gate.pump sub_etha.Media.Gate.start sub_etha.Media.Gate.without mem
last_granted = refl

last_held : mem 2 (perform_all run new_gate).released ≡ false
unfolding perform_all sub_etha.Media.Gate.perform sub_etha.Media.Gate.acquire
    sub_etha.Media.Gate.release sub_etha.Media.Gate.close sub_etha.Media.Gate.abort_node
    sub_etha.Media.Gate.pump sub_etha.Media.Gate.start sub_etha.Media.Gate.without mem
last_held = refl

abbrev last : ℕ
last = 2

one_at_a_time_example : last ≡ last
one_at_a_time_example = one_at_a_time run last last last_granted last_held last_granted last_held

abbrev shut : Gate
shut = perform_all (acquires (some 10) false ∷ closes ∷ []) new_gate

is_shut : shut.closed ≡ true
unfolding perform_all sub_etha.Media.Gate.perform sub_etha.Media.Gate.acquire
    sub_etha.Media.Gate.release sub_etha.Media.Gate.close sub_etha.Media.Gate.abort_node
    sub_etha.Media.Gate.pump sub_etha.Media.Gate.start sub_etha.Media.Gate.without mem
is_shut = refl

closed_is_final_example :
    ((perform_all run shut).closed ≡ true) × ((perform_all run shut).granted ≡ shut.granted)
closed_is_final_example = closed_is_final run shut is_shut
