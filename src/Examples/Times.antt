-- ===== src/Examples/Times.antt =====
-- The theorems on ExecuteSlices and on timestamps, at concrete states.
use vireo_sdk.Common.{
  subst, sym, append-nil, refl, if◌then◌else◌, ◌==◌, ℕ, suc, ◌+◌, ◌*◌, ◌^◌, ◌≤◌, ◌<◌, ◌≡◌, false,
  Option, none, some, [], ◌∷◌, arith,
}
use vireo_sdk.Common.Int.{ℤ, pos, negsuc, pos_part, neg_part, ◌+ℤ◌, ◌≤ℤ◌}
use vireo_sdk.Observe.{observer}
use vireo_sdk.ClumpQueue.{empty}
use vireo_sdk.Scheduler.{Machine}
use vireo_sdk.Slices.{World, execute_slices}
use vireo_sdk.Slices.Turns.{Ready, IsBusy, turns, turns-runs}
use vireo_sdk.Slices.Ending.{execute_slices-ends}
use vireo_sdk.Timestamp.{Timestamp, add}
use vireo_sdk.Timestamp.Value.{value, IsValid, value-add}

-- Nothing is ready; clump 1 sleeps until 5 and clump 2 until 900.
abbrev asleep : World
asleep = record {
  machine = record {
    clumps = 3;
    next = λ c. none;
    queue = empty;
    running = none;
    breakout = 0;
    waiting = λ c. none;
    caller = λ c. none;
    save_pc = λ c. 10 * c;
    fire_count = λ c. pos 1;
    short_count = λ c. pos 0;
  };
  timers = observer 1 (pos 5) ∷ observer 2 (pos 900) ∷ [];
}

-- Every instruction goes on to the next.
abbrev next_one : ℕ → Machine → Option ℕ × Machine
next_one pc m = (some (suc pc), m)

abbrev tick : ℕ → ℤ
tick k = pos (5 + k)

abbrev three_ticks : ℤ → ℤ
three_ticks ms = pos 3

ends_by : (i : ℕ) → 3 ≤ i → tick 0 +ℤ three_ticks (pos 1) ≤ℤ tick i
unfolding ◌+ℤ◌
ends_by i h = omega arith

execute_slices-ends_example :
    (r : ℤ × World) × (execute_slices next_one three_ticks (λ t. t) tick false 5 9 8 (pos 1) asleep
      ≡ some r)
    × (r.1.machine.running ≡ none)
execute_slices-ends_example =
    execute_slices-ends next_one (λ pc m. omega arith) three_ticks (λ t. t) tick false 9 8 3 (pos 1)
      asleep (omega arith) ends_by

-- Half a second before the year 1904, and three quarters of a second after.
abbrev before : Timestamp
before = record { integer = negsuc 0; fraction = 2 ^ 63 }

abbrev after : Timestamp
after = record { integer = pos 0; fraction = 3 * 2 ^ 62 }

sum_fits :
    (neg_part (before.integer +ℤ after.integer) ≤ 2 ^ 63)
    × (pos_part (before.integer +ℤ after.integer) + 1 < 2 ^ 63)
unfolding ◌+ℤ◌
sum_fits = (omega arith, omega arith)

value-add_example :
    IsValid (add before after) × (value (add before after) ≡ value before +ℤ value after)
value-add_example =
    value-add before after (omega arith, (omega arith, omega arith))
      (omega arith, (omega arith, omega arith)) sum_fits.0 sum_fits.1

-- Clump 0 runs, and the clumps 1 and 2 are ready.
abbrev three_ready : World
three_ready = record {
  machine = record {
    clumps = 3;
    next = λ c. if c == 1 then some 2 else none;
    queue = record { head = some 1; tail = some 2 };
    running = some 0;
    breakout = 0;
    waiting = λ c. none;
    caller = λ c. none;
    save_pc = λ c. 10 * c;
    fire_count = λ c. pos 1;
    short_count = λ c. pos 0;
  };
  timers = [];
}

next_one-IsBusy : IsBusy next_one
next_one-IsBusy pc m r xs h = ([], subst (Ready m r) (sym (append-nil xs)) h)

three-Ready : Ready three_ready.machine 0 (1 ∷ 2 ∷ [])
three-Ready = (
  refl,
  (refl, (2, refl, (refl, (omega arith, tt), (refl, refl)))),
  (omega arith, (omega arith, tt)),
  refl,
)

turns-runs_example :
    (u : Option ℕ × World) × (turns next_one 2 9 8 (λ k. pos 0) (pos 1) 0 (some 7) three_ready
      ≡ some u)
    × (u.1.machine.running ≡ some 2)
turns-runs_example =
    turns-runs next_one (λ pc m. omega arith) next_one-IsBusy 9 8 (λ k. pos 0) (pos 1) 0 (some 7)
      three_ready 0 2 (1 ∷ []) [] (omega arith) (λ i. omega arith) refl three-Ready
