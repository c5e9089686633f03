-- ===== src/Examples/Waits.antt =====
-- The theorems on waiting, at concrete lists of observers.
use vireo_sdk.Common.{ℕ, ◌*◌, ◌≡◌, List, [], ◌∷◌, arith}
use vireo_sdk.Common.Int.{pos, negsuc}
use vireo_sdk.Observe.{Observer, observer, Exec, check_timers}
use vireo_sdk.Observe.TimerOrder.{IsSorted, check_timers_lem}

-- Clumps 4 and 5 wait, for different infos and until different times.
abbrev two_wait : List Observer
two_wait = observer 4 (pos 1) ∷ observer 5 (negsuc 0) ∷ []

abbrev two_timers : List Observer
two_timers = observer 4 (pos 10) ∷ observer 5 (pos 20) ∷ []

abbrev waiting : Exec
waiting = record { run_queue = 3 ∷ []; timers = two_timers; observation_count = λ c. 2 }

two_timers-IsSorted : IsSorted two_timers
two_timers-IsSorted = ((omega arith, tt), (tt, tt))

check_timers_lem_example :
    check_timers (pos 15) two_timers (3 ∷ []) ≡ (observer 5 (pos 20) ∷ [], 3 ∷ 4 ∷ [])
check_timers_lem_example = check_timers_lem (pos 15) two_timers (3 ∷ []) two_timers-IsSorted

abbrev nobody_waits : Exec
nobody_waits = record { run_queue = []; timers = []; observation_count = λ c. 0 }

-- One millisecond is a thousand ticks.
abbrev in_ticks : ℕ → ℕ
in_ticks ms = ms * 1000
