-- ===== src/Examples/CleanUps.antt =====
-- The theorem on clean-up procedures, at concrete calls.
use vireo_sdk.Common.{ℕ, ◌+◌, ◌*◌, ◌≡◌, refl, none, List, [], ◌∷◌, ◌++◌, ◌==◌, if◌then◌else◌}
use vireo_sdk.CleanUps.{find_vi, run_cleanup_procs}
use vireo_sdk.CleanUps.Live.{
  Task, Order, adds, removes, orders, tasks, do_tasks, run_cleanup_procs-tasks,
}

abbrev task : ℕ → ℕ → Task
task p a = record { proc = p; arg = a }

abbrev some_orders : List Order
some_orders =
    adds 1 (task 3 5)
    ∷ adds 1 (task 3 6)
    ∷ adds 2 (task 3 5)
    ∷ adds 1 (task 3 5)
    ∷ removes 1 (task 3 6)
    ∷ adds 1 (task 4 7)
    ∷ []

-- A procedure writes its number and its argument down.
abbrev noted : ℕ → ℕ → List ℕ → List ℕ
noted p a s = s ++ (p * 100 + a) ∷ []

runs_two : (run_cleanup_procs noted 1 (orders some_orders []) []).0 ≡ 305 ∷ 407 ∷ []
unfolding run_cleanup_procs orders
runs_two = refl

run_cleanup_procs-tasks_example :
    let r = run_cleanup_procs noted 1 (orders some_orders []) [] in
    (r.0 ≡ do_tasks noted (tasks 1 some_orders []) [])
    × (find_vi 2 r.1 ≡ (if 1 == 2 then none else find_vi 2 (orders some_orders [])))
run_cleanup_procs-tasks_example = run_cleanup_procs-tasks noted 1 2 some_orders []
