-- ===== src/Examples/Clumps.antt =====
-- The theorems on the run queue and the scheduler, at a concrete machine.
use vireo_sdk.Common.{
  ℕ, ◌+◌, ◌≡◌, refl, none, some, List, [], ◌∷◌, arith, ◌⊎◌, update, ◌==◌, if◌then◌else◌,
}
use vireo_sdk.Common.Int.{pos}
use vireo_sdk.ClumpQueue.{Next, ClumpQueue, enqueue, dequeue}
use vireo_sdk.ClumpQueue.Fifo.{Linked, enqueue-Linked, dequeue-Linked}
use vireo_sdk.Scheduler.{Machine, done}
use vireo_sdk.Scheduler.Lists.{Waiting}
use vireo_sdk.Scheduler.Suspend.{Runs}
use vireo_sdk.Scheduler.Finish.{done-Runs}

abbrev links : Next
links c = if c == 1 then some 2 else none

-- Clumps 1 and 2 are ready.
abbrev two_ready : ClumpQueue
two_ready = record { head = some 1; tail = some 2 }

abbrev ready : List ℕ
ready = 1 ∷ 2 ∷ []

two_ready-Linked : Linked two_ready links (1 ∷ 2 ∷ [])
two_ready-Linked = (refl, (2, refl, (refl, (ground arith, tt), (refl, refl))))

-- Clump 0 runs, called by clump 3; clump 4 waits for it; clump 5 waits for one trigger.
abbrev machine : Machine
machine = record {
  clumps = 6;
  next = links;
  queue = two_ready;
  running = some 0;
  breakout = 8;
  waiting = λ c. if c == 0 then some 4 else none;
  caller = λ c. if c == 0 then some 3 else none;
  save_pc = λ c. 10 + c;
  fire_count = λ c. pos 1;
  short_count = λ c. if c == 5 then pos 1 else pos 0;
}

four_waits : Waiting links (some 4) (4 ∷ [])
four_waits = (refl, (4, (refl, refl)))

done_order : (done (λ i. i + 100) 20 0 machine).1.queue.head ≡ some 2
unfolding done dequeue enqueue
done_order = refl

enqueue-Linked_example : let r = enqueue 6 two_ready links in Linked r.0 r.1 (1 ∷ 2 ∷ 6 ∷ [])
enqueue-Linked_example =
    enqueue-Linked 6 two_ready links (1 ∷ 2 ∷ []) two_ready-Linked
      (ground arith, (ground arith, tt)) refl

dequeue-Linked_example :
    let r = dequeue two_ready links in
    ((ready ≡ []) × (r ≡ (none, two_ready, links)))
    ⊎ ((x : ℕ) × (ys : List ℕ) × (ready ≡ x ∷ ys)
        × (r.0 ≡ some x)
        × Linked r.1 r.2 ys
        × (r.2 x ≡ none))
dequeue-Linked_example = dequeue-Linked two_ready links ready two_ready-Linked

done-Runs_example :
    let r = done (λ i. i + 100) 20 0 machine in
    let pc = update (update (λ c. 10 + c) 3 113) 0 20 in
    Runs (1 ∷ 2 ∷ 3 ∷ 4 ∷ []) pc r
    × (r.1.short_count 0 ≡ pos 1)
    × (r.1.waiting 0 ≡ none)
    × (r.1.caller 0 ≡ none)
done-Runs_example =
    done-Runs (λ i. i + 100) 20 0 machine (1 ∷ 2 ∷ []) (4 ∷ []) refl two_ready-Linked four_waits
      ((ground arith, (ground arith, tt)), tt)
      ((ground arith, (ground arith, tt)), (ground arith, tt), refl) (omega arith)
