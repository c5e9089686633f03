-- ===== src/Slices/Timers.antt =====
-- CheckTimers on the linked run queue does what it does on the list of the ready clumps.
use vireo_sdk.Common.{ℕ, ◌≡◌, ◌≢◌, refl, sym, ◌∙◌, inl, inr, none, List, [], ◌∷◌, ◌++◌, Bool-cases}
use vireo_sdk.Common.Int.{ℤ, leb_ℤ}
use vireo_sdk.Common.Pigeons.{AllNe}
use vireo_sdk.Observe.{Observer, check_timers}
use vireo_sdk.Observe.Wake.{clumps}
use vireo_sdk.ClumpQueue.{Next, ClumpQueue, enqueue}
use vireo_sdk.ClumpQueue.Fifo.{Linked, enqueue-Linked, AllNe-snoc}
use vireo_sdk.Scheduler.{Machine, enqueue_run_queue}
use vireo_sdk.Scheduler.Lists.{enqueue-frame}
use vireo_sdk.Slices.{check_timers_on}

-- The clumps of a timer list are different, and stand in no list that is linked through them.
abbrev pub Asleep : Next → List ℕ → List Observer → Type 0
Asleep next xs [] = Unit {0}
Asleep next xs (o ∷ os) =
    (next o.clump ≡ none) × AllNe o.clump xs × AllNe o.clump (clumps os) × Asleep next xs os

Asleep-enqueue :
    (c : ℕ) (q : ClumpQueue) (next : Next) (xs : List ℕ) (os : List Observer)
    → Linked q next xs
    → AllNe c (clumps os)
    → Asleep next xs os
    → Asleep (enqueue c q next).1 (xs ++ c ∷ []) os
Asleep-enqueue c q next xs [] l n a = tt
Asleep-enqueue c q next xs (o ∷ os) l n a =
    let apart : o.clump ≢ c = λ e. n.0 (sym e) in
    (
      enqueue-frame c o.clump q next xs l a.1 apart ∙ a.0,
      AllNe-snoc o.clump c xs a.1 apart,
      a.2,
      Asleep-enqueue c q next xs os l n.1 a.3,
    )

-- Where the run queue is the linked list of the ready clumps, and the clumps of the timer list
-- are different and stand in no other list, CheckTimers on the linked run queue leaves the
-- timers and the ready clumps that it leaves on the plain list of the ready clumps.
check_timers_on-Linked :
    (t : ℤ) (os : List Observer) (m : Machine) (xs : List ℕ)
    → Linked m.queue m.next xs
    → Asleep m.next xs os
    → let w = check_timers_on t os m in
      let r = check_timers t os xs in (w.timers ≡ r.0) × Linked w.machine.queue w.machine.next r.1
unfolding check_timers_on check_timers enqueue_run_queue
check_timers_on-Linked t [] m xs l a = (refl, l)
check_timers_on-Linked t (o ∷ os) m xs l a = elim (Bool-cases (leb_ℤ o.info t)) [
  | inl e ↦
      rw (check_timers_on, check_timers, e)
        (check_timers_on-Linked t os (enqueue_run_queue o.clump m) (xs ++ o.clump ∷ [])
          (enqueue-Linked o.clump m.queue m.next xs l a.1 a.0)
          (Asleep-enqueue o.clump m.queue m.next xs os l a.2 a.3))
  | inr e ↦ rw (check_timers_on, check_timers, e) (refl, l)
]
