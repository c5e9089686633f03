-- ===== src/Observe/TimerOrder.antt =====
-- The timer list is kept in the order of the wake-up times.
use vireo_sdk.Common.{
  ℕ, ◌≡◌, refl, List, [], ◌∷◌, ◌++◌, append-nil, append_assoc, arith, Bool-cases, inl, inr,
  if◌then◌else◌,
}
use vireo_sdk.Common.Int.{ℤ, leb_ℤ, ◌≤ℤ◌, ◌<ℤ◌}
use vireo_sdk.Observe.{Observer, remove_observer, insert_timer, check_timers}
use vireo_sdk.Observe.Wake.{clumps}

-- Every wake-up time of the list is at least `t`.
abbrev pub AtLeast : ℤ → List Observer → Type 0
AtLeast t [] = Unit {0}
AtLeast t (o ∷ os) = (t ≤ℤ o.info) × AtLeast t os

abbrev pub IsSorted : List Observer → Type 0
IsSorted [] = Unit {0}
IsSorted (o ∷ os) = AtLeast o.info os × IsSorted os

AtLeast-mono : (s t : ℤ) (os : List Observer) → s ≤ℤ t → AtLeast t os → AtLeast s os
AtLeast-mono s t [] h a = tt
AtLeast-mono s t (o ∷ os) h a = (omega arith, AtLeast-mono s t os h a.1)

insert_timer-AtLeast :
    (s : ℤ) (c : ℕ) (t : ℤ) (os : List Observer)
    → s ≤ℤ t
    → AtLeast s os
    → AtLeast s (insert_timer c t os)
unfolding insert_timer
insert_timer-AtLeast s c t [] h a = (h, tt)
insert_timer-AtLeast s c t (o ∷ os) h a = ground (arith, insert_timer-AtLeast s c t os h a.1)

-- InitObservableTimerState keeps a timer list in the order of the wake-up times.
insert_timer-IsSorted :
    (c : ℕ) (t : ℤ) (os : List Observer) → IsSorted os → IsSorted (insert_timer c t os)
unfolding insert_timer
insert_timer-IsSorted c t [] s = (tt, tt)
insert_timer-IsSorted c t (o ∷ os) s = ground (
  arith,
  insert_timer-AtLeast o.info c t os,
  insert_timer-IsSorted c t os s.1,
  AtLeast-mono t o.info os,
)

remove_observer-AtLeast :
    (s : ℤ) (c : ℕ) (os : List Observer) → AtLeast s os → AtLeast s (remove_observer c os)
unfolding remove_observer
remove_observer-AtLeast s c [] a = tt
remove_observer-AtLeast s c (o ∷ os) a = ground (arith, remove_observer-AtLeast s c os a.1)

pub remove_observer-IsSorted :
    (c : ℕ) (os : List Observer) → IsSorted os → IsSorted (remove_observer c os)
unfolding remove_observer
remove_observer-IsSorted c [] s = tt
remove_observer-IsSorted c (o ∷ os) s =
    ground (arith, remove_observer-AtLeast o.info c os s.0, remove_observer-IsSorted c os s.1)

-- The observers whose time has come, and those whose time is still to come.
abbrev pub due : ℤ → List Observer → List Observer
due t [] = []
due t (o ∷ os) = let rest = due t os in if leb_ℤ o.info t then o ∷ rest else rest

abbrev pub pending : ℤ → List Observer → List Observer
pending t [] = []
pending t (o ∷ os) = let rest = pending t os in if leb_ℤ o.info t then rest else o ∷ rest

none_due :
    (t : ℤ) (os : List Observer) (s : ℤ)
    → t <ℤ s
    → AtLeast s os
    → (due t os ≡ []) × (pending t os ≡ os)
none_due t [] s h a = (refl, refl)
none_due t (o ∷ os) s h a = ground (arith, none_due t os s h a.1)

-- On a timer list in the order of the wake-up times, CheckTimers puts every clump whose time
-- has come on the run queue, in the order of the list, and leaves exactly the others, although
-- it stops at the first time that is still to come.
pub check_timers_lem :
    (t : ℤ) (os : List Observer) (run : List ℕ)
    → IsSorted os
    → check_timers t os run ≡ (pending t os, run ++ clumps (due t os))
unfolding check_timers
check_timers_lem t [] run s = rw append-nil
check_timers_lem t (o ∷ os) run s = elim (Bool-cases (leb_ℤ o.info t)) [
  | inl e ↦ rw e (rw (check_timers_lem t os (run ++ o.clump ∷ []) s.1, append_assoc))
  | inr e ↦ rw e (ground (arith, none_due t os o.info, append-nil run))
]
