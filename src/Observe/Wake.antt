-- ===== src/Observe/Wake.antt =====
-- Which observers ObserveStateChange wakes.
use vireo_sdk.Common.{
  ℕ, ◌≡◌, refl, ap, Bool, true, false, List, [], ◌∷◌, ◌++◌, append-nil, append_assoc, arith, length,
  Bool-cases, inl, inr, if◌then◌else◌,
}
use vireo_sdk.Common.Int.{ℤ, pos, eqb_ℤ}
use vireo_sdk.Observe.{
  Observer, Exec, remove_observer, observe_state_change, insert_observer, observer_count, wake,
  timer_info,
}

-- The observers of a list whose info is `info`, and those of another info.
abbrev pub matching : ℤ → List Observer → List Observer
matching info [] = []
matching info (o ∷ os) = let rest = matching info os in if eqb_ℤ info o.info then o ∷ rest else rest

abbrev pub others : ℤ → List Observer → List Observer
others info [] = []
others info (o ∷ os) = let rest = others info os in if eqb_ℤ info o.info then rest else o ∷ rest

abbrev pub clumps : List Observer → List ℕ
clumps [] = []
clumps (o ∷ os) = o.clump ∷ clumps os

-- A timer list without the states of these clumps.
abbrev pub remove_all : List ℕ → List Observer → List Observer
remove_all [] ts = ts
remove_all (c ∷ cs) ts = remove_all cs (remove_observer c ts)

-- With wakeAll, ObserveStateChange takes the observers of the info off the list, puts their
-- clumps on the run queue in the order of the list and takes them off the timer list; the
-- other observers stay in order.
pub observe_state_change-all :
    (info : ℤ) (os : List Observer) (e : Exec)
    → observe_state_change info true os e ≡ (
      others info os,
      record e {
        run_queue = e.run_queue ++ clumps (matching info os);
        timers = remove_all (clumps (matching info os)) e.timers;
      },
    )
unfolding observe_state_change
observe_state_change-all info [] e = ground (arith, append-nil e.run_queue)
observe_state_change-all info (o ∷ os) e = elim (Bool-cases (eqb_ℤ info o.info)) [
  | inl t ↦ rw t (rw (observe_state_change-all info os (wake o.clump e), append_assoc))
  | inr f ↦ rw f (rw (observe_state_change-all info os e))
]

-- Without wakeAll, ObserveStateChange takes off and wakes the first observer of the info,
-- where there is one, and the observers before and after it stay.
pub observe_state_change-first :
    (info : ℤ) (before : List Observer) (o : Observer) (after : List Observer) (e : Exec)
    → matching info before ≡ []
    → o.info ≡ info
    → observe_state_change info false (before ++ o ∷ after) e ≡ (before ++ after, wake o.clump e)
unfolding observe_state_change
observe_state_change-first info [] o after e none' here =
    let hit : eqb_ℤ info o.info ≡ true = ground arith in rw hit
observe_state_change-first info (p ∷ ps) o after e none' here =
    elim (Bool-cases (eqb_ℤ info p.info)) [
      | inl t ↦ let bad : p ∷ matching info ps ≡ [] = ground arith in cc
      | inr f ↦
          let rest : matching info ps ≡ [] = ground arith in
          rw (f, observe_state_change-first info ps o after e rest here)
    ]

-- No observer of the info: nothing changes.
pub observe_state_change-none :
    (info : ℤ) (wake_all : Bool) (os : List Observer) (e : Exec)
    → matching info os ≡ []
    → observe_state_change info wake_all os e ≡ (os, e)
unfolding observe_state_change
observe_state_change-none info wake_all [] e h = refl
observe_state_change-none info wake_all (o ∷ os) e h = elim (Bool-cases (eqb_ℤ info o.info)) [
  | inl t ↦ let bad : o ∷ matching info os ≡ [] = ground arith in cc
  | inr f ↦
      let rest : matching info os ≡ [] = ground arith in
      rw (f, observe_state_change-none info wake_all os e rest)
]

-- A clump that is off the timer list reads 0 as the time of its observation state.
pub timer_info-remove_observer :
    (c : ℕ) (os : List Observer) → timer_info c (remove_observer c os) ≡ pos 0
unfolding timer_info remove_observer
timer_info-remove_observer c [] = refl
timer_info-remove_observer c (o ∷ os) = ground (arith, timer_info-remove_observer c os)

pub remove_observer-remove_observer :
    (c : ℕ) (os : List Observer) → remove_observer c (remove_observer c os) ≡ remove_observer c os
unfolding remove_observer
remove_observer-remove_observer c [] = refl
remove_observer-remove_observer c (o ∷ os) = ground (arith, remove_observer-remove_observer c os)

pub insert_observer-append :
    (o : Observer) (os : List Observer) → insert_observer o os ≡ os ++ o ∷ []
unfolding insert_observer
insert_observer-append o [] = refl
insert_observer-append o (p ∷ ps) = ap (◌∷◌ p) (insert_observer-append o ps)

-- ObserverCount counts the observers that a wake of the info can find.
pub observer_count-matching :
    (info : ℤ) (os : List Observer) → observer_count info os ≡ length (matching info os)
unfolding observer_count
observer_count-matching info [] = refl
observer_count-matching info (o ∷ os) = ground (arith, observer_count-matching info os)

-- Waking leaves the observation counts alone.
pub observe_state_change-observation_count :
    (info : ℤ) (wake_all : Bool) (os : List Observer) (e : Exec)
    → (observe_state_change info wake_all os e).1.observation_count ≡ e.observation_count
unfolding observe_state_change
observe_state_change-observation_count info wake_all [] e = refl
observe_state_change-observation_count info wake_all (o ∷ os) e = ground (
  arith,
  observe_state_change-observation_count info wake_all os (wake o.clump e),
  observe_state_change-observation_count info wake_all os e,
)
