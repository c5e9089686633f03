-- ===== src/Observe.antt =====
-- Observers and timers: ObservableCore, Timer and OccurrenceCore (source/core/Synchronization.cpp,
-- source/include/Synchronization.h) and the observation states of a clump
-- (source/core/VirtualInstrument.cpp). A linked list of observers is the list of its nodes, and a
-- clump is a number. A node of a timer list is a clump's observation state 0, a node of another
-- object's list its observation state 1.
pub mod Wake
pub mod TimerOrder
use vireo_sdk.Common.{
  ℕ, zero, suc, ◌+◌, Bool, true, false, ◌&&◌, ◌||◌, not, Option, get_elem?, drop, List, [], ◌∷◌,
  ◌++◌, ◌==◌, if◌then◌else◌, update,
}
use vireo_sdk.Common.Int.{ℤ, pos, negsuc, pos_part, eqb_ℤ, ltb_ℤ, leb_ℤ, wrap_int, ◌+ℤ◌, ◌-ℤ◌}

pub record Observer : Type 0 where
  pub clump : ℕ
  pub info : ℤ

abbrev pub observer : ℕ → ℤ → Observer
observer c i = record { clump = c; info = i }

-- The parts of an ExecutionContext that waking touches, and the `_observationCount` of each clump.
pub record Exec : Type 0 where
  pub run_queue : List ℕ
  pub timers : List Observer
  pub observation_count : ℕ → ℕ

-- ObservableCore::InsertObserver: to the end, for scheduling fairness.
unfoldable pub insert_observer : Observer → List Observer → List Observer
insert_observer o [] = o ∷ []
insert_observer o (p ∷ ps) = p ∷ insert_observer o ps

-- ObservableCore::RemoveObserver, of the state that `clump` has in this list.
unfoldable pub remove_observer : ℕ → List Observer → List Observer
remove_observer c [] = []
remove_observer c (o ∷ os) =
    let rest = remove_observer c os in if o.clump == c then rest else o ∷ rest

abbrev pub enqueue_run_queue : ℕ → Exec → Exec
enqueue_run_queue c e = record e { run_queue = e.run_queue ++ c ∷ [] }

-- What ObserveStateChange does for one observer that it takes off the list.
abbrev pub wake : ℕ → Exec → Exec
wake c e = record e { run_queue = e.run_queue ++ c ∷ []; timers = remove_observer c e.timers }

unfoldable pub observe_state_change : ℤ → Bool → List Observer → Exec → List Observer × Exec
observe_state_change info wake_all [] e = ([], e)
observe_state_change info wake_all (o ∷ os) e =
    let woken = observe_state_change info wake_all os (wake o.clump e) in
    let passed = observe_state_change info wake_all os e in
    if eqb_ℤ info o.info
    then (if wake_all then woken else (os, wake o.clump e))
    else (o ∷ passed.0, passed.1)

unfoldable pub observer_count : ℤ → List Observer → ℕ
observer_count info [] = 0
observer_count info (o ∷ os) =
    let rest = observer_count info os in if eqb_ℤ o.info info then rest + 1 else rest

-- Timer::InitObservableTimerState.
unfoldable pub insert_timer : ℕ → ℤ → List Observer → List Observer
insert_timer c tick [] = observer c tick ∷ []
insert_timer c tick (o ∷ os) =
    let rest = insert_timer c tick os in
    if ltb_ℤ o.info tick then o ∷ rest else observer c tick ∷ (o ∷ os)

-- Timer::CheckTimers: the list that is left, and the run queue.
unfoldable pub check_timers : ℤ → List Observer → List ℕ → List Observer × List ℕ
check_timers t [] run = ([], run)
check_timers t (o ∷ os) run =
    let rest = check_timers t os (run ++ o.clump ∷ []) in
    if leb_ℤ o.info t then rest else (o ∷ os, run)

-- Timer::QuickCheckTimers: CheckTimers does nothing to an empty list, which it leaves out.
unfoldable pub quick_check_timers : ℤ → Exec → Exec
unfolding check_timers
quick_check_timers t e =
    let r = check_timers t e.timers e.run_queue in record e { timers = r.0; run_queue = r.1 }

abbrev pub anything_waiting : Exec → Bool
anything_waiting e = elim e.timers [ [] ↦ false | o ∷ os ↦ true ]

abbrev pub next_wake_up_time : Exec → ℤ
next_wake_up_time e = elim e.timers [ [] ↦ pos 0 | o ∷ os ↦ o.info ]

-- `_observationStates[0]._info`: that of its node in the timer list, and 0 once CheckTimers or
-- RemoveObserver has taken the node off.
unfoldable pub timer_info : ℕ → List Observer → ℤ
timer_info c [] = pos 0
timer_info c (o ∷ os) = let rest = timer_info c os in if o.clump == c then o.info else rest

-- The time that stands for no timeout, 0x7FFFFFFFFFFFFFFF.
abbrev pub forever : ℤ
forever = pos 0x7fff_ffff_ffff_ffff

-- VIClump::ReserveObservationStatesWithTimeout; more than two states are refused.
unfoldable pub reserve_observation_states : ℕ → ℕ → ℤ → Exec → Exec
unfolding insert_timer
reserve_observation_states c count tick e =
    if leb_ℤ (pos count) (pos 2)
    then record e {
      observation_count = update e.observation_count c count;
      timers = insert_timer c (if eqb_ℤ tick (pos 0) then forever else tick) e.timers;
    }
    else e

-- VIClump::ClearObservationStates: state 0 is taken off the timer list, and state 1, where it is
-- reserved, off the list of the object that the clump waits on.
unfoldable pub clear_observation_states : ℕ → List Observer → Exec → List Observer × Exec
unfolding remove_observer
clear_observation_states c os e =
    let n = e.observation_count c in
    let cleared = record e {
      observation_count = update e.observation_count c 0;
      timers = remove_observer c e.timers;
    } in
    if n == 0 then (os, e) else if n == 1 then (os, cleared) else (remove_observer c os, cleared)

-- SuspendRunningQueueElt, its choice of the next clump: the first of the run queue runs, where there
-- is one.
unfoldable pub suspend_clump : Exec → Option ℕ × Exec
suspend_clump e = (get_elem? e.run_queue 0, record e { run_queue = drop 1 e.run_queue })

pub record Occurrence : Type 0 where
  pub observers : List Observer
  pub set_count : ℤ

-- OccurrenceCore::SetOccurrence.
unfoldable pub set_occurrence : Occurrence → Exec → Occurrence × Exec
unfolding observe_state_change ◌+ℤ◌
set_occurrence o e =
    let count = o.set_count +ℤ pos 1 in
    let r = observe_state_change count true o.observers e in
    (record { observers = r.0; set_count = count }, r.1)

-- OccurrenceCore::HasOccurred. The difference is an Int32.
unfoldable pub has_occurred : ℤ → Bool → Occurrence → Bool
unfolding ◌-ℤ◌ wrap_int
has_occurred count ignore_previous o =
    if ltb_ℤ (pos 0) (wrap_int 32 (o.set_count -ℤ count))
    then true
    else if ignore_previous && not (eqb_ℤ count o.set_count)
    then true
    else false
