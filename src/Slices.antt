-- ===== src/Slices.antt =====
-- ExecutionContext::ExecuteSlices (source/core/ExecutionContext.cpp): the loop that runs instructions,
-- checks the timers and passes the processor on. What an instruction does is the program's: `step pc m`
-- is the next instruction, `none` for the cul-de-sac, and the machine it leaves. `clock k` is the tick
-- count at the k-th reading. Fuel bounds the instructions of a slice and the rounds of the loop.
pub mod Ending
pub mod Reply
pub mod Timers
pub mod Turns
use vireo_sdk.Common.{
  ℕ, zero, suc, ◌+◌, ◌-◌, ◌*◌, Bool, true, false, not, ◌&&◌, Option, none, some, List, [], ◌∷◌,
  ◌==◌, if◌then◌else◌, update,
}
use vireo_sdk.Common.Int.{ℤ, pos, negsuc, ltb_ℤ, leb_ℤ, eqb_ℤ, ◌+ℤ◌, ◌-ℤ◌}
use vireo_sdk.Observe.{Observer}
use vireo_sdk.ClumpQueue.{ClumpQueue, Next, dequeue, is_empty}
use vireo_sdk.Scheduler.{Machine, enqueue_run_queue}

pub record World : Type 0 where
  pub machine : Machine
  pub timers : List Observer

-- Timer::CheckTimers on the linked run queue.
unfoldable pub check_timers_on : ℤ → List Observer → Machine → World
unfolding enqueue_run_queue
check_timers_on t [] m = record { machine = m; timers = [] }
check_timers_on t (o ∷ os) m =
    let rest = check_timers_on t os (enqueue_run_queue o.clump m) in
    if leb_ℤ o.info t then rest else record { machine = m; timers = o ∷ os }

-- A running clump that is set aside goes on at `cur`.
abbrev pub keep_place : Option ℕ → ℕ → Machine → Machine
keep_place none c m = m
keep_place (some pc) c m = record m { save_pc = update m.save_pc c pc }

abbrev pub requeue : Option ℕ → ℕ → Machine → Machine
requeue cur c m = enqueue_run_queue c (record (keep_place cur c m) { running = none })

abbrev pub place_of : Option ℕ → Machine → Option ℕ
place_of none m = none
place_of (some c) m = some (m.save_pc c)

-- The first clump of the run queue becomes the running one, if there is one.
unfoldable pub take_next : Machine → Option ℕ × Machine
unfolding dequeue
take_next m =
    let r = dequeue m.queue m.next in
    (place_of r.0 m, record m { queue = r.1; next = r.2; running = r.0 })

-- The end of a round, at the time `now`.
abbrev pub pass_on : ℤ → ℤ → Option ℕ → Option ℕ → Machine → Option ℕ × Machine
pass_on now break_out none cur m = if ltb_ℤ now break_out then take_next m else (cur, m)
pass_on now break_out (some c) cur m =
    if ltb_ℤ now break_out
    then (if is_empty m.queue then (cur, m) else take_next (requeue cur c m))
    else (cur, requeue cur c m)

abbrev pub while_running {ℓ} : {A : Type ℓ} → Option ℕ → A → A → A
while_running none ended on = ended
while_running (some c) ended on = on

module _ (step : ℕ → Machine → Option ℕ × Machine) where
  -- The cul-de-sac returns itself.
  abbrev pub exec : Option ℕ → Machine → Option ℕ × Machine
  exec none m = (none, m)
  exec (some pc) m = step pc m

  -- `n` instructions in a row.
  unfoldable pub exec_times : ℕ → Option ℕ → Machine → Option ℕ × Machine
  exec_times zero cur m = (cur, m)
  exec_times (suc n) cur m = let r = exec cur m in exec_times n r.0 r.1

  -- `do ... while (_breakoutCount-- > 0)`, whose body the build unrolls to ten instructions; `none` is
  -- out of fuel.
  unfoldable pub slice : ℕ → Option ℕ → Machine → Option (Option ℕ × Machine)
  unfolding exec_times
  slice zero cur m = none
  slice (suc fuel) cur m =
      let r = exec_times 10 cur m in
      let again = slice fuel r.0 (record r.1 { breakout = r.1.breakout - 1 }) in
      if r.1.breakout == 0 then some r else again

  abbrev pub end_round : ℤ → ℤ → List Observer → Option ℕ → Machine → Option ℕ × World
  end_round now break_out timers cur m =
      let checked = check_timers_on now timers m in
      let passed = pass_on now break_out checked.machine.running cur checked.machine in
      (passed.0, record { machine = passed.1; timers = checked.timers })

  -- One round of the outer loop, for slices of `slices`.
  unfoldable pub round : ℕ → ℕ → ℤ → ℤ → Option ℕ → World → Option (Option ℕ × World)
  unfolding slice check_timers_on take_next
  round fuel slices now break_out cur w =
      elim (slice fuel cur (record w.machine { breakout = slices })) [
        | none ↦ none
        | some r ↦ some (end_round now break_out w.timers r.0 r.1)
      ]

  -- The outer loop from the k-th reading of the clock: the readings made, and the state at the end.
  unfoldable pub rounds : ℕ → ℕ → ℕ → (ℕ → ℤ) → ℤ → ℕ → Option ℕ → World → Option (ℕ × World)
  unfolding round
  rounds zero fuel slices clock break_out k cur w = none
  rounds (suc n) fuel slices clock break_out k cur w =
      let on : Option (ℕ × World) = elim (round fuel slices (clock k) break_out cur w) [
        | none ↦ none
        | some r ↦ rounds n fuel slices clock break_out (suc k) r.0 r.1
      ] in
      while_running w.machine.running (some (k, w)) on

-- kMaxExecWakeUpTime.
abbrev pub max_exec_wake_up_time : ℤ
max_exec_wake_up_time = pos 200

abbrev pub clip_wait : ℤ → ℤ
clip_wait t =
    if ltb_ℤ t (pos 0)
    then pos 0
    else if ltb_ℤ max_exec_wake_up_time t
    then max_exec_wake_up_time
    else t

-- Nothing is ready: 0 where no timer is set either, -2 where one is due within a millisecond, and else
-- the milliseconds until the first timer.
abbrev pub timer_reply : (ℤ → ℤ) → ℤ → List Observer → ℤ
timer_reply to_milliseconds now [] = pos 0
timer_reply to_milliseconds now (o ∷ os) =
    let wait = clip_wait (to_milliseconds (o.info -ℤ now)) in
    if ltb_ℤ (pos 0) wait then wait else negsuc 1

-- The value returned; -1 where clumps are ready.
unfoldable pub reply : (ℤ → ℤ) → Bool → ℤ → World → ℤ
unfolding ◌-ℤ◌
reply to_milliseconds allocation_failed now w =
    if allocation_failed
    then pos 0
    else if is_empty w.machine.queue
    then timer_reply to_milliseconds now w.timers
    else negsuc 0

-- ExecuteSlices; the last reading of the clock is the time of the reply.
unfoldable pub execute_slices :
    (ℕ → Machine → Option ℕ × Machine)
    → (ℤ → ℤ)
    → (ℤ → ℤ)
    → (ℕ → ℤ)
    → Bool
    → ℕ
    → ℕ
    → ℕ
    → ℤ
    → World
    → Option (ℤ × World)
unfolding rounds reply check_timers_on take_next ◌+ℤ◌
execute_slices step to_ticks to_milliseconds clock allocation_failed n fuel slices ms w =
    let break_out = clock 0 +ℤ to_ticks ms in
    let woken = check_timers_on (clock 0) w.timers w.machine in
    let first = take_next woken.machine in
    let start : World = record { machine = first.1; timers = woken.timers } in
    elim (rounds step n fuel slices clock break_out 1 first.0 start) [
      | none ↦ none
      | some r ↦ some (reply to_milliseconds allocation_failed (clock (r.0 - 1)) r.1, r.1)
    ]
