-- ===== src/Scheduler.antt =====
-- The clump scheduler: the instructions Trigger, Wait, CallVI, Done and Stop and
-- SuspendRunningQueueElt and EnqueueRunQueue (source/core/ExecutionContext.cpp), and VIClump::Trigger,
-- the wait lists and PressGo (source/core/VirtualInstrument.cpp). A clump and an instruction are
-- numbers; an instruction returned as `none` is the cul-de-sac. The snippets that copy parameters in
-- and out and a top VI's clean-up change no field of this state. Fuel bounds the walk along a wait
-- list: a wait list longer than `clumps` does not occur.
pub mod Lists
pub mod Suspend
pub mod Finish
pub mod Calls
use vireo_sdk.Common.{
  ℕ, zero, suc, ◌+◌, Bool, true, false, Option, none, some, ◌==◌, if◌then◌else◌, update,
}
use vireo_sdk.Common.Int.{ℤ, pos, negsuc, eqb_ℤ, ltb_ℤ, ◌-ℤ◌}
use vireo_sdk.ClumpQueue.{Next, ClumpQueue, enqueue, dequeue}

pub record Machine : Type 0 where
  pub clumps : ℕ
  pub next : Next
  pub queue : ClumpQueue
  pub running : Option ℕ
  pub breakout : ℕ
  pub waiting : ℕ → Option ℕ
  pub caller : ℕ → Option ℕ
  pub save_pc : ℕ → ℕ
  pub fire_count : ℕ → ℤ
  pub short_count : ℕ → ℤ

-- ExecutionContext::EnqueueRunQueue.
unfoldable pub enqueue_run_queue : ℕ → Machine → Machine
enqueue_run_queue c m = let r = enqueue c m.queue m.next in record m { queue = r.0; next = r.1 }

-- SuspendRunningQueueElt up to the choice of the next clump.
abbrev pub save_at : Option ℕ → ℕ → Machine → Machine
save_at none pc m = m
save_at (some c) pc m = record m { save_pc = update m.save_pc c pc }

abbrev pub picked : Option ℕ → ClumpQueue → Next → Machine → Option ℕ × Machine
picked none q next m = (none, record m { queue = q; next = next; running = none; breakout = 0 })
picked (some c) q next m =
    (some (m.save_pc c), record m { queue = q; next = next; running = some c })

-- Its choice: the first clump of the run queue, or none.
unfoldable pub pick : Machine → Option ℕ × Machine
unfolding dequeue
pick m = let r = dequeue m.queue m.next in picked r.0 r.1 r.2 m

abbrev pub suspend_running_queue_elt : ℕ → Machine → Option ℕ × Machine
suspend_running_queue_elt pc m = pick (save_at m.running pc m)

-- ExecutionContext::Stop.
unfoldable pub stop : Machine → Option ℕ × Machine
stop m = (none, record m { running = none; breakout = 0 })

-- VIClump::Trigger.
unfoldable pub trigger : ℕ → Machine → Machine
unfolding enqueue_run_queue ◌-ℤ◌
trigger c m =
    let left = m.short_count c -ℤ pos 1 in
    let m' = record m { short_count = update m.short_count c left } in
    if eqb_ℤ left (pos 0) then enqueue_run_queue c m' else m'

-- VirtualInstrument::PressGo on the root clump.
unfoldable pub press_go : ℕ → Machine → Machine
unfolding trigger
press_go root m = if ltb_ℤ (m.short_count root) (pos 1) then m else trigger root m

unfoldable pub insert_into_wait_list : ℕ → ℕ → Machine → Machine
insert_into_wait_list target elt m = record m {
  next = update m.next elt (m.waiting target);
  waiting = update m.waiting target (some elt);
}

-- The end of the list that goes on from a clump.
unfoldable pub last_of : ℕ → Next → ℕ → ℕ
last_of zero next c = c
last_of (suc fuel) next c = elim (next c) [ none ↦ c | some d ↦ last_of fuel next d ]

abbrev pub append_at : Option ℕ → ℕ → ℕ → Machine → Machine
append_at none target elt m = record m { waiting = update m.waiting target (some elt) }
append_at (some w) target elt m = record m {
  next = update m.next (last_of m.clumps m.next w) (some elt);
}

unfoldable pub append_to_wait_list : ℕ → ℕ → Machine → Machine
unfolding last_of
append_to_wait_list target elt m = append_at (m.waiting target) target elt m

-- The Wait instruction of the running clump on a target that is active.
abbrev pub wait_at : Option ℕ → ℕ → ℕ → Machine → Option ℕ × Machine
wait_at none target next_pc m = (some next_pc, m)
wait_at (some c) target next_pc m =
    suspend_running_queue_elt next_pc (insert_into_wait_list target c m)

-- The Wait instruction; `next_pc` is its next instruction.
unfoldable pub wait_for : ℕ → ℕ → Machine → Option ℕ × Machine
unfolding insert_into_wait_list pick
wait_for target next_pc m =
    if eqb_ℤ (m.short_count target) (m.fire_count target)
    then (some next_pc, m)
    else wait_at m.running target next_pc m

-- CallVI of the running clump on a target that is active.
abbrev pub call_later : Option ℕ → ℕ → ℕ → Machine → Option ℕ × Machine
call_later none target pc m = (some pc, m)
call_later (some c) target pc m = suspend_running_queue_elt pc (append_to_wait_list target c m)

-- The CallVI instruction at `pc`, of the running clump.
unfoldable pub call_vi : ℕ → ℕ → Machine → Option ℕ × Machine
unfolding trigger append_to_wait_list pick
call_vi target pc m =
    if ltb_ℤ (pos 0) (m.short_count target)
    then suspend_running_queue_elt pc
        (trigger target (record m { caller = update m.caller target m.running }))
    else call_later m.running target pc m

-- The loop of Done over the wait list.
unfoldable pub wake_waiters : ℕ → Option ℕ → Machine → Machine
unfolding enqueue_run_queue
wake_waiters zero w m = m
wake_waiters (suc fuel) none m = m
wake_waiters (suc fuel) (some c) m =
    let unlinked = record m { next = update m.next c none } in
    wake_waiters fuel (m.next c) (record (enqueue_run_queue c unlinked) { breakout = 0 })

-- The caller goes on behind its CallVI instruction, whose next instruction is `after_call` of it.
abbrev pub resume_at : (ℕ → ℕ) → ℕ → Option ℕ → Machine → Machine
resume_at after_call c none m = m
resume_at after_call c (some d) m = enqueue_run_queue d (record m {
  save_pc = update m.save_pc d (after_call (m.save_pc d));
  caller = update m.caller c none;
})

-- What Done leaves when the caller has been resumed: the wait list is woken, and the clump is idle.
abbrev pub wind_up : ℕ → Machine → Machine
wind_up c m =
    let m' = wake_waiters m.clumps (m.waiting c) (record m { waiting = update m.waiting c none }) in
    record m' { short_count = update m'.short_count c (m'.fire_count c) }

-- The Done instruction of the running clump `c`, whose code starts at `code_start`.
unfoldable pub done : (ℕ → ℕ) → ℕ → ℕ → Machine → Option ℕ × Machine
unfolding enqueue_run_queue wake_waiters pick
done after_call code_start c m =
    suspend_running_queue_elt code_start (wind_up c (resume_at after_call c (m.caller c) m))
