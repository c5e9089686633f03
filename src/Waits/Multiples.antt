-- ===== src/Waits/Multiples.antt =====
-- When the wait for a multiple ends.
use vireo_sdk.Common.{
  get_elem?, drop, ℕ, ◌+◌, ◌/◌, ◌%◌, ◌≤◌, ◌<◌, ◌≡◌, ◌≢◌, refl, some, arith, ◌==◌, false, if-true,
  eq→beq,
}
use native.Mathlib.Nat.{div-add-mod', mod-lt, mul-mod_left}
use vireo_sdk.Common.Int.{pos, eqb_ℤ}
use vireo_sdk.Observe.{Exec, suspend_clump, insert_timer, reserve_observation_states}
use vireo_sdk.Waits.{
  Resolution, timer_value, next_multiple, wait_until_multiple, wait_until_tick_count, suspends,
}

next_multiple-range :
    (now m : ℕ)
    → 1 ≤ m
    → (now < next_multiple now m) × (next_multiple now m ≤ now + m) × (next_multiple now m % m ≡ 0)
next_multiple-range now m h =
    let cut = div-add-mod' (now + m) m in
    let low = mod-lt (now + m) h in (omega arith, omega arith, mul-mod_left ((now + m) / m) m)

-- Where the conversion to ticks turns no positive time into 0, an instruction that waits for a
-- multiple other than 0 suspends its clump until a multiple after the present time and at most
-- one multiple away, and stores that as the timer value; the clump stands in the timer list at
-- that time, holds no observation state, and the first clump of the run queue runs and is off it.
wait_until_multiple-suspends :
    (to_ticks : ℕ → ℕ) (now m : ℕ) (res : Resolution) (c : ℕ) (e : Exec)
    → ((t : ℕ) → 1 ≤ t → to_ticks t ≢ 0)
    → 1 ≤ m
    → let r = wait_until_multiple to_ticks now m res c e in
      (t : ℕ) × (now < t)
      × (t ≤ now + m)
      × (t % m ≡ 0)
      × (r.value ≡ some (timer_value res t))
      × (r.going ≡ suspends (get_elem? e.run_queue 0))
      × (r.exec.timers ≡ insert_timer c (pos (to_ticks t)) e.timers)
      × (r.exec.run_queue ≡ drop 1 e.run_queue)
      × (r.exec.observation_count c ≡ 0)
unfolding wait_until_multiple wait_until_tick_count reserve_observation_states suspend_clump
wait_until_multiple-suspends to_ticks now m res c e positive h =
    let (later, near, multiple) = next_multiple-range now m h in
    let some' : (m == 0) ≡ false = ground arith in
    let tick = to_ticks (next_multiple now m) in
    let ticks : tick ≢ 0 = positive (next_multiple now m) (omega arith) in
    let real : eqb_ℤ (pos tick) (pos 0) ≡ false = ground arith in
    (
      next_multiple now m,
      later,
      near,
      multiple,
      rw (wait_until_multiple, some') refl,
      rw (wait_until_multiple, some') refl,
      rw (wait_until_multiple, some', real) refl,
      rw (wait_until_multiple, some') refl,
      rw (wait_until_multiple, some') (if-true _ _ (eq→beq c c refl)),
    )
