-- ===== src/Slices/Ending.antt =====
-- ExecuteSlices ends once its time is over.
use vireo_sdk.Common.{
  ℕ, zero, suc, ◌+◌, ◌-◌, ◌≤◌, ◌<◌, ◌≡◌, refl, ap, ◌∙◌, inl, inr, Bool, false, Option, none, some,
  arith, ◌==◌, Bool-cases, Option-cases, if-true, if-false,
}
use vireo_sdk.Common.Int.{ℤ, ltb_ℤ, ◌≤ℤ◌, ◌+ℤ◌}
use vireo_sdk.Scheduler.{Machine, enqueue_run_queue}
use vireo_sdk.Slices.{
  World, exec, exec_times, slice, round, rounds, end_round, pass_on, while_running, check_timers_on,
  take_next, reply, execute_slices,
}

while-none {ℓ} : {A : Type ℓ} {o : Option ℕ} (x y : A) → o ≡ none → while_running o x y ≡ x
while-none x y e = ap (λ o'. while_running o' x y) e

while-some {ℓ} :
    {A : Type ℓ} {o : Option ℕ} (c : ℕ) (x y : A) → o ≡ some c → while_running o x y ≡ y
while-some c x y e = ap (λ o'. while_running o' x y) e

module _ (step : ℕ → Machine → Option ℕ × Machine) where
  -- No instruction raises the count of passes left in the slice: they leave it, or clear it.
  abbrev pub IsTame : Type 0
  IsTame = (pc : ℕ) (m : Machine) → (step pc m).1.breakout ≤ m.breakout

  exec-breakout :
      IsTame → (cur : Option ℕ) (m : Machine) → (exec step cur m).1.breakout ≤ m.breakout
  exec-breakout tame none m = omega arith
  exec-breakout tame (some pc) m = tame pc m

  pub exec_times-breakout :
      IsTame
      → (n : ℕ) (cur : Option ℕ) (m : Machine) → (exec_times step n cur m).1.breakout ≤ m.breakout
  unfolding exec_times
  exec_times-breakout tame zero cur m = omega arith
  exec_times-breakout tame (suc n) cur m =
      let r = exec step cur m in
      omega (arith, exec-breakout tame cur m, exec_times-breakout tame n r.0 r.1)

  -- A slice with fuel for one pass more than it has left ends.
  pub slice-ends :
      IsTame
      → (fuel : ℕ) (cur : Option ℕ) (m : Machine) → m.breakout < fuel
      → (r : Option ℕ × Machine) × (slice step fuel cur m ≡ some r)
  unfolding slice
  slice-ends tame zero cur m h = absurd (omega arith)
  slice-ends tame (suc fuel) cur m h =
      let r = exec_times step 10 cur m in
      let less = exec_times-breakout tame 10 cur m in
      elim (Bool-cases (r.1.breakout == 0)) [
        | inl e ↦ (r, if-true _ _ e)
        | inr e ↦
            let more : r.1.breakout - 1 < fuel = ground arith in
            let (r', ends) =
              slice-ends tame fuel r.0 (record r.1 { breakout = r.1.breakout - 1 }) more in
            (r', if-false _ _ e ∙ ends)
      ]

  -- When the time is over, no clump is left running.
  set_aside :
      (now break_out : ℤ) (o cur : Option ℕ) (m : Machine)
      → break_out ≤ℤ now
      → m.running ≡ o
      → (pass_on now break_out o cur m).1.running ≡ none
  unfolding enqueue_run_queue
  set_aside now break_out none cur m over e =
      let late : ltb_ℤ now break_out ≡ false = ground arith in rw late e
  set_aside now break_out (some c) cur m over e =
      let late : ltb_ℤ now break_out ≡ false = ground arith in rw late refl

  round-ends :
      IsTame
      → (fuel slices : ℕ) (now break_out : ℤ) (cur : Option ℕ) (w : World) → slices < fuel
      → (r : Option ℕ × World) × (round step fuel slices now break_out cur w ≡ some r)
        × (break_out ≤ℤ now → r.1.machine.running ≡ none)
  unfolding round
  round-ends tame fuel slices now break_out cur w h =
      let m0 : Machine = record w.machine { breakout = slices } in
      let (r, ends) = slice-ends tame fuel cur m0 h in
      let checked = check_timers_on now w.timers r.1 in
      (
        end_round step now break_out w.timers r.0 r.1,
        rw (round, ends) refl,
        λ over. set_aside now break_out checked.machine.running r.0 checked.machine over refl,
      )

  stops :
      (n fuel slices : ℕ) (clock : ℕ → ℤ) (break_out : ℤ) (k : ℕ) (cur : Option ℕ) (w : World)
      → w.machine.running ≡ none
      → rounds step (suc n) fuel slices clock break_out k cur w ≡ some (k, w)
  unfolding rounds
  stops n fuel slices clock break_out k cur w e = while-none _ _ e

  goes :
      (n fuel slices : ℕ) (clock : ℕ → ℤ) (break_out : ℤ) (k c : ℕ) (cur : Option ℕ) (w : World)
      (r : Option ℕ × World)
      → w.machine.running ≡ some c
      → round step fuel slices (clock k) break_out cur w ≡ some r
      → rounds step (suc n) fuel slices clock break_out k cur w
        ≡ rounds step n fuel slices clock break_out (suc k) r.0 r.1
  unfolding rounds
  goes n fuel slices clock break_out k c cur w r e made = while-some c _ _ e ∙ rw made refl

  -- Where the clock has reached the end of the time at all readings from `late` on, and slices have
  -- fuel, the loop ends within one round more than it takes to read the clock so often.
  pub rounds-end :
      IsTame
      → (n fuel slices : ℕ) (clock : ℕ → ℤ) (break_out : ℤ) (k : ℕ) (cur : Option ℕ) (w : World)
        (late : ℕ)
      → slices < fuel
      → ((i : ℕ) → late ≤ i → break_out ≤ℤ clock i)
      → late ≤ k + n
      → (r : ℕ × World) × (rounds step (suc (suc n)) fuel slices clock break_out k cur w ≡ some r)
        × (r.1.machine.running ≡ none)
  rounds-end tame zero fuel slices clock break_out k cur w late h over near =
      elim (Option-cases w.machine.running) [
        | inl e ↦ ((k, w), stops (suc zero) fuel slices clock break_out k cur w e, e)
        | inr (c, e) ↦
            let (r, made, late_stops) = round-ends tame fuel slices (clock k) break_out cur w h in
            let on = goes (suc zero) fuel slices clock break_out k c cur w r e made in
            let idle = late_stops (over k (omega arith)) in
            ((suc k, r.1), on ∙ stops zero fuel slices clock break_out (suc k) r.0 r.1 idle, idle)
      ]
  rounds-end tame (suc n) fuel slices clock break_out k cur w late h over near =
      elim (Option-cases w.machine.running) [
        | inl e ↦ ((k, w), stops (suc (suc n)) fuel slices clock break_out k cur w e, e)
        | inr (c, e) ↦
            let (r, made, _) = round-ends tame fuel slices (clock k) break_out cur w h in
            let on = goes (suc (suc n)) fuel slices clock break_out k c cur w r e made in
            let (r', ends, idle) =
              rounds-end tame n fuel slices clock break_out (suc k) r.0 r.1 late h over
                (omega arith) in
            (r', on ∙ ends, idle)
      ]

  -- ExecuteSlices returns, with no clump left running, where no instruction raises the count
  -- of passes left in the slice, slices have fuel for one pass more than they count, and the
  -- clock has reached the end of the time at all readings from a given one on; two rounds more
  -- than that reading are enough.
  pub execute_slices-ends :
      IsTame
      → (to_ticks to_milliseconds : ℤ → ℤ) (clock : ℕ → ℤ) (allocation_failed : Bool)
        (fuel slices late : ℕ) (ms : ℤ) (w : World)
      → slices < fuel
      → ((i : ℕ) → late ≤ i → clock 0 +ℤ to_ticks ms ≤ℤ clock i)
      → (r : ℤ × World) × (execute_slices step to_ticks to_milliseconds clock allocation_failed
            (suc (suc late))
            fuel
            slices
            ms
            w
          ≡ some r)
        × (r.1.machine.running ≡ none)
  unfolding execute_slices
  execute_slices-ends tame to_ticks to_milliseconds clock allocation_failed fuel slices late ms w h
        over =
      let woken = check_timers_on (clock 0) w.timers w.machine in
      let first = take_next woken.machine in
      let start : World = record { machine = first.1; timers = woken.timers } in
      let (r, ends, idle) =
        rounds-end tame late fuel slices clock (clock 0 +ℤ to_ticks ms) 1 first.0 start late h over
          (omega arith) in
      (
        (reply to_milliseconds allocation_failed (clock (r.0 - 1)) r.1, r.1),
        rw (execute_slices, ends) refl,
        idle,
      )
