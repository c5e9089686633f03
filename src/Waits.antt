-- ===== src/Waits.antt =====
-- The instructions that wait for a time or for an occurrence (source/core/Synchronization.cpp), run by
-- one clump. Tick counts are natural numbers; the platform's conversions between ticks and units of
-- time are parameters.
pub mod Multiples
pub mod Occurs
use vireo_sdk.Common.{
  ℕ, ◌+◌, ◌*◌, ◌/◌, ◌%◌, ◌^◌, Bool, true, false, not, ◌&&◌, Option, none, some, List, [], ◌∷◌, ◌==◌,
  if◌then◌else◌, update, ltb,
}
use vireo_sdk.Common.Int.{ℤ, pos, ◌+ℤ◌}
use vireo_sdk.Observe.{
  Observer, observer, Exec, Occurrence, has_occurred, reserve_observation_states, suspend_clump,
  clear_observation_states, insert_observer,
}

pub data Resolution : Type 0 where
  uint32 : Resolution
  uint16 : Resolution
  uint8 : Resolution

-- SetTimerValueWithResolution: what is stored. It succeeds at each of the three resolutions.
abbrev pub timer_value : Resolution → ℕ → ℕ
timer_value uint32 t = t % 2 ^ 32
timer_value uint16 t = t % 2 ^ 16
timer_value uint8 t = t % 2 ^ 8

-- Where the clump goes on: at the next instruction at once, or suspended, to go on at the next
-- instruction or to try this one again when it is woken, while another clump runs, or none.
pub data Going : Type 0 where
  continues : Going
  suspends : Option ℕ → Going
  retries : Option ℕ → Going

-- VIClump::WaitUntilTickCount: one observation state, in the timer list, that is given up at once.
unfoldable pub wait_until_tick_count : ℕ → ℕ → Exec → Going × Exec
unfolding reserve_observation_states suspend_clump
wait_until_tick_count c tick e =
    let e' = reserve_observation_states c 1 (pos tick) e in
    let r = suspend_clump (record e' { observation_count = update e'.observation_count c 0 }) in
    (suspends r.0, r.1)

-- The timer value that the instruction sets, where the clump goes on, and the execution context.
pub record Wait : Type 0 where
  pub value : Option ℕ
  pub going : Going
  pub exec : Exec

-- WaitTickCount at the tick count `now`.
unfoldable pub wait_tick_count : ℕ → ℕ → Resolution → ℕ → Exec → Wait
unfolding wait_until_tick_count
wait_tick_count now wait res c e =
    let future = now + wait in
    let r = wait_until_tick_count c future e in
    record { value = some (timer_value res future); going = r.0; exec = r.1 }

-- WaitMicroseconds and WaitMilliseconds: `from_now` is the platform's tick count that lies so far ahead,
-- and `to_units` the conversion back.
unfoldable pub wait_units : (ℕ → ℕ) → (ℕ → ℕ) → ℕ → Resolution → ℕ → Exec → Wait
unfolding wait_until_tick_count
wait_units from_now to_units wait res c e =
    let future = from_now wait in
    let r = wait_until_tick_count c future e in
    record { value = some (timer_value res (to_units future)); going = r.0; exec = r.1 }

-- The next multiple after `now`.
abbrev pub next_multiple : ℕ → ℕ → ℕ
next_multiple now multiple = ((now + multiple) / multiple) * multiple

-- WaitUntilTickCountMultiple, WaitUntilMicrosecondsMultiple and WaitUntilMillisecondsMultiple: `now` is in
-- the unit of the instruction, and `to_ticks` converts from it.
unfoldable pub wait_until_multiple : (ℕ → ℕ) → ℕ → ℕ → Resolution → ℕ → Exec → Wait
unfolding wait_until_tick_count
wait_until_multiple to_ticks now multiple res c e =
    let next = next_multiple now multiple in
    let r = wait_until_tick_count c (to_ticks next) e in
    if multiple == 0
    then record { value = none; going = continues; exec = e }
    else record { value = some (timer_value res next); going = r.0; exec = r.1 }

-- What WaitOnOccurrence leaves: where it goes on, its timed-out output where that is set, its stored
-- count, the occurrence and the execution context.
pub record Occurred : Type 0 where
  pub going : Going
  pub timed_out : Option Bool
  pub static_count : ℤ
  pub occurrence : Occurrence
  pub exec : Exec

abbrev pub any_observer : List Observer → Bool
any_observer [] = false
any_observer (o ∷ os) = true

-- The first try: it waits until the next time that the occurrence is set.
unfoldable pub wait_first : (ℕ → ℤ) → ℕ → ℤ → ℕ → Occurrence → Exec → Occurred
unfolding reserve_observation_states insert_observer suspend_clump ◌+ℤ◌
wait_first deadline ms static_count c occ e =
    let future = if ltb 0 ms then deadline ms else pos 0 in
    let r = suspend_clump (reserve_observation_states c 2 future e) in
    record {
      going = retries r.0;
      timed_out = none;
      static_count = static_count;
      occurrence = record occ {
        observers = insert_observer (observer c (occ.set_count +ℤ pos 1)) occ.observers;
      };
      exec = r.1;
    }

abbrev pub wait_over : ℕ → Occurrence → Exec → Occurred
wait_over c occ e =
    let cleared = clear_observation_states c occ.observers e in
    record {
      going = continues;
      timed_out = some (any_observer occ.observers);
      static_count = occ.set_count;
      occurrence = record occ { observers = cleared.0 };
      exec = cleared.1;
    }

unfoldable pub wait_on_occurrence : (ℕ → ℤ) → Bool → ℕ → ℤ → ℕ → Occurrence → Exec → Occurred
unfolding has_occurred wait_first clear_observation_states
wait_on_occurrence deadline ignore_previous ms static_count c occ e =
    if not ignore_previous && has_occurred static_count ignore_previous occ
    then wait_over c occ e
    else if e.observation_count c == 0
    then wait_first deadline ms static_count c occ e
    else wait_over c occ e
