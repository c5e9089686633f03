-- ===== src/Slices/Reply.antt =====
-- What ExecuteSlices tells its caller.
use vireo_sdk.Common.{
  ◌≡◌, ◌≢◌, refl, ◌⊎◌, inl, inr, true, false, List, [], ◌∷◌, arith, Bool-cases, if◌then◌else◌,
}
use vireo_sdk.Common.Int.{ℤ, pos, negsuc, ltb_ℤ, ◌≤ℤ◌, ◌-ℤ◌}
use vireo_sdk.Observe.{Observer}
use vireo_sdk.ClumpQueue.{is_empty}
use vireo_sdk.Slices.{World, reply, clip_wait, timer_reply}

timer_reply-range :
    (to_milliseconds : ℤ → ℤ) (now : ℤ) (os : List Observer)
    → let v = timer_reply to_milliseconds now os in
      ((os ≡ []) × (v ≡ pos 0)) ⊎ ((os ≢ []) × ((v ≡ negsuc 1) ⊎ ((pos 1 ≤ℤ v) × (v ≤ℤ pos 200))))
timer_reply-range to_milliseconds now [] = inl (refl, refl)
timer_reply-range to_milliseconds now (o ∷ os) =
    inr (λ e. cc, clipped (to_milliseconds (o.info -ℤ now)))
  where
    clipped :
        (t : ℤ)
        → let v = (if ltb_ℤ (pos 0) (clip_wait t) then clip_wait t else negsuc 1) in
          (v ≡ negsuc 1) ⊎ ((pos 1 ≤ℤ v) × (v ≤ℤ pos 200))
    clipped t = ground arith

-- Where no allocation has failed, the value that ExecuteSlices returns is -1 with clumps
-- ready, 0 with none ready and no timer set, and with none ready and a timer set -2 or a
-- number of milliseconds from 1 to 200.
reply_lem :
    (to_milliseconds : ℤ → ℤ) (now : ℤ) (w : World)
    → let v = reply to_milliseconds false now w in
      ((is_empty w.machine.queue ≡ false) × (v ≡ negsuc 0))
      ⊎ (((is_empty w.machine.queue ≡ true) × (w.timers ≡ []) × (v ≡ pos 0))
          ⊎ ((is_empty w.machine.queue ≡ true)
              × (w.timers ≢ [])
              × ((v ≡ negsuc 1) ⊎ ((pos 1 ≤ℤ v) × (v ≤ℤ pos 200)))))
unfolding reply
reply_lem to_milliseconds now w = elim (Bool-cases (is_empty w.machine.queue)) [
  | inl e ↦
      let same : reply to_milliseconds false now w ≡ timer_reply to_milliseconds now w.timers =
        rw (reply, e) refl in
      rw same (elim (timer_reply-range to_milliseconds now w.timers) [
        | inl (none', v) ↦ inr (inl (e, none', v))
        | inr (some', v) ↦ inr (inr (e, some', v))
      ])
  | inr e ↦ inl (e, rw (reply, e) refl)
]
