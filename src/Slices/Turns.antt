-- ===== src/Slices/Turns.antt =====
-- The ready clumps take turns.
use vireo_sdk.Common.{
  ℕ, zero, suc, ◌<◌, ◌≡◌, refl, sym, ap, ◌∙◌, subst, inl, inr, true, false, Option, none, some,
  List, [], ◌∷◌, ◌++◌, length, arith, append_assoc, append-nil, ◌==◌, ◌-◌, if-true, if-false,
  Bool-cases,
}
use vireo_sdk.Common.Int.{ℤ, ltb_ℤ, ◌<ℤ◌}
use vireo_sdk.Common.Pigeons.{AllNe}
use vireo_sdk.ClumpQueue.{Next, ClumpQueue, is_empty}
use vireo_sdk.ClumpQueue.Fifo.{Linked, enqueue-Linked, dequeue-Linked}
use vireo_sdk.Scheduler.{Machine, enqueue_run_queue}
use vireo_sdk.Slices.{
  World, exec, exec_times, slice, round, end_round, pass_on, take_next, requeue, keep_place,
  check_timers_on,
}
use vireo_sdk.Slices.Ending.{IsTame, exec_times-breakout}

-- The clump `r` runs, and the run queue is the linked list of the ready clumps, from which it is apart.
abbrev pub Ready : Machine → ℕ → List ℕ → Type 0
Ready m r xs = (m.running ≡ some r) × Linked m.queue m.next xs × AllNe r xs × (m.next r ≡ none)

Linked-apart :
    (q : ClumpQueue) (next : Next) (x : ℕ) (xs : List ℕ) → Linked q next (x ∷ xs) → AllNe x xs
Linked-apart q next x [] l = tt
Linked-apart q next x (y ∷ ys) (_, (t, _, (_, a, _))) = a

not_empty : (x : ℕ) (xs : List ℕ) → (x ∷ xs) ≡ [] → ⊥
not_empty x xs e = cc

keep-Ready :
    (cur : Option ℕ) (r : ℕ) (m : Machine) (xs : List ℕ)
    → Linked m.queue m.next xs
    → m.next r ≡ none
    → Linked (keep_place cur r m).queue (keep_place cur r m).next xs
      × ((keep_place cur r m).next r ≡ none)
keep-Ready none r m xs l e = (l, e)
keep-Ready (some pc) r m xs l e = (l, e)

-- At the end of a round within the time, the first clump of the run queue runs, and the clump that ran
-- goes to the end.
pass-Ready :
    (now break_out : ℤ) (cur : Option ℕ) (m : Machine) (r x : ℕ) (xs : List ℕ)
    → now <ℤ break_out
    → Ready m r (x ∷ xs)
    → Ready (pass_on now break_out (some r) cur m).1 x (xs ++ r ∷ [])
unfolding enqueue_run_queue take_next
pass-Ready now break_out cur m r x xs early (runs, l, a, free) =
    let within : ltb_ℤ now break_out ≡ true = ground arith in
    let busy : is_empty m.queue ≡ false = rw l.0 refl in
    let (l', free') = keep-Ready cur r m (x ∷ xs) l free in
    let q = (requeue cur r m).queue in
    let next = (requeue cur r m).next in
    let queued : Linked q next (x ∷ (xs ++ r ∷ [])) =
      enqueue-Linked r (keep_place cur r m).queue (keep_place cur r m).next (x ∷ xs) l' a free' in
    rw (within, busy)
      (elim (dequeue-Linked q next (x ∷ (xs ++ r ∷ [])) queued) [
        | inl (e, _) ↦ absurd (not_empty x (xs ++ r ∷ []) e)
        | inr (y, ys, e, first, rest, unlinked) ↦
            let same : x ≡ y = cc in
            let same' : xs ++ r ∷ [] ≡ ys = cc in
            let apart = Linked-apart q next x (xs ++ r ∷ []) queued in
            (first ∙ ap some (sym same), rw same' rest, apart, rw same unlinked)
      ])

module _ (step : ℕ → Machine → Option ℕ × Machine) where
  -- An instruction leaves the running clump running, and the ready clumps ready; it may make others ready.
  abbrev pub IsBusy : Type 0
  IsBusy =
      (pc : ℕ) (m : Machine) (r : ℕ) (xs : List ℕ)
      → Ready m r xs
      → (ys : List ℕ) × Ready (step pc m).1 r (xs ++ ys)

  exec-Ready :
      IsBusy
      → (cur : Option ℕ) (m : Machine) (r : ℕ) (xs : List ℕ) → Ready m r xs
      → (ys : List ℕ) × Ready (exec step cur m).1 r (xs ++ ys)
  exec-Ready busy none m r xs h = ([], subst (Ready m r) (sym (append-nil xs)) h)
  exec-Ready busy (some pc) m r xs h = busy pc m r xs h

  exec_times-Ready :
      IsBusy
      → (n : ℕ) (cur : Option ℕ) (m : Machine) (r : ℕ) (xs : List ℕ) → Ready m r xs
      → (ys : List ℕ) × Ready (exec_times step n cur m).1 r (xs ++ ys)
  unfolding exec_times
  exec_times-Ready busy zero cur m r xs h = ([], subst (Ready m r) (sym (append-nil xs)) h)
  exec_times-Ready busy (suc n) cur m r xs h =
      let u = exec step cur m in
      let (ys, h') = exec-Ready busy cur m r xs h in
      let (zs, h'') = exec_times-Ready busy n u.0 u.1 r (xs ++ ys) h' in
      (ys ++ zs, subst (Ready (exec_times step n u.0 u.1).1 r) (append_assoc xs ys zs) h'')

  slice-Ready :
      IsTame step
      → IsBusy
      → (fuel : ℕ) (cur : Option ℕ) (m : Machine) (r : ℕ) (xs : List ℕ) → m.breakout < fuel
      → Ready m r xs
      → (u : Option ℕ × Machine) × (slice step fuel cur m ≡ some u)
        × ((ys : List ℕ) × Ready u.1 r (xs ++ ys))
  unfolding slice
  slice-Ready tame busy zero cur m r xs h ready = absurd (omega arith)
  slice-Ready tame busy (suc fuel) cur m r xs h ready =
      let u = exec_times step 10 cur m in
      let less = exec_times-breakout step tame 10 cur m in
      let (ys, next) = exec_times-Ready busy 10 cur m r xs ready in
      elim (Bool-cases (u.1.breakout == 0)) [
        | inl e ↦ (u, if-true _ _ e, (ys, next))
        | inr e ↦
            let more : u.1.breakout - 1 < fuel = ground arith in
            let (v, ends, (zs, last)) =
              slice-Ready tame busy fuel u.0 (record u.1 { breakout = u.1.breakout - 1 }) r
                (xs ++ ys) more next in
            (v, if-false _ _ e ∙ ends, (ys ++ zs, subst (Ready v.1 r) (append_assoc xs ys zs) last))
      ]

  round-Ready :
      IsTame step
      → IsBusy
      → (fuel slices : ℕ) (now break_out : ℤ) (cur : Option ℕ) (w : World) (r x : ℕ) (xs : List ℕ)
      → slices < fuel
      → now <ℤ break_out
      → w.timers ≡ []
      → Ready w.machine r (x ∷ xs)
      → (u : Option ℕ × World) × (round step fuel slices now break_out cur w ≡ some u)
        × (u.1.timers ≡ [])
        × ((ys : List ℕ) × Ready u.1.machine x (xs ++ ys))
  unfolding round check_timers_on
  round-Ready tame busy fuel slices now break_out cur w r x xs h early idle ready =
      let m0 : Machine = record w.machine { breakout = slices } in
      let (u, ends, (ys, running)) = slice-Ready tame busy fuel cur m0 r (x ∷ xs) h ready in
      let made : round step fuel slices now break_out cur w
          ≡ some (end_round step now break_out [] u.0 u.1) =
        rw (round, ends) (ap (λ os. some (end_round step now break_out os u.0 u.1)) idle) in
      (
        end_round step now break_out [] u.0 u.1,
        made,
        refl,
        (
          ys ++ r ∷ [],
          subst (Ready (pass_on now break_out u.1.running u.0 u.1).1 x)
              (append_assoc xs ys (r ∷ []))
              (subst (λ o. Ready (pass_on now break_out o u.0 u.1).1 x ((xs ++ ys) ++ r ∷ []))
                (sym running.0) (pass-Ready now break_out u.0 u.1 r x (xs ++ ys) early running)),
        ),
      )

  -- The outer loop's state after `n` rounds, from the k-th reading of the clock.
  unfoldable pub turns : ℕ → ℕ → ℕ → (ℕ → ℤ) → ℤ → ℕ → Option ℕ → World → Option (Option ℕ × World)
  unfolding round
  turns zero fuel slices clock break_out k cur w = some (cur, w)
  turns (suc n) fuel slices clock break_out k cur w =
      elim (round step fuel slices (clock k) break_out cur w) [
        | none ↦ none
        | some r ↦ turns n fuel slices clock break_out (suc k) r.0 r.1
      ]

  -- Where no instruction raises the count of passes left in the slice, the instructions leave
  -- the running clump running and the ready clumps ready, though they may make others ready,
  -- no timer is set, the time is not over, and slices have fuel for one pass more than they
  -- count: a ready clump with n others before it in the run queue runs after n + 1 rounds of
  -- ExecuteSlices.
  pub turns-runs :
      IsTame step
      → IsBusy
      → (fuel slices : ℕ) (clock : ℕ → ℤ) (break_out : ℤ) (k : ℕ) (cur : Option ℕ) (w : World)
        (r c : ℕ) (xs ys : List ℕ)
      → slices < fuel
      → ((i : ℕ) → clock i <ℤ break_out)
      → w.timers ≡ []
      → Ready w.machine r (xs ++ c ∷ ys)
      → (u : Option ℕ × World) × (turns (suc (length xs)) fuel slices clock break_out k cur w
          ≡ some u)
        × (u.1.machine.running ≡ some c)
  unfolding turns
  turns-runs tame busy fuel slices clock break_out k cur w r c [] ys h early idle ready =
      let (u, made, _, (zs, next)) =
        round-Ready tame busy fuel slices (clock k) break_out cur w r c ys h (early k) idle ready in
      (u, rw (turns, made) refl, next.0)
  turns-runs tame busy fuel slices clock break_out k cur w r c (x ∷ xs) ys h early idle ready =
      let (u, made, idle', (zs, next)) =
        round-Ready tame busy fuel slices (clock k) break_out cur w r x (xs ++ c ∷ ys) h (early k)
          idle ready in
      let (v, made', runs) =
        turns-runs tame busy fuel slices clock break_out (suc k) u.0 u.1 x c xs (ys ++ zs) h early
          idle' (subst (Ready u.1.machine x) (append_assoc xs (c ∷ ys) zs) next) in
      (v, rw (turns, made) made', runs)
