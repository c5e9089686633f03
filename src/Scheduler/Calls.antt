-- ===== src/Scheduler/Calls.antt =====
-- What Trigger, CallVI and Wait do to the run queue and the wait lists.
use vireo_sdk.Common.{
  ℕ, ◌≤◌, ◌≡◌, refl, sym, ap, ◌∙◌, inl, inr, true, false, Option, none, some, List, [], ◌∷◌, ◌++◌,
  arith, if◌then◌else◌, update, Bool-cases, length, eq→beq, if-true,
}
use mathlib.Core.Path.{subst}
use vireo_sdk.Common.Int.{ℤ, pos, eqb_ℤ, ltb_ℤ, ◌-ℤ◌}
use vireo_sdk.Common.Pigeons.{AllNe}
use vireo_sdk.ClumpQueue.Fifo.{Run, Linked, Run-update, Run-snoc, enqueue-Linked}
use vireo_sdk.Scheduler.{
  Machine, last_of, trigger, enqueue_run_queue, append_at, append_to_wait_list,
  insert_into_wait_list, call_vi, call_later, suspend_running_queue_elt, pick, save_at,
}
use vireo_sdk.Scheduler.Lists.{
  Waiting, Apart, last_of-Run, Linked-update, AllNe-last, Apart-append, Waiting-agree,
}
use vireo_sdk.Scheduler.Suspend.{Runs, suspend-Runs, pick-keeps, pick-frame}

at_self {ℓ} : {A : Type ℓ} (i : ℕ) (f : ℕ → A) (x : A) → update f i x i ≡ x
at_self i f x = rw (eq→beq i i refl) refl

less_one : (x : ℤ) → eqb_ℤ (x -ℤ pos 1) (pos 0) ≡ eqb_ℤ x (pos 1)
unfolding ◌-ℤ◌
less_one x = ground arith

-- Trigger of a clump that stands in no list takes one from its trigger count, and puts it at
-- the end of the run queue exactly when none is left.
trigger-Linked :
    (c : ℕ) (m : Machine) (xs : List ℕ)
    → Linked m.queue m.next xs
    → AllNe c xs
    → m.next c ≡ none
    → let m' = trigger c m in
      (m'.short_count c ≡ m.short_count c -ℤ pos 1)
      × Linked m'.queue m'.next (if eqb_ℤ (m.short_count c) (pos 1) then xs ++ c ∷ [] else xs)
unfolding trigger enqueue_run_queue
trigger-Linked c m xs l a n = elim (Bool-cases (eqb_ℤ (m.short_count c) (pos 1))) [
  | inl e ↦
      let last : eqb_ℤ (m.short_count c -ℤ pos 1) (pos 0) ≡ true = less_one (m.short_count c) ∙ e in
      rw (e, trigger, last)
        (
          at_self c m.short_count (m.short_count c -ℤ pos 1),
          enqueue-Linked c m.queue m.next xs l a n,
        )
  | inr e ↦
      let more : eqb_ℤ (m.short_count c -ℤ pos 1) (pos 0) ≡ false =
        less_one (m.short_count c) ∙ e in
      rw (e, trigger, more) (at_self c m.short_count (m.short_count c -ℤ pos 1), l)
]

-- AppendToWaitList puts a clump that stands in no list at the end of the wait list.
pub append-Waiting :
    (target elt : ℕ) (m : Machine) (ws : List ℕ)
    → Waiting m.next (m.waiting target) ws
    → AllNe elt ws
    → m.next elt ≡ none
    → length ws ≤ m.clumps
    → let m' = append_to_wait_list target elt m in
      Waiting m'.next (m'.waiting target) (ws ++ elt ∷ [])
unfolding append_to_wait_list
append-Waiting target elt m [] w a n enough =
    let made : append_to_wait_list target elt m ≡ append_at none target elt m =
      ap (λ o. append_at o target elt m) w in
    rw made (at_self target m.waiting (some elt), (elt, (refl, n)))
append-Waiting target elt m (x ∷ xs) w a n enough =
    let t = w.1.0 in
    let made : append_to_wait_list target elt m ≡ append_at (some x) target elt m =
      ap (λ o. append_at o target elt m) w.0 in
    let end : last_of m.clumps m.next x ≡ t =
      last_of-Run m.clumps m.next x xs t w.1.1 (omega arith) in
    rw (made, end) (w.0, (elt, Run-snoc m.next elt x xs t a n w.1.1))

-- InsertIntoWaitList puts it at the head.
pub insert-Waiting :
    (target elt : ℕ) (m : Machine) (ws : List ℕ)
    → Waiting m.next (m.waiting target) ws
    → AllNe elt ws
    → m.next elt ≡ none
    → let m' = insert_into_wait_list target elt m in Waiting m'.next (m'.waiting target) (elt ∷ ws)
unfolding insert_into_wait_list
insert-Waiting target elt m ws w a n =
    (at_self target m.waiting (some elt), inserted ws (m.waiting target) w a)
  where
    inserted :
        (vs : List ℕ) (o : Option ℕ)
        → Waiting m.next o vs
        → AllNe elt vs
        → (t : ℕ) × Run (update m.next elt o) elt vs t
    inserted [] o r b = (elt, (refl, ground arith))
    inserted (x ∷ xs) o r b =
        (r.1.0, (at_self elt m.next o ∙ r.0, b, Run-update m.next elt x o xs r.1.0 b r.1.1))

trigger-keeps :
    (c : ℕ) (m : Machine)
    → let m' = trigger c m in
      m' ≡ record m { next = m'.next; queue = m'.queue; short_count = m'.short_count }
unfolding trigger enqueue_run_queue
trigger-keeps c m = elim (Bool-cases (eqb_ℤ (m.short_count c -ℤ pos 1) (pos 0))) [
  | inl e ↦ rw (trigger, e) refl
  | inr e ↦ rw (trigger, e) refl
]

append-keeps :
    (target elt : ℕ) (m : Machine)
    → let m' = append_to_wait_list target elt m in
      m' ≡ record m { next = m'.next; waiting = m'.waiting }
unfolding append_to_wait_list
append-keeps target elt m = keeps (m.waiting target)
  where
    keeps :
        (o : Option ℕ)
        → let m' = append_at o target elt m in
          m' ≡ record m { next = m'.next; waiting = m'.waiting }
    keeps none = refl
    keeps (some w) = refl

append-Linked :
    (target elt : ℕ) (m : Machine) (ws xs : List ℕ)
    → Waiting m.next (m.waiting target) ws
    → Apart ws xs
    → length ws ≤ m.clumps
    → Linked m.queue m.next xs
    → let m' = append_to_wait_list target elt m in Linked m'.queue m'.next xs
unfolding append_to_wait_list
append-Linked target elt m [] xs w apart enough l =
    let made : append_to_wait_list target elt m ≡ append_at none target elt m =
      ap (λ o. append_at o target elt m) w in
    rw made l
append-Linked target elt m (x ∷ ws) xs w apart enough l =
    let t = w.1.0 in
    let made : append_to_wait_list target elt m ≡ append_at (some x) target elt m =
      ap (λ o. append_at o target elt m) w.0 in
    let end : last_of m.clumps m.next x ≡ t =
      last_of-Run m.clumps m.next x ws t w.1.1 (omega arith) in
    rw (made, end)
      (Linked-update m.queue m.next t (some elt) xs (AllNe-last m.next x ws t xs apart w.1.1) l)

suspend-waiting :
    (pc : ℕ) (m : Machine) (k : ℕ) (ws xs : List ℕ)
    → Linked m.queue m.next xs
    → Apart ws xs
    → Waiting m.next (m.waiting k) ws
    → let m' = (suspend_running_queue_elt pc m).1 in Waiting m'.next (m'.waiting k) ws
suspend-waiting pc m k ws xs l apart w = kept m.running
  where
    kept : (o : Option ℕ) → let m' = (pick (save_at o pc m)).1 in Waiting m'.next (m'.waiting k) ws
    kept none =
        subst (λ v. Waiting (pick m).1.next v ws)
          (sym (ap (λ (n : Machine). n.waiting k) (pick-keeps m)))
          (Waiting-agree m.next (pick m).1.next (m.waiting k) ws xs (λ j b. pick-frame j m xs l b)
            apart w)
    kept (some c) =
        let n : Machine = record m { save_pc = update m.save_pc c pc } in
        subst (λ v. Waiting (pick n).1.next v ws)
          (sym (ap (λ (n' : Machine). n'.waiting k) (pick-keeps n)))
          (Waiting-agree n.next (pick n).1.next (n.waiting k) ws xs (λ j b. pick-frame j n xs l b)
            apart w)

suspend-caller :
    (pc : ℕ) (m : Machine) (k : ℕ) → (suspend_running_queue_elt pc m).1.caller k ≡ m.caller k
suspend-caller pc m k =
    ap (λ (n : Machine). n.caller k) (pick-keeps (save_at m.running pc m)) ∙ saved m.running
  where
    saved : (o : Option ℕ) → (save_at o pc m).caller k ≡ m.caller k
    saved none = refl
    saved (some c) = refl

-- CallVI of a clump that stands in no list and waits for one trigger makes the running clump
-- its caller, which stops at the instruction; the called clump runs after the clumps that were
-- ready.
call-starts :
    (target pc c : ℕ) (m : Machine) (xs : List ℕ)
    → m.running ≡ some c
    → m.short_count target ≡ pos 1
    → Linked m.queue m.next xs
    → AllNe target xs
    → m.next target ≡ none
    → let r = call_vi target pc m in
      Runs (xs ++ target ∷ []) (update m.save_pc c pc) r × (r.1.caller target ≡ some c)
unfolding call_vi
call-starts target pc c m xs e one l a n =
    let idle : ltb_ℤ (pos 0) (m.short_count target) ≡ true = ground arith in
    let called : Machine = record m { caller = update m.caller target m.running } in
    let started = trigger target called in
    let (_, ready) = trigger-Linked target called xs l a n in
    let last : eqb_ℤ (m.short_count target) (pos 1) ≡ true = ground arith in
    let made : call_vi target pc m ≡ suspend_running_queue_elt pc started =
      rw (call_vi, idle) refl in
    let kept = trigger-keeps target called in
    let running : started.running ≡ some c = ap (λ (n : Machine). n.running) kept ∙ e in
    let runs =
      suspend-Runs pc c started (xs ++ target ∷ []) running
        (subst (λ zs. Linked started.queue started.next zs) (if-true _ _ last) ready) in
    let by : started.caller target ≡ some c =
      ap (λ (n : Machine). n.caller target) kept ∙ at_self target m.caller m.running ∙ e in
    rw made (
      subst (λ f. Runs (xs ++ target ∷ []) (update f c pc) (suspend_running_queue_elt pc started))
          (ap (λ (n : Machine). n.save_pc) kept) runs,
      suspend-caller pc started target ∙ by,
    )

-- CallVI of a target with no trigger outstanding, where the run queue and the target's wait
-- list are linked lists apart from each other and from the running clump, and the wait list is
-- no longer than the number of clumps, stops the running clump at the instruction, and puts it
-- at the end of the wait list; the first ready clump runs.
call-waits :
    (target pc c : ℕ) (m : Machine) (xs ws : List ℕ)
    → m.running ≡ some c
    → ltb_ℤ (pos 0) (m.short_count target) ≡ false
    → Linked m.queue m.next xs
    → Waiting m.next (m.waiting target) ws
    → Apart ws xs
    → AllNe c xs
    → AllNe c ws
    → m.next c ≡ none
    → length ws ≤ m.clumps
    → let r = call_vi target pc m in
      Runs xs (update m.save_pc c pc) r × Waiting r.1.next (r.1.waiting target) (ws ++ c ∷ [])
unfolding call_vi
call-waits target pc c m xs ws e busy l w apart a b n enough =
    let added = append_to_wait_list target c m in
    let made : call_vi target pc m ≡ suspend_running_queue_elt pc added =
      rw (call_vi, busy) (ap (λ o. call_later o target pc m) e) in
    let kept = append-keeps target c m in
    let l' = append-Linked target c m ws xs w apart enough l in
    let w' = append-Waiting target c m ws w b n enough in
    let running : added.running ≡ some c = ap (λ (n : Machine). n.running) kept ∙ e in
    rw made (
      subst (λ f. Runs xs (update f c pc) (suspend_running_queue_elt pc added))
          (ap (λ (n : Machine). n.save_pc) kept) (suspend-Runs pc c added xs running l'),
      suspend-waiting pc added target (ws ++ c ∷ []) xs l' (Apart-append c ws xs apart a) w',
    )
