-- ===== src/Scheduler/Finish.antt =====
-- What the Done instruction does.
use vireo_sdk.Common.{
  ℕ, ◌≤◌, ◌≡◌, refl, ap, ◌∙◌, Option, none, some, List, [], ◌∷◌, ◌++◌, arith, update, length,
  eq→beq, append-nil,
}
use vireo_sdk.Common.Pigeons.{AllNe}
use mathlib.Core.Path.{subst}
use vireo_sdk.Common.Int.{ℤ}
use vireo_sdk.ClumpQueue.{Next}
use vireo_sdk.ClumpQueue.Fifo.{Linked, enqueue-Linked}
use vireo_sdk.Scheduler.{
  Machine, wake_waiters, enqueue_run_queue, resume_at, wind_up, done, suspend_running_queue_elt,
  save_at,
}
use vireo_sdk.Scheduler.Lists.{
  Waiting, Apart, Apart-snoc, Waiting-frame, wake_waiters-Linked, wake_waiters-keeps,
}
use vireo_sdk.Scheduler.Suspend.{Runs, suspend-Runs, pick-keeps}

abbrev pub callers : Option ℕ → List ℕ
callers none = []
callers (some d) = d ∷ []

-- A caller stands in no list.
abbrev pub Suspended : Next → List ℕ → List ℕ → Option ℕ → Type 0
Suspended next xs ws none = Unit {0}
Suspended next xs ws (some d) = AllNe d xs × AllNe d ws × (next d ≡ none)

-- Where the clumps go on: the caller behind its CallVI instruction, the others where they were.
abbrev pub resumed_pc : (ℕ → ℕ) → Option ℕ → (ℕ → ℕ) → ℕ → ℕ
resumed_pc after_call none pc = pc
resumed_pc after_call (some d) pc = update pc d (after_call (pc d))

-- The state in which Done has put the caller on the run queue.
record Resumed (after_call : ℕ → ℕ) (c : ℕ) (o : Option ℕ) (m m' : Machine) (xs ws : List ℕ)
    : Type 0 where
  ready : Linked m'.queue m'.next (xs ++ callers o)
  wait_list : Waiting m'.next (m'.waiting c) ws
  apart : Apart ws (xs ++ callers o)
  pcs : m'.save_pc ≡ resumed_pc after_call o m.save_pc
  rest :
      (m'.running ≡ m.running)
      × (m'.clumps ≡ m.clumps)
      × (m'.fire_count ≡ m.fire_count)
      × (m'.caller c ≡ none)

resume_at-Resumed :
    (after_call : ℕ → ℕ) (c : ℕ) (o : Option ℕ) (m : Machine) (xs ws : List ℕ)
    → m.caller c ≡ o
    → Linked m.queue m.next xs
    → Waiting m.next (m.waiting c) ws
    → Apart ws xs
    → Suspended m.next xs ws o
    → Resumed after_call c o m (resume_at after_call c o m) xs ws
unfolding enqueue_run_queue
resume_at-Resumed after_call c none m xs ws e l w a s = record {
  ready = rw append-nil l;
  wait_list = w;
  apart = rw append-nil a;
  pcs = refl;
  rest = (refl, refl, refl, e);
}
resume_at-Resumed after_call c (some d) m xs ws e l w a s = record {
  ready = enqueue-Linked d m.queue m.next xs l s.0 s.2;
  wait_list = Waiting-frame d (m.waiting c) ws m.queue m.next xs l a s.1 w;
  apart = Apart-snoc d ws xs a s.1;
  pcs = refl;
  rest = (refl, refl, refl, ground arith);
}

at_self {ℓ} : {A : Type ℓ} (i : ℕ) (f : ℕ → A) (x : A) → update f i x i ≡ x
at_self i f x = rw (eq→beq i i refl) refl

wind_up-Linked :
    (after_call : ℕ → ℕ) (c : ℕ) (o : Option ℕ) (m m1 : Machine) (xs ws : List ℕ)
    → Resumed after_call c o m m1 xs ws
    → length ws ≤ m.clumps
    → let m2 = wind_up c m1 in
      Linked m2.queue m2.next (xs ++ callers o ++ ws)
      × (m2.running ≡ m.running)
      × (m2.save_pc ≡ resumed_pc after_call o m.save_pc)
      × (m2.short_count c ≡ m.fire_count c)
      × (m2.waiting c ≡ none)
      × (m2.caller c ≡ none)
wind_up-Linked after_call c o m m1 xs ws r enough =
    let m1' : Machine = record m1 { waiting = update m1.waiting c none } in
    let woken =
      wake_waiters-Linked m1.clumps (m1.waiting c) ws (xs ++ callers o) m1' r.ready r.wait_list
        r.apart (omega (arith, r.rest)) in
    let woken_up = wake_waiters m1.clumps (m1.waiting c) m1' in
    let kept = wake_waiters-keeps m1.clumps (m1.waiting c) m1' in
    (
      woken,
      ap (λ (n : Machine). n.running) kept ∙ r.rest.0,
      ap (λ (n : Machine). n.save_pc) kept ∙ r.pcs,
      at_self c woken_up.short_count (woken_up.fire_count c)
          ∙ ap (λ (n : Machine). n.fire_count c) kept
          ∙ ap (λ (f : ℕ → ℤ). f c) r.rest.2,
      ap (λ (n : Machine). n.waiting c) kept ∙ at_self c m1.waiting none,
      ap (λ (n : Machine). n.caller c) kept ∙ r.rest.3,
    )

-- After the Done instruction of the running clump, where the run queue and the clump's wait
-- list are linked lists apart from each other and from its caller, and the wait list is no
-- longer than the number of clumps, the clumps that were ready come first, then the caller
-- behind its CallVI instruction, then the clumps of the wait list in its order, and the first
-- of all these runs, or nothing where there is none; the clump has its trigger count back, no
-- caller and nobody waiting.
pub done-Runs :
    (after_call : ℕ → ℕ) (code_start c : ℕ) (m : Machine) (xs ws : List ℕ)
    → m.running ≡ some c
    → Linked m.queue m.next xs
    → Waiting m.next (m.waiting c) ws
    → Apart ws xs
    → Suspended m.next xs ws (m.caller c)
    → length ws ≤ m.clumps
    → let r = done after_call code_start c m in
      let pc = update (resumed_pc after_call (m.caller c) m.save_pc) c code_start in
      Runs (xs ++ callers (m.caller c) ++ ws) pc r
      × (r.1.short_count c ≡ m.fire_count c)
      × (r.1.waiting c ≡ none)
      × (r.1.caller c ≡ none)
unfolding done
done-Runs after_call code_start c m xs ws e l w a s enough =
    let o = m.caller c in
    let m2 = wind_up c (resume_at after_call c o m) in
    let (linked, same, pcs, short, waits, calls) =
      wind_up-Linked after_call c o m (resume_at after_call c o m) xs ws
        (resume_at-Resumed after_call c o m xs ws refl l w a s) enough in
    let runs = suspend-Runs code_start c m2 (xs ++ callers o ++ ws) (same ∙ e) linked in
    let saved : save_at m2.running code_start m2 ≡ save_at (some c) code_start m2 =
      ap (λ p. save_at p code_start m2) (same ∙ e) in
    let kept = pick-keeps (save_at m2.running code_start m2) in
    (
      subst
          (λ pc.
            Runs (xs ++ callers o ++ ws) (update pc c code_start)
              (suspend_running_queue_elt code_start m2))
          pcs runs,
      ap (λ (n : Machine). n.short_count c) kept
          ∙ ap (λ (n : Machine). n.short_count c) saved
          ∙ short,
      ap (λ (n : Machine). n.waiting c) kept ∙ ap (λ (n : Machine). n.waiting c) saved ∙ waits,
      ap (λ (n : Machine). n.caller c) kept ∙ ap (λ (n : Machine). n.caller c) saved ∙ calls,
    )
