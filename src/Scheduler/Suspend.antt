-- ===== src/Scheduler/Suspend.antt =====
-- SuspendRunningQueueElt runs the clump that has been ready the longest.
use vireo_sdk.Common.{
  ℕ, ◌≡◌, refl, sym, ap, ◌∙◌, inl, inr, Option, none, some, List, [], ◌∷◌, update,
}
use vireo_sdk.Common.Pigeons.{AllNe}
use mathlib.Core.Path.{subst}
use vireo_sdk.ClumpQueue.{Next, ClumpQueue, dequeue}
use vireo_sdk.ClumpQueue.Fifo.{Linked, dequeue-Linked, dequeue-frame}
use vireo_sdk.Scheduler.{Machine, pick, picked, save_at, suspend_running_queue_elt}

-- What is running after a suspension, where the clumps of `xs` are ready, the first of them next.
abbrev pub Runs : List ℕ → (ℕ → ℕ) → Option ℕ × Machine → Type 0
Runs [] pc r =
    (r.0 ≡ none) × (r.1.running ≡ none) × (r.1.breakout ≡ 0) × Linked r.1.queue r.1.next []
Runs (x ∷ xs) pc r =
    (r.0 ≡ some (pc x))
    × (r.1.running ≡ some x)
    × Linked r.1.queue r.1.next xs
    × (r.1.next x ≡ none)

pub pick-Runs : (m : Machine) (xs : List ℕ) → Linked m.queue m.next xs → Runs xs m.save_pc (pick m)
unfolding pick
pick-Runs m [] l = elim (dequeue-Linked m.queue m.next [] l) [
  | inl (_, made) ↦
      let none' : pick m ≡ picked none m.queue m.next m =
        ap (λ (r : Option ℕ × ClumpQueue × Next). picked r.0 r.1 r.2 m) made in
      rw none' (refl, refl, refl, l)
  | inr (x, ys, e, _, _, _) ↦ let bad : [] ≡ x ∷ ys = e in cc
]
pick-Runs m (x ∷ xs) l = elim (dequeue-Linked m.queue m.next (x ∷ xs) l) [
  | inl (e, _) ↦ let bad : x ∷ xs ≡ [] = e in cc
  | inr (y, ys, e, got, l', unlinked) ↦
      let here : y ≡ x = cc (sym e) in
      let rest : ys ≡ xs = cc (sym e) in
      let r = dequeue m.queue m.next in
      let made : pick m ≡ picked (some y) r.1 r.2 m = ap (λ o. picked o r.1 r.2 m) got in
      rw made (
        ap (λ k. some (m.save_pc k)) here,
        ap some here,
        subst (λ zs. Linked (dequeue m.queue m.next).1 (dequeue m.queue m.next).2 zs) rest l',
        subst (λ k. (dequeue m.queue m.next).2 k ≡ none) here unlinked,
      )
]

-- Where the run queue is the linked list of the ready clumps, SuspendRunningQueueElt saves
-- where the running clump is to go on, and the first ready clump runs from where it was; where
-- none is ready, nothing runs and the execution loop is left.
pub suspend-Runs :
    (pc c : ℕ) (m : Machine) (xs : List ℕ)
    → m.running ≡ some c
    → Linked m.queue m.next xs
    → Runs xs (update m.save_pc c pc) (suspend_running_queue_elt pc m)
suspend-Runs pc c m xs e l =
    let saved : save_at m.running pc m ≡ save_at (some c) pc m = ap (λ o. save_at o pc m) e in
    rw saved (pick-Runs (record m { save_pc = update m.save_pc c pc }) xs l)

-- The choice of the next clump changes the run queue and what is running, and nothing else.
pub pick-keeps :
    (m : Machine)
    → let m' = (pick m).1 in
      m'
      ≡ record m { next = m'.next; queue = m'.queue; running = m'.running; breakout = m'.breakout }
unfolding pick
pick-keeps m = keeps (dequeue m.queue m.next).0
  where
    keeps :
        (o : Option ℕ)
        → let r = dequeue m.queue m.next in
          let m' = (picked o r.1 r.2 m).1 in
          m' ≡ record m {
            next = m'.next;
            queue = m'.queue;
            running = m'.running;
            breakout = m'.breakout;
          }
    keeps none = refl
    keeps (some c) = refl

picked-next :
    (o : Option ℕ) (q : ClumpQueue) (next : Next) (m : Machine) → (picked o q next m).1.next ≡ next
picked-next none q next m = refl
picked-next (some c) q next m = refl

-- A clump outside the run queue keeps its link.
pub pick-frame :
    (k : ℕ) (m : Machine) (xs : List ℕ)
    → Linked m.queue m.next xs
    → AllNe k xs
    → (pick m).1.next k ≡ m.next k
unfolding pick
pick-frame k m xs l a =
    let r = dequeue m.queue m.next in
    ap (λ (f : Next). f k) (picked-next r.0 r.1 r.2 m) ∙ dequeue-frame k m.queue m.next xs l a
