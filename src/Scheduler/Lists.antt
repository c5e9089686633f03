-- ===== src/Scheduler/Lists.antt =====
-- The run queue and the wait lists are linked through the same field, and stay apart.
use vireo_sdk.Common.{
  ℕ, zero, suc, ◌≤◌, ◌≡◌, ◌≢◌, refl, sym, ◌∙◌, Option, none, some, List, [], ◌∷◌, ◌++◌, arith,
  update, length, append-nil, append_assoc,
}
use vireo_sdk.Common.Pigeons.{AllNe}
use mathlib.Core.Path.{subst}
use vireo_sdk.ClumpQueue.{Next, ClumpQueue, enqueue}
use vireo_sdk.ClumpQueue.Fifo.{Run, Linked, Run-last, Run-update, enqueue-Linked, AllNe-snoc}
use vireo_sdk.Scheduler.{Machine, last_of, wake_waiters, enqueue_run_queue}

-- The wait list that starts at `w`.
abbrev pub Waiting : Next → Option ℕ → List ℕ → Type 0
Waiting next w [] = w ≡ none
Waiting next w (x ∷ xs) = (w ≡ some x) × ((t : ℕ) × Run next x xs t)

-- No clump of `ws` is in `xs`.
abbrev pub Apart : List ℕ → List ℕ → Type 0
Apart [] xs = Unit {0}
Apart (w ∷ ws) xs = AllNe w xs × Apart ws xs

pub Apart-snoc : (c : ℕ) (ws xs : List ℕ) → Apart ws xs → AllNe c ws → Apart ws (xs ++ c ∷ [])
Apart-snoc c [] xs a n = tt
Apart-snoc c (w ∷ ws) xs a n =
    (AllNe-snoc w c xs a.0 (λ e. n.0 (sym e)), Apart-snoc c ws xs a.1 n.1)

-- A write to a clump outside the queue leaves the queue as it is.
pub Linked-update :
    (q : ClumpQueue) (next : Next) (c : ℕ) (v : Option ℕ) (xs : List ℕ)
    → AllNe c xs
    → Linked q next xs
    → Linked q (update next c v) xs
Linked-update q next c v [] a l = l
Linked-update q next c v (x ∷ xs) a l =
    (l.0, (l.1.0, l.1.1, Run-update next c x v xs l.1.0 a l.1.2))

-- Enqueue links the queue's last clump and the new one, and no other.
pub enqueue-frame :
    (c k : ℕ) (q : ClumpQueue) (next : Next) (xs : List ℕ)
    → Linked q next xs
    → AllNe k xs
    → k ≢ c
    → (enqueue c q next).1 k ≡ next k
unfolding enqueue
enqueue-frame c k q next [] l a n = rw (enqueue, l.0) (ground arith)
enqueue-frame c k q next (x ∷ xs) l a n =
    let apart : k ≢ l.1.0 = Run-last next k x xs l.1.0 l.1.2 a in
    rw (enqueue, l.0, l.1.1) (ground arith)

Run-frame :
    (c h : ℕ) (ws : List ℕ) (t : ℕ) (q : ClumpQueue) (next : Next) (xs : List ℕ)
    → Linked q next xs
    → Apart (h ∷ ws) xs
    → AllNe c (h ∷ ws)
    → Run next h ws t
    → Run (enqueue c q next).1 h ws t
Run-frame c h [] t q next xs l a n r =
    (r.0, enqueue-frame c h q next xs l a.0 (λ e. n.0 (sym e)) ∙ r.1)
Run-frame c h (w ∷ ws) t q next xs l a n r = (
  enqueue-frame c h q next xs l a.0 (λ e. n.0 (sym e)) ∙ r.0,
  r.1,
  Run-frame c w ws t q next xs l a.1 n.1 r.2,
)

pub Waiting-frame :
    (c : ℕ) (w : Option ℕ) (ws : List ℕ) (q : ClumpQueue) (next : Next) (xs : List ℕ)
    → Linked q next xs
    → Apart ws xs
    → AllNe c ws
    → Waiting next w ws
    → Waiting (enqueue c q next).1 w ws
Waiting-frame c w [] q next xs l a n r = r
Waiting-frame c w (x ∷ ws) q next xs l a n r =
    (r.0, (r.1.0, Run-frame c x ws r.1.0 q next xs l a n r.1.1))

-- The rest of a wait list, once its first clump is unlinked and put on the run queue.
Waiting-rest :
    (c : ℕ) (ws : List ℕ) (t : ℕ) (q : ClumpQueue) (next : Next) (xs : List ℕ)
    → Linked q next xs
    → Apart (c ∷ ws) xs
    → Run next c ws t
    → Waiting (enqueue c q (update next c none)).1 (next c) ws
Waiting-rest c [] t q next xs l a r = r.1
Waiting-rest c (w ∷ ws) t q next xs l a r = (
  r.0,
  (
    t,
    Run-frame c w ws t q (update next c none) xs (Linked-update q next c none xs a.0 l) a.1 r.1
        (Run-update next c w none ws t r.1 r.2),
  ),
)

Run-AllNe : (next : Next) (c : ℕ) (ws : List ℕ) (t : ℕ) → Run next c ws t → AllNe c ws
Run-AllNe next c [] t r = tt
Run-AllNe next c (w ∷ ws) t r = r.1

-- The loop of Done puts the clumps of the wait list on the run queue, in the order of the list.
pub wake_waiters-Linked :
    (fuel : ℕ) (w : Option ℕ) (ws xs : List ℕ) (m : Machine)
    → Linked m.queue m.next xs
    → Waiting m.next w ws
    → Apart ws xs
    → length ws ≤ fuel
    → let m' = wake_waiters fuel w m in Linked m'.queue m'.next (xs ++ ws)
unfolding wake_waiters enqueue_run_queue
wake_waiters-Linked zero w [] xs m l r a enough = rw append-nil l
wake_waiters-Linked (suc fuel) w [] xs m l r a enough = rw (r, append-nil) l
wake_waiters-Linked zero w (c ∷ ws) xs m l r a enough = absurd (omega arith)
wake_waiters-Linked (suc fuel) w (c ∷ ws) xs m l r a enough =
    let next' = update m.next c none in
    let l' = Linked-update m.queue m.next c none xs a.0 l in
    let mid : Machine = record (enqueue_run_queue c (record m { next = next' })) { breakout = 0 } in
    let step : wake_waiters (suc fuel) w m ≡ wake_waiters fuel (m.next c) mid = rw r.0 refl in
    let ih =
      wake_waiters-Linked fuel (m.next c) ws (xs ++ c ∷ []) mid
        (enqueue-Linked c m.queue next' xs l' a.0 (ground arith))
        (Waiting-rest c ws r.1.0 m.queue m.next xs l a r.1.1)
        (Apart-snoc c ws xs a.1 (Run-AllNe m.next c ws r.1.0 r.1.1)) (omega arith) in
    let join : (xs ++ c ∷ []) ++ ws ≡ xs ++ c ∷ ws = append_assoc xs (c ∷ []) ws in
    rw (step, ← join) ih

-- The loop changes the run queue and the links, and leaves the execution loop; nothing else.
pub wake_waiters-keeps :
    (fuel : ℕ) (w : Option ℕ) (m : Machine)
    → let m' = wake_waiters fuel w m in
      m' ≡ record m { next = m'.next; queue = m'.queue; breakout = m'.breakout }
unfolding wake_waiters enqueue_run_queue
wake_waiters-keeps zero w m = refl
wake_waiters-keeps (suc fuel) none m = refl
wake_waiters-keeps (suc fuel) (some c) m =
    wake_waiters-keeps fuel (m.next c)
      (record (enqueue_run_queue c (record m { next = update m.next c none })) { breakout = 0 })

-- The clump at the end of a list is found with as much fuel as the list has clumps behind the first.
pub last_of-Run :
    (fuel : ℕ) (next : Next) (h : ℕ) (xs : List ℕ) (t : ℕ)
    → Run next h xs t
    → length xs ≤ fuel
    → last_of fuel next h ≡ t
unfolding last_of
last_of-Run zero next h [] t r enough = r.0
last_of-Run zero next h (x ∷ xs) t r enough = absurd (omega arith)
last_of-Run (suc fuel) next h [] t r enough = rw (last_of, r.1) r.0
last_of-Run (suc fuel) next h (x ∷ xs) t r enough =
    rw (last_of, r.0) (last_of-Run fuel next x xs t r.2 (omega arith))

Run-agree :
    (next next' : Next) (h : ℕ) (ws : List ℕ) (t : ℕ) (xs : List ℕ)
    → ((k : ℕ) → AllNe k xs → next' k ≡ next k)
    → Apart (h ∷ ws) xs
    → Run next h ws t
    → Run next' h ws t
Run-agree next next' h [] t xs same a r = (r.0, same h a.0 ∙ r.1)
Run-agree next next' h (w ∷ ws) t xs same a r =
    (same h a.0 ∙ r.0, r.1, Run-agree next next' w ws t xs same a.1 r.2)

-- A wait list apart from the clumps whose links change stays as it is.
pub Waiting-agree :
    (next next' : Next) (w : Option ℕ) (ws xs : List ℕ)
    → ((k : ℕ) → AllNe k xs → next' k ≡ next k)
    → Apart ws xs
    → Waiting next w ws
    → Waiting next' w ws
Waiting-agree next next' w [] xs same a r = r
Waiting-agree next next' w (x ∷ ws) xs same a r =
    (r.0, (r.1.0, Run-agree next next' x ws r.1.0 xs same a r.1.1))

-- The last clump of a wait list is apart from what the list is apart from.
pub AllNe-last :
    (next : Next) (h : ℕ) (ws : List ℕ) (t : ℕ) (xs : List ℕ)
    → Apart (h ∷ ws) xs
    → Run next h ws t
    → AllNe t xs
AllNe-last next h [] t xs a r = subst (λ k. AllNe k xs) r.0 a.0
AllNe-last next h (w ∷ ws) t xs a r = AllNe-last next w ws t xs a.1 r.2

pub Apart-append : (c : ℕ) (ws xs : List ℕ) → Apart ws xs → AllNe c xs → Apart (ws ++ c ∷ []) xs
Apart-append c [] xs a n = (n, tt)
Apart-append c (w ∷ ws) xs a n = (a.0, Apart-append c ws xs a.1 n)
