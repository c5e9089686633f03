-- ===== src/ClumpQueue/Fifo.antt =====
-- VIClumpQueue is a first-in first-out queue of clumps.
use vireo_sdk.Common.{
  ℕ, ◌≡◌, ◌≢◌, refl, sym, ◌∙◌, ◌⊎◌, inl, inr, true, false, Option, none, some, List, [], ◌∷◌, ◌++◌,
  arith, update, Bool-cases,
}
use vireo_sdk.Common.Pigeons.{AllNe}
use vireo_sdk.ClumpQueue.{Next, ClumpQueue, enqueue, dequeue, is_clump, empty}

-- The list from the clump `h` through `xs` to the clump `t`, which has no next clump.
abbrev pub Run : Next → ℕ → List ℕ → ℕ → Type 0
Run next h [] t = (h ≡ t) × (next h ≡ none)
Run next h (x ∷ xs) t = (next h ≡ some x) × AllNe h (x ∷ xs) × Run next x xs t

-- The queue is the linked list of these clumps.
abbrev pub Linked : ClumpQueue → Next → List ℕ → Type 0
Linked q next [] = (q.head ≡ none) × (q.tail ≡ none)
Linked q next (x ∷ xs) = (q.head ≡ some x) × ((t : ℕ) × (q.tail ≡ some t) × Run next x xs t)

pub AllNe-snoc : (h c : ℕ) (xs : List ℕ) → AllNe h xs → h ≢ c → AllNe h (xs ++ c ∷ [])
AllNe-snoc h c [] a n = (n, tt)
AllNe-snoc h c (x ∷ xs) a n = (a.0, AllNe-snoc h c xs a.1 n)

-- A clump that is apart from the list is not its last.
pub Run-last :
    (next : Next) (h x : ℕ) (xs : List ℕ) (t : ℕ) → Run next x xs t → AllNe h (x ∷ xs) → h ≢ t
Run-last next h x [] t r a = λ e. a.0 (e ∙ sym r.0)
Run-last next h x (y ∷ ys) t r a = Run-last next h y ys t r.2 a.1

-- A write to a clump outside the list leaves the list as it is.
pub Run-update :
    (next : Next) (c h : ℕ) (v : Option ℕ) (xs : List ℕ) (t : ℕ)
    → AllNe c (h ∷ xs)
    → Run next h xs t
    → Run (update next c v) h xs t
Run-update next c h v [] t a r = (r.0, ground arith)
Run-update next c h v (x ∷ xs) t a r = (ground arith, r.1, Run-update next c x v xs t a.1 r.2)

pub Run-snoc :
    (next : Next) (c h : ℕ) (xs : List ℕ) (t : ℕ)
    → AllNe c (h ∷ xs)
    → next c ≡ none
    → Run next h xs t
    → Run (update next t (some c)) h (xs ++ c ∷ []) c
Run-snoc next c h [] t a n r = (ground arith, (ground arith, tt), (refl, ground arith))
Run-snoc next c h (x ∷ xs) t a n r =
    let apart = Run-last next h x xs t r.2 r.1 in
    (ground arith, AllNe-snoc h c (x ∷ xs) r.1 (λ e. a.0 (sym e)), Run-snoc next c x xs t a.1 n r.2)

-- Where the run queue is the linked list of some clumps, VIClumpQueue::Enqueue of a clump that
-- stands in no list makes it the linked list of the same clumps with the new one at the end.
pub enqueue-Linked :
    (c : ℕ) (q : ClumpQueue) (next : Next) (xs : List ℕ)
    → Linked q next xs
    → AllNe c xs
    → next c ≡ none
    → let r = enqueue c q next in Linked r.0 r.1 (xs ++ c ∷ [])
unfolding enqueue
enqueue-Linked c q next [] l a n = rw l.0 (refl, (c, refl, (refl, ground arith)))
enqueue-Linked c q next (x ∷ xs) l a n =
    rw (l.0, l.1.1) (refl, (c, refl, Run-snoc next c x xs l.1.0 a n l.1.2))

-- Where the run queue is the linked list of some clumps, VIClumpQueue::Dequeue returns the
-- first of them, unlinks it and leaves the linked list of the others; of an empty queue it
-- returns no clump and changes nothing.
pub dequeue-Linked :
    (q : ClumpQueue) (next : Next) (xs : List ℕ)
    → Linked q next xs
    → let r = dequeue q next in
      ((xs ≡ []) × (r ≡ (none, q, next)))
      ⊎ ((x : ℕ) × (ys : List ℕ) × (xs ≡ x ∷ ys)
          × (r.0 ≡ some x)
          × Linked r.1 r.2 ys
          × (r.2 x ≡ none))
unfolding dequeue
dequeue-Linked q next [] l = inl (refl, rw l.0 refl)
dequeue-Linked q next (x ∷ []) l =
    let only : is_clump x q.tail ≡ true = ground arith in
    let made : dequeue q next ≡ (some x, empty, next) = rw (dequeue, l.0, only) refl in
    rw made (inr (x, [], refl, refl, (refl, refl), ground arith))
dequeue-Linked q next (x ∷ y ∷ ys) l =
    let apart = Run-last next x y ys l.1.0 l.1.2.2 l.1.2.1 in
    let more : is_clump x q.tail ≡ false = ground arith in
    let made : dequeue q next ≡ (some x, record q { head = next x }, update next x none) =
      rw (dequeue, l.0, more) refl in
    rw made (
      inr (
        x,
        y ∷ ys,
        refl,
        refl,
        (l.1.2.0, (l.1.0, l.1.1, Run-update next x y none ys l.1.0 l.1.2.1 l.1.2.2)),
        ground arith,
      ))

-- Dequeue unlinks no clump but the one it takes off.
pub dequeue-frame :
    (k : ℕ) (q : ClumpQueue) (next : Next) (xs : List ℕ)
    → Linked q next xs
    → AllNe k xs
    → (dequeue q next).2 k ≡ next k
unfolding dequeue
dequeue-frame k q next [] l a = rw (dequeue, l.0) refl
dequeue-frame k q next (x ∷ xs) l a = elim (Bool-cases (is_clump x q.tail)) [
  | inl e ↦ rw (dequeue, l.0, e) refl
  | inr e ↦ rw (dequeue, l.0, e) (ground arith)
]
