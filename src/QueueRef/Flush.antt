-- ===== src/QueueRef/Flush.antt =====
-- QueueRef_FlushQueue returns every element, oldest first, and leaves the queue empty.
use vireo_sdk.Common.{
  ℕ, zero, suc, ◌≡◌, ap, ◌∙◌, inl, inr, Bool, false, Option, some, List, [], ◌∷◌, ◌++◌, arith,
  length, map, append_assoc, append-nil, eq-nil_of_length,
}
use vireo_sdk.Observe.{Exec}
use vireo_sdk.ElemQueue.{ElemQueue, dequeue}
use vireo_sdk.ElemQueue.Valid.{contents, IsValid}
use vireo_sdk.ElemQueue.Removal.{dequeue-Takes, length-contents, Takes}
use vireo_sdk.QueueRef.{flush, flush_queue}

module _ {ℓ} {A : Type ℓ} where
  -- What is left after `n` rounds, as many as there are elements.
  abbrev Flushes : List (Option A) → ElemQueue A → List (Option A) × ElemQueue A × Exec → Type ℓ
  Flushes out q r = (r.0 ≡ out ++ map some (contents q)) × (contents r.1 ≡ []) × IsValid r.1

  flush_step :
      (n : ℕ) (out : List (Option A)) (q : ElemQueue A) (e : Exec)
      → length (contents q) ≡ suc n
      → Takes false q e (dequeue false q e)
      → ((out' : List (Option A)) (q' : ElemQueue A) (e' : Exec)
          → IsValid q'
          → length (contents q') ≡ n
          → Flushes out' q' (flush n out' q' e'))
      → Flushes out q (flush (suc n) out q e)
  unfolding flush
  flush_step n out q e len (inl (none', _)) ih = absurd (omega (arith, ap length none'))
  flush_step n out q e len (inr (x, cut, got, v, _, _)) ih =
      let r = dequeue false q e in
      let element : r.0.1 ≡ some x = ap (λ (p : Bool × Option A). p.1) got in
      let (all, left, valid) = ih (out ++ some x ∷ []) r.1 r.2 v (omega (arith, ap length cut)) in
      let step : flush (suc n) out q e ≡ flush n (out ++ some x ∷ []) r.1 r.2 =
        ap (λ o. flush n (out ++ o ∷ []) r.1 r.2) element in
      rw step (all ∙ rw (cut, append_assoc), left, valid)

  flush_lem :
      (n : ℕ) (out : List (Option A)) (q : ElemQueue A) (e : Exec)
      → IsValid q
      → length (contents q) ≡ n
      → Flushes out q (flush n out q e)
  unfolding flush
  flush_lem zero out q e v len =
      let empty : contents q ≡ [] = eq-nil_of_length (contents q) len in
      (rw (empty, append-nil), empty, v)
  flush_lem (suc n) out q e v len =
      flush_step n out q e len (dequeue-Takes false q e v)
        (λ out' q' e' v' l. flush_lem n out' q' e' v' l)

  -- On a valid queue FlushQueue returns all elements, oldest first, and leaves an empty valid
  -- queue.
  flush_queue_lem :
      (q : ElemQueue A) (e : Exec)
      → IsValid q
      → ((flush_queue q e).0 ≡ map some (contents q))
        × (contents (flush_queue q e).1 ≡ [])
        × IsValid (flush_queue q e).1
  unfolding flush_queue
  flush_queue_lem q e v = flush_lem q.count [] q e v (length-contents q v)
