-- ===== src/ElemQueue/Refine.antt =====
-- A valid QueueCore behaves as a double-ended queue of its elements, of at most `_maxSize`.
use vireo_sdk.Common.{ℕ, ◌≡◌, refl, ap, ◌⊎◌, inl, inr, Bool, true, false, List}
use vireo_sdk.Observe.{Observer, Exec, observe_state_change}
use vireo_sdk.ElemQueue.{ElemQueue, copy_data_to_queue_element, enqueue, push_front}
use vireo_sdk.ElemQueue.Valid.{contents, IsBusy, IsValid}
use vireo_sdk.ElemQueue.Placing.{Placed, Refusal, placed, refused, at_end, at_head}
use vireo_sdk.ElemQueue.Back.{place_back-Placed}
use vireo_sdk.ElemQueue.Front.{place_front-Placed}
use vireo_sdk.ElemQueue.{dequeue_observer_info, store}

module _ {ℓ} {A : Type ℓ} where
  IsBusy-observers :
      {q : ElemQueue A} (os : List Observer) → IsBusy q → IsBusy (record q { observers = os })
  IsBusy-observers os s = record {
    f = s.f;
    b = s.b;
    front_is = s.front_is;
    back_is = s.back_is;
    spans = s.spans;
  }

  -- The waiting observers are no part of the representation.
  pub IsValid-observers :
      {q : ElemQueue A} (os : List Observer) → IsValid q → IsValid (record q { observers = os })
  IsValid-observers os v = record {
    shape = elim v.shape [ inl idle ↦ inl idle | inr s ↦ inr (IsBusy-observers os s) ];
    bounded = v.bounded;
  }

  -- The element is added and one waiting dequeue is woken, or the insertion fails, for a reason.
  abbrev pub Inserts :
      (ℕ → Bool)
      → A
      → (List A → A → List A)
      → A
      → ElemQueue A
      → Exec
      → Bool × ElemQueue A × Exec
      → Type ℓ
  Inserts fits blank join x q e (done, q', e') =
      ((done ≡ true)
        × (contents q' ≡ join (contents q) x)
        × IsValid q'
        × (q'.max_size ≡ q.max_size)
        × (◌≡◌ {A = List Observer × Exec} (q'.observers, e')
            (observe_state_change dequeue_observer_info false q.observers e)))
      ⊎ ((done ≡ false) × (e' ≡ e) × Refusal fits blank q q')

  store-Inserts :
      (fits : ℕ → Bool) (blank : A) (join : List A → A → List A) (x : A) (q : ElemQueue A)
      (e : Exec) (r : ElemQueue A ⊎ (ℕ × ElemQueue A))
      → Placed fits blank join q r
      → Inserts fits blank join x q e (store x e r)
  unfolding copy_data_to_queue_element
  store-Inserts fits blank join x q e r (refused q' gives why) = rw gives (inr (refl, refl, why))
  store-Inserts fits blank join x q e r (placed i q' there same_max same_observers holds valid) =
      rw there (
        inl (
          refl,
          holds x,
          IsValid-observers _ (valid x),
          same_max,
          ap (λ os. observe_state_change dequeue_observer_info false os e) same_observers,
        ))

module _ {ℓ} {A : Type ℓ} (fits : ℕ → Bool) (blank : A) where
  -- On a valid QueueCore, Enqueue returns true, appends the element to the queue's contents,
  -- keeps the queue valid and its maximum size, and wakes the first waiting dequeue; or it
  -- returns false and leaves everything as it is, where the queue holds _maxSize elements; or
  -- it returns false and leaves the buffer one element longer than its memory and all else as
  -- it is, where the memory manager refuses one element more.
  pub enqueue-Inserts :
      (x : A) (q : ElemQueue A) (e : Exec)
      → IsValid q
      → Inserts fits blank at_end x q e (enqueue fits blank x q e)
  unfolding enqueue
  enqueue-Inserts x q e v =
      store-Inserts fits blank at_end x q e _ (place_back-Placed fits blank q v)

  -- On a valid QueueCore, PushFront returns true, puts the element in front of the queue's
  -- contents, keeps the queue valid and its maximum size, and wakes the first waiting dequeue;
  -- or it returns false and leaves everything as it is, where the queue holds _maxSize
  -- elements; or it returns false and leaves the buffer one element longer than its memory and
  -- all else as it is, where the memory manager refuses one element more.
  pub push_front-Inserts :
      (x : A) (q : ElemQueue A) (e : Exec)
      → IsValid q
      → Inserts fits blank at_head x q e (push_front fits blank x q e)
  unfolding push_front
  push_front-Inserts x q e v =
      store-Inserts fits blank at_head x q e _ (place_front-Placed fits blank q v)
