-- ===== src/ElemQueue/Removal.antt =====
-- Dequeue and Peek on a valid QueueCore.
use vireo_sdk.Common.{
  ℕ, zero, suc, ◌+◌, ◌-◌, ◌%◌, ◌≤◌, ◌<◌, ◌≡◌, refl, sym, ap, ◌∙◌, ◌≢◌, ◌≢◌, ◌≢◌, ◌≢◌, ◌⊎◌, inl, inr,
  Bool, true, false, Option, none, some, List, [], ◌∷◌, length, get_elem?, take, arith,
  if◌then◌else◌, ltb, leb, lt→ltb, le→ltb, get_elem?-take_lt, get_elem?-eq-none, length-take,
  take-append_le,
}
use vireo_sdk.Common.Cuts.{rotate, rotate-step, length-rotate, suc-mod, get_elem?-rotate}
use vireo_sdk.Observe.{Observer, Exec, observe_state_change}
use vireo_sdk.ElemQueue.{ElemQueue, dequeue, peek, is_at}
use vireo_sdk.ElemQueue.Valid.{contents, IsBusy, Spans, IsValid}
use native.Mathlib.Decide.{dec_lt}
use vireo_sdk.ElemQueue.Refine.{IsValid-observers}
use vireo_sdk.ElemQueue.{enqueue_observer_info, dequeue_at, advanced}

-- Taking the first place off a span, which is its last only if it is the only one.
next_front :
    (n f b c g : ℕ)
    → Spans n f b c
    → (f + 1) % n ≡ g
    → ((f ≡ b) × (c ≡ 1)) ⊎ ((b ≢ f) × Spans n g b (c - 1))
next_front n f b c g s e = ground (arith, suc-mod f n)

module _ {ℓ} {A : Type ℓ} where
  -- Nothing is there to take, or the first element is taken off the contents and one waiting enqueue
  -- is woken, unless `skipObserver` says otherwise.
  abbrev pub Takes : Bool → ElemQueue A → Exec → (Bool × Option A) × ElemQueue A × Exec → Type ℓ
  Takes skip q e r =
      ((contents q ≡ []) × (r ≡ ((false, none), q, e)))
      ⊎ ((x : A) × (contents q ≡ x ∷ contents r.1)
          × (r.0 ≡ (true, some x))
          × IsValid r.1
          × (r.1.max_size ≡ q.max_size)
          × (◌≡◌ {A = List Observer × Exec} (r.1.observers, r.2)
              (if skip
                then (q.observers, e)
                else observe_state_change enqueue_observer_info false q.observers e)))

  take_one :
      (f g c : ℕ) (xs : List A)
      → f < length xs
      → 1 ≤ c
      → c ≤ length xs
      → (f + 1) % length xs ≡ g
      → (x : A) × (get_elem? xs f ≡ some x)
        × (take c (rotate f xs) ≡ x ∷ take (c - 1) (rotate g xs))
  take_one f g zero xs hf hc hn e = absurd (omega arith)
  take_one f g (suc c) xs hf hc hn e =
      let (x, ys, at, cut, next) = rotate-step f g xs hf e in
      let size : length ys + 1 ≡ length xs = omega (arith, ap length cut, length-rotate f xs) in
      let less : suc c - 1 ≡ c = omega arith in
      (x, at, rw (cut, next, less) (ap (◌∷◌ x) (sym (take-append_le c ys (x ∷ []) (omega arith)))))

  abbrev Advances : ElemQueue A → ElemQueue A → ℕ → Type ℓ
  Advances q q' f =
      (x : A) × (get_elem? q.elements f ≡ some x)
      × (contents q ≡ x ∷ contents q')
      × IsValid q'
      × (q'.max_size ≡ q.max_size)
      × (q'.observers ≡ q.observers)

  advanced-Advances :
      (q : ElemQueue A) → IsValid q → (s : IsBusy q) → Advances q (advanced q s.f) s.f
  advanced-Advances q v s =
      let n = length q.elements in
      let g = (s.f + 1) % n in
      let (x, at, cut) = take_one s.f g q.count q.elements s.spans.0 s.spans.2 s.spans.3 refl in
      elim (next_front n s.f s.b q.count g s.spans refl) [
        | inl (same, one) ↦
            let only : q.count - 1 ≡ 0 = omega arith in
            let last : is_at q.back s.f ≡ true = ground arith in
            rw last (
              x,
              at,
              rw s.front_is (cut ∙ ap (λ k. x ∷ take k (rotate g q.elements)) only),
              record { shape = inl (refl, refl, omega arith); bounded = v.bounded },
              refl,
              refl,
            )
        | inr (differ, spans') ↦
            let more : is_at q.back s.f ≡ false = ground arith in
            rw more (
              x,
              at,
              rw s.front_is cut,
              record {
                shape = inr (record {
                  f = g;
                  b = s.b;
                  front_is = refl;
                  back_is = s.back_is;
                  spans = spans';
                });
                bounded = v.bounded;
              },
              refl,
              refl,
            )
      ]

  dequeue_at-Takes :
      (skip : Bool) (q : ElemQueue A) (e : Exec) (f : ℕ)
      {r : (Bool × Option A) × ElemQueue A × Exec}
      → Advances q (advanced q f) f
      → r ≡ dequeue_at skip (some f) q e
      → Takes skip q e r
  dequeue_at-Takes true q e f (x, at, cut, valid, same_max, same_observers) there =
      rw there
        (inr (x, cut, ap (λ o. (true, o)) at, valid, same_max, ap (λ os. (os, e)) same_observers))
  dequeue_at-Takes false q e f (x, at, cut, valid, same_max, same_observers) there = rw there (
      inr (
        x,
        cut,
        ap (λ o. (true, o)) at,
        IsValid-observers _ valid,
        same_max,
        ap (λ os. observe_state_change enqueue_observer_info false os e) same_observers,
      ))

  -- On a valid QueueCore, Dequeue takes off and returns the oldest element, keeps the queue
  -- valid and its maximum size, and wakes the first waiting enqueue unless told to skip it; on
  -- an empty queue it returns false and changes nothing.
  pub dequeue-Takes :
      (skip : Bool) (q : ElemQueue A) (e : Exec) → IsValid q → Takes skip q e (dequeue skip q e)
  unfolding dequeue
  dequeue-Takes skip q e v = elim v.shape [
    | inl idle ↦ inl (rw idle.0, ap (λ o. dequeue_at skip o q e) idle.0)
    | inr s ↦
        dequeue_at-Takes skip q e s.f (advanced-Advances q v s)
          (ap (λ o. dequeue_at skip o q e) s.front_is)
  ]

  pub count-le-length : (q : ElemQueue A) → IsValid q → q.count ≤ length q.elements
  count-le-length q v = elim v.shape [ inl idle ↦ omega (arith, idle.2) | inr s ↦ s.spans.3 ]

  -- `_count` is the number of elements.
  pub length-contents : (q : ElemQueue A) → IsValid q → length (contents q) ≡ q.count
  length-contents q v = elim v.shape [
    | inl idle ↦ rw (idle.0, idle.2)
    | inr s ↦ rw s.front_is (
        omega (
          arith,
          length-take q.count (rotate s.f q.elements),
          length-rotate s.f q.elements,
          s.spans,
        ))
  ]

  -- On a valid queue Peek returns true and the element that stands index places behind the
  -- oldest, or false where the queue has no more than index elements.
  peek_lem :
      (index : ℕ) (q : ElemQueue A)
      → IsValid q
      → peek index q
        ≡ (if ltb index (length (contents q)) then true else false, get_elem? (contents q) index)
  unfolding peek
  peek_lem index q v = elim v.shape [
    | inl idle ↦ rw (idle.0, peek, le→ltb index 0 (omega arith))
    | inr s ↦ elim (dec_lt index q.count) [
      | yes there ↦
          let within : leb q.count index ≡ false = ground arith in
          let found : ltb index (length (contents q)) ≡ true =
            lt→ltb _ _ (omega (arith, length-contents q v)) in
          rw (found, s.front_is, peek, within)
            (ap (λ o. (true, o))
              (sym (
                get_elem?-take_lt q.count (rotate s.f q.elements) index there
                ∙ get_elem?-rotate s.f index q.elements (omega (arith, s.spans))
                    (omega (arith, s.spans)))))
      | no past ↦
          let beyond : leb q.count index ≡ true = ground arith in
          let missing : ltb index (length (contents q)) ≡ false =
            le→ltb _ _ (omega (arith, length-contents q v)) in
          rw (
            missing,
            get_elem?-eq-none (contents q) index (omega (arith, length-contents q v)),
            s.front_is,
            peek,
            beyond,
          )
    ]
  ]
