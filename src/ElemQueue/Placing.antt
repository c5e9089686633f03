-- ===== src/ElemQueue/Placing.antt =====
-- The place that Enqueue and PushFront find for a new element, in an empty, a roomy and a full
-- buffer.
use vireo_sdk.Common.{
  ℕ, suc, ◌+◌, ◌%◌, ◌≤◌, ◌<◌, ◌≡◌, refl, sym, ap, ◌∙◌, ◌≢◌, ◌≢◌, ◌≢◌, ◌≢◌, ◌⊎◌, inl, inr, Bool,
  true, false, some, List, [], ◌∷◌, ◌++◌, length, set, take, drop, arith, length-set, Bool-cases,
  ◌==◌, length-append, take-length, length-take, length-drop, take-append_le,
}
use vireo_sdk.Common.Cuts.{
  rotate, rotate-set, rotate-step, length-rotate, suc-mod, add-mod, take-set_self,
  rotate-insert_behind, rotate-insert_before, rotate-length,
}
use vireo_sdk.Common.Int.{pos}
use vireo_sdk.Array1D.{insert_1d}
use vireo_sdk.ElemQueue.{
  ElemQueue, copy_data_to_queue_element, resize_internal_buffer_if_empty, at_max, start,
}
use vireo_sdk.ElemQueue.Valid.{contents, IsIdle, Spans, IsValid, IsBounded}

module _ {ℓ} {A : Type ℓ} where
  -- Why an insertion fails, and the queue that it leaves: the queue holds its maximum, and stays as it
  -- is; or the memory manager refuses the growth, and the buffer has its new length without the memory.
  abbrev pub Refusal : (ℕ → Bool) → A → ElemQueue A → ElemQueue A → Type ℓ
  Refusal fits blank q q' =
      ((q' ≡ q) × (pos q.count ≡ q.max_size))
      ⊎ ((q' ≡ record q { elements = q.elements ++ blank ∷ [] }) × (fits (q.count + 1) ≡ false))

  -- The outcome of the search for a place: once the element is written there, the queue holds it
  -- beside the old elements, in the order that `join` gives.
  pub data Placed (fits : ℕ → Bool) (blank : A) (join : List A → A → List A) (q : ElemQueue A)
      (r : ElemQueue A ⊎ (ℕ × ElemQueue A)) : Type ℓ where
    refused : (q' : ElemQueue A) → r ≡ inl q' → Refusal fits blank q q' → Placed fits blank join q r
    placed :
        (i : ℕ) (q' : ElemQueue A)
        → r ≡ inr (i, q')
        → q'.max_size ≡ q.max_size
        → q'.observers ≡ q.observers
        → ((x : A) → contents (copy_data_to_queue_element i x q') ≡ join (contents q) x)
        → ((x : A) → IsValid (copy_data_to_queue_element i x q'))
        → Placed fits blank join q r

  abbrev pub at_end : List A → A → List A
  at_end xs x = xs ++ x ∷ []

  abbrev pub at_head : List A → A → List A
  at_head xs x = x ∷ xs

  -- Writing one place past a span extends the contents at the end.
  pub written_behind :
      (f c i : ℕ) (xs : List A) (x : A)
      → f < length xs
      → c < length xs
      → i ≡ (f + c) % length xs
      → take (suc c) (rotate f (set xs i x)) ≡ take c (rotate f xs) ++ x ∷ []
  written_behind f c i xs x hf hc e =
      rw (e, rotate-set f c xs x hf hc)
        (take-set_self (rotate f xs) c x (omega (arith, length-rotate f xs)))

  -- Writing one place before a span extends the contents at the head.
  pub written_before :
      (g f c : ℕ) (xs : List A) (x : A)
      → g < length xs
      → c < length xs
      → (g + 1) % length xs ≡ f
      → take (suc c) (rotate g (set xs g x)) ≡ x ∷ take c (rotate f xs)
  written_before g f c xs x hg hc e =
      let (y, ys, at, cut, next) = rotate-step g f xs hg e in
      let here : g ≡ (g + 0) % length xs = ground (arith, add-mod (g + 0) (length xs)) in
      let head : rotate g (set xs g x) ≡ x ∷ ys =
        ap (λ k. rotate g (set xs k x)) here
        ∙ rotate-set g 0 xs x hg (omega arith)
        ∙ ap (λ l. set l 0 x) cut in
      let size : length ys + 1 ≡ length xs = omega (arith, ap length cut, length-rotate g xs) in
      rw (head, next) (ap (◌∷◌ x) (sym (take-append_le c ys (y ∷ []) (omega arith))))

  written_first : (xs : List A) (x : A) → 0 < length xs → take 1 (rotate 0 (set xs 0 x)) ≡ x ∷ []
  written_first [] x h = absurd (omega arith)
  written_first (y ∷ ys) x h = refl

module _ {ℓ} {A : Type ℓ} (fits : ℕ → Bool) (blank : A) where
  resize_cases :
      (q : ElemQueue A)
      → IsIdle q
      → IsBounded q.max_size (length q.elements)
      → ((resize_internal_buffer_if_empty fits blank q ≡ (false, q.elements ++ blank ∷ []))
          × (fits (q.count + 1) ≡ false))
        ⊎ ((xs : List A) × (resize_internal_buffer_if_empty fits blank q ≡ (true, xs))
            × (0 < length xs)
            × IsBounded q.max_size (length xs))
  unfolding resize_internal_buffer_if_empty insert_1d
  resize_cases q idle bound = elim (Bool-cases (length q.elements == 0)) [
    | inr more ↦ inr (q.elements, rw more, ground arith, bound)
    | inl empty ↦ elim (Bool-cases (fits (length q.elements + 1))) [
      | inl yes' ↦ inr (
        take 0 q.elements ++ blank ∷ drop 0 q.elements,
        rw (empty, yes'),
        omega arith,
        ground arith,
      )
      | inr no' ↦ inl (rw (empty, no'), ground arith)
    ]
  ]

  pub start-Placed :
      (join : List A → A → List A) (q : ElemQueue A)
      → ((x : A) → join [] x ≡ x ∷ [])
      → IsIdle q
      → IsBounded q.max_size (length q.elements)
      → Placed fits blank join q (start q (resize_internal_buffer_if_empty fits blank q))
  unfolding copy_data_to_queue_element
  start-Placed join q single idle bound = elim (resize_cases q idle bound) [
    | inl (e, no') ↦ refused _ (rw e) (inr (refl, no'))
    | inr (xs, e, some', bound') ↦
        placed 0 (record q { elements = xs; front = some 0; back = some 0 }) (rw e) refl refl
          (λ x.
            rw idle.2 (written_first xs x some' ∙ sym (single x) ∙ ap (λ l. join l x) (rw idle.0)))
          (λ x. record {
            shape = inr (record {
              f = 0;
              b = 0;
              front_is = refl;
              back_is = refl;
              spans = omega (arith, length-set xs 0 x, idle.2);
            });
            bounded = rw (length-set xs 0 x) bound';
          })
  ]

module _ {ℓ} {A : Type ℓ} where
  abbrev pub open_at : ℕ → A → List A → List A
  open_at at y xs = take at xs ++ y ∷ drop at xs

  length-open_at :
      (at : ℕ) (y x : A) (xs : List A) → length (set (open_at at y xs) at x) ≡ length xs + 1
  length-open_at at y x xs = omega (
    arith,
    length-set (open_at at y xs) at x,
    length-append (take at xs) (y ∷ drop at xs),
    length-take at xs,
    length-drop at xs,
  )

  full_turn : (f c : ℕ) (xs : List A) → c ≡ length xs → take c (rotate f xs) ≡ rotate f xs
  full_turn f c xs e = take-length c (rotate f xs) (omega (arith, length-rotate f xs))

  -- A full ring opened behind its last element, with that element in the middle of the buffer, and at
  -- the end of the buffer.
  pub opened_behind :
      (f c : ℕ) (xs : List A) (y x : A)
      → f ≤ length xs
      → c ≡ length xs
      → take (suc c) (rotate (suc f) (set (open_at f y xs) f x)) ≡ take c (rotate f xs) ++ x ∷ []
  opened_behind f c xs y x h e =
      rw (rotate-insert_behind f xs y x h, full_turn f c xs e)
        (take-length (suc c) (rotate f xs ++ x ∷ [])
          (omega (arith, length-append (rotate f xs) (x ∷ []), length-rotate f xs)))

  opened_last :
      (n c : ℕ) (xs : List A) (y x : A)
      → n ≡ length xs
      → c ≡ length xs
      → take (suc c) (rotate 0 (set (open_at n y xs) n x)) ≡ take c (rotate 0 xs) ++ x ∷ []
  opened_last n c xs y x hn hc =
      let ys = set (open_at n y xs) n x in
      let size : length ys ≡ suc n = omega (arith, length-open_at n y x xs) in
      let turn : rotate 0 ys ≡ rotate (suc n) ys =
        sym (ap (λ k. rotate k ys) (sym size) ∙ rotate-length ys) in
      let start : rotate n xs ≡ rotate 0 xs = ap (λ k. rotate k xs) hn ∙ rotate-length xs in
      rw turn (opened_behind n c xs y x (omega arith) hc ∙ ap (λ l. take c l ++ x ∷ []) start)

  -- Where a full ring from `f` is opened for an element behind its last, and its front afterwards.
  abbrev pub OpensBehind : List A → ℕ → ℕ → ℕ → Type 0
  OpensBehind xs f at g = ((at ≡ length xs) × (g ≡ 0) × (f ≡ 0)) ⊎ ((at ≡ f) × (g ≡ suc f))

  pub opened_place :
      (f at g c : ℕ) (xs : List A) (y x : A)
      → f ≤ length xs
      → c ≡ length xs
      → OpensBehind xs f at g
      → take (suc c) (rotate g (set (open_at at y xs) at x)) ≡ take c (rotate f xs) ++ x ∷ []
  opened_place f at g c xs y x h hc (inl (ha, hg, hf)) = rw (hg, hf) (opened_last at c xs y x ha hc)
  opened_place f at g c xs y x h hc (inr (ha, hg)) = rw (hg, ha) (opened_behind f c xs y x h hc)

  -- A full ring opened at its front.
  pub opened_front :
      (f c : ℕ) (xs : List A) (y x : A)
      → f ≤ length xs
      → c ≡ length xs
      → take (suc c) (rotate f (set (open_at f y xs) f x)) ≡ x ∷ take c (rotate f xs)
  opened_front f c xs y x h e = rw (rotate-insert_before f xs y x h)

  abbrev pub opened : ElemQueue A → A → ℕ → ℕ → ℕ → ElemQueue A
  opened q y at g h = record q { elements = open_at at y q.elements; front = some g; back = some h }

  -- The buffer, full and below the maximum, has grown by the place `at` of the new element.
  pub grown-Placed :
      (fits : ℕ → Bool) (blank : A) (join : List A → A → List A) (q : ElemQueue A) (at g h : ℕ)
      {r : ElemQueue A ⊎ (ℕ × ElemQueue A)}
      → IsBounded q.max_size (length q.elements)
      → q.count ≡ length q.elements
      → at_max q ≡ false
      → Spans (suc (length q.elements)) g h (suc (length q.elements))
      → r ≡ inr (at, opened q blank at g h)
      → ((x : A)
          → take (suc q.count) (rotate g (set (open_at at blank q.elements) at x))
            ≡ join (contents q) x)
      → Placed fits blank join q r
  unfolding copy_data_to_queue_element
  grown-Placed fits blank join q at g h bound full low spans e holds =
      let q' = opened q blank at g h in
      placed at q' e refl refl holds (λ x.
        let size : length (set (open_at at blank q.elements) at x) ≡ suc (length q.elements) =
          omega (arith, length-open_at at blank x q.elements) in
        record {
          shape = inr (record {
            f = g;
            b = h;
            front_is = refl;
            back_is = refl;
            spans = rw (size, full) spans;
          });
          bounded = rw size (ground arith);
        })

-- The place behind a span is the front exactly if the ring is full.
pub next_place :
    (n f b c : ℕ)
    → Spans n f b c
    → ((b + 1) % n ≡ (f + c) % n)
      × ((b + 1) % n < n)
      × ((c < n) → (b + 1) % n ≢ f)
      × ((c ≡ n) → (b + 1) % n ≡ f)
next_place n f b c s = ground (arith, suc-mod b n, add-mod (f + c) n)
