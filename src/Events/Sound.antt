-- ===== src/Events/Sound.antt =====
-- The invariant of the event oracle, which every sequence of its operations keeps.
use vireo_sdk.Common.{
  ℕ, zero, suc, ◌≤◌, ◌<◌, ◌&&◌, some, List, [], ◌∷◌, ◌++◌, ◌≡◌, arith, ◌==◌, Bool-cases, inl, inr,
  get_elem?, set,
}
use vireo_sdk.Events.{RegQueue, RegInfo, OracleObj}
use vireo_sdk.Events.Oracle.{list_insert, list_remove, holds_queue, erase_queue, put_info, is_for}
use vireo_sdk.Events.Registered.{Unique}
use vireo_sdk.Events.Delivery.{Below, BelowAll}

-- Every registration list is without double entries, and names queues that exist.
unfoldable pub Sound : ℕ → List OracleObj → Type 0
Sound n [] = Unit
Sound n (o ∷ os) = (Unique o.reg_list × BelowAll n o.reg_list) × Sound n os

Below-more : (m n : ℕ) (ks : List RegQueue) → m ≤ n → Below m ks → Below n ks
Below-more m n [] h b = tt
Below-more m n (k ∷ ks) h (l, b) = (omega arith, Below-more m n ks h b)

BelowAll-more : (m n : ℕ) (is : List RegInfo) → m ≤ n → BelowAll m is → BelowAll n is
BelowAll-more m n [] h b = tt
BelowAll-more m n (i ∷ is) h (l, b) = (Below-more m n i.queue_ids h l, BelowAll-more m n is h b)

pub Sound-more : (m n : ℕ) (os : List OracleObj) → m ≤ n → Sound m os → Sound n os
unfolding Sound
Sound-more m n [] h s = tt
Sound-more m n (o ∷ os) h ((u, b), s) =
    ((u, BelowAll-more m n o.reg_list h b), Sound-more m n os h s)

Below-snoc :
    (n : ℕ) (k : RegQueue) (ks : List RegQueue)
    → k.queue_id < n
    → Below n ks
    → Below n (ks ++ k ∷ [])
Below-snoc n k [] h b = (h, tt)
Below-snoc n k (r ∷ rs) h (l, b) = (l, Below-snoc n k rs h b)

pub insert-BelowAll :
    (n src ty : ℕ) (k : RegQueue) (is : List RegInfo)
    → k.queue_id < n
    → BelowAll n is
    → BelowAll n (list_insert src ty k is).1
unfolding list_insert
insert-BelowAll n src ty k [] h b = ((h, tt), tt)
insert-BelowAll n src ty k (i ∷ is) h (l, b) = elim (Bool-cases (is_for src ty i)) [
  | inl e ↦ elim (Bool-cases (holds_queue k i.queue_ids)) [
    | inl e' ↦ rw (list_insert, e, e') (l, b)
    | inr e' ↦ rw (list_insert, e, e') (Below-snoc n k i.queue_ids h l, b)
  ]
  | inr e ↦ rw (list_insert, e) (l, insert-BelowAll n src ty k is h b)
]

Below-erase : (n : ℕ) (k : RegQueue) (ks : List RegQueue) → Below n ks → Below n (erase_queue k ks)
unfolding erase_queue
Below-erase n k [] b = tt
Below-erase n k (r ∷ rs) (l, b) =
    elim (Bool-cases ((r.queue_id == k.queue_id) && (r.ref == k.ref))) [
      | inl e ↦ rw (erase_queue, e) b
      | inr e ↦ rw (erase_queue, e) (l, Below-erase n k rs b)
    ]

put_info-BelowAll :
    (n : ℕ) (i : RegInfo) (ks : List RegQueue) (is : List RegInfo)
    → Below n ks
    → BelowAll n is
    → BelowAll n (put_info i ks is)
put_info-BelowAll n i [] is l b = b
put_info-BelowAll n i (k ∷ ks) is l b = (l, b)

pub remove-BelowAll :
    (n src ty : ℕ) (k : RegQueue) (is : List RegInfo)
    → BelowAll n is
    → BelowAll n (list_remove src ty k is).1
unfolding list_remove
remove-BelowAll n src ty k [] b = tt
remove-BelowAll n src ty k (i ∷ is) (l, b) = elim (Bool-cases (is_for src ty i)) [
  | inl e ↦ elim (Bool-cases (holds_queue k i.queue_ids)) [
    | inl e' ↦
        rw (list_remove, e, e') (put_info-BelowAll n i _ is (Below-erase n k i.queue_ids l) b)
    | inr e' ↦ rw (list_remove, e, e') (l, b)
  ]
  | inr e ↦ rw (list_remove, e) (l, remove-BelowAll n src ty k is b)
]

pub Sound-at :
    (n idx : ℕ) (os : List OracleObj) (o : OracleObj)
    → Sound n os
    → get_elem? os idx ≡ some o
    → Unique o.reg_list × BelowAll n o.reg_list
unfolding Sound
Sound-at n idx [] o s e = cc
Sound-at n zero (p ∷ os) o (here, s) e = let same : p ≡ o = cc in rw (← same) here
Sound-at n (suc idx) (p ∷ os) o (here, s) e = Sound-at n idx os o s e

pub Sound-set :
    (n idx : ℕ) (os : List OracleObj) (o : OracleObj)
    → Sound n os
    → Unique o.reg_list
    → BelowAll n o.reg_list
    → Sound n (set os idx o)
unfolding Sound
Sound-set n idx [] o s u b = tt
Sound-set n zero (p ∷ os) o (here, s) u b = ((u, b), s)
Sound-set n (suc idx) (p ∷ os) o (here, s) u b = (here, Sound-set n idx os o s u b)

pub Sound-snoc :
    (n : ℕ) (os : List OracleObj) (o : OracleObj)
    → Sound n os
    → Unique o.reg_list
    → BelowAll n o.reg_list
    → Sound n (os ++ o ∷ [])
unfolding Sound
Sound-snoc n [] o s u b = ((u, b), tt)
Sound-snoc n (p ∷ os) o (here, s) u b = (here, Sound-snoc n os o s u b)
