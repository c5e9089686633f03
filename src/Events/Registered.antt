-- ===== src/Events/Registered.antt =====
-- What is registered after EventListInsert and EventListRemove.
use vireo_sdk.Common.{
  ℕ, Bool, true, false, ◌&&◌, ◌||◌, List, [], ◌∷◌, ◌++◌, ◌≡◌, refl, arith, ◌==◌, if◌then◌else◌,
  Bool-cases, inl, inr,
}
use vireo_sdk.Events.{RegQueue, RegInfo}
use vireo_sdk.Events.Oracle.{
  is_for, same_queue, holds_queue, list_insert, erase_queue, put_info, list_remove, find_info,
}

-- Whether a queue is registered for an event source, a type and a reference.
unfoldable pub is_registered : ℕ → ℕ → RegQueue → List RegInfo → Bool
is_registered src ty k is = holds_queue k (find_info src ty is)

-- No queue twice, no event source and type twice.
unfoldable pub NoDup : List RegQueue → Type 0
NoDup [] = Unit
NoDup (k ∷ ks) = (holds_queue k ks ≡ false) × NoDup ks

unfoldable pub Unique : List RegInfo → Type 0
unfolding NoDup
Unique [] = Unit
Unique (i ∷ is) = NoDup i.queue_ids × (find_info i.event_source i.event_type is ≡ []) × Unique is

abbrev pub same_key : ℕ → ℕ → ℕ → ℕ → Bool
same_key src ty src' ty' = (src == src') && (ty == ty')

abbrev added : RegQueue → List RegQueue → List RegQueue
added k ks = if holds_queue k ks then ks else ks ++ k ∷ []

find-insert :
    (src ty src' ty' : ℕ) (k : RegQueue) (is : List RegInfo)
    → find_info src' ty' (list_insert src ty k is).1
      ≡ (if same_key src ty src' ty' then added k (find_info src ty is) else find_info src' ty' is)
unfolding find_info list_insert holds_queue
find-insert src ty src' ty' k [] = ground arith
find-insert src ty src' ty' k (i ∷ is) = let ih = find-insert src ty src' ty' k is in ground arith

erase_absent :
    (k : RegQueue) (ks : List RegQueue) → holds_queue k ks ≡ false → erase_queue k ks ≡ ks
unfolding holds_queue erase_queue
erase_absent k [] h = refl
erase_absent k (r ∷ rs) h = let ih = erase_absent k rs in ground arith

find-remove :
    (src ty src' ty' : ℕ) (k : RegQueue) (is : List RegInfo)
    → Unique is
    → find_info src' ty' (list_remove src ty k is).1 ≡ (
        if same_key src ty src' ty'
        then erase_queue k (find_info src ty is)
        else find_info src' ty' is)
unfolding find_info list_remove Unique
find-remove src ty src' ty' k [] u = ground arith
find-remove src ty src' ty' k (i ∷ is) (n, first, u) =
    let ih = find-remove src ty src' ty' k is u in ground (arith, erase_absent k i.queue_ids)

holds-append :
    (k : RegQueue) (xs ys : List RegQueue)
    → holds_queue k (xs ++ ys) ≡ (holds_queue k xs || holds_queue k ys)
unfolding holds_queue
holds-append k [] ys = refl
holds-append k (x ∷ xs) ys = ground (arith, holds-append k xs ys)

pub same_queue-holds :
    (k k' : RegQueue) (ks : List RegQueue)
    → same_queue k k' ≡ true
    → holds_queue k' ks ≡ holds_queue k ks
unfolding holds_queue
same_queue-holds k k' [] e = refl
same_queue-holds k k' (r ∷ rs) e = ground (arith, same_queue-holds k k' rs e)

holds-erase :
    (k k' : RegQueue) (ks : List RegQueue)
    → NoDup ks
    → holds_queue k' (erase_queue k ks) ≡ (if same_queue k k' then false else holds_queue k' ks)
unfolding holds_queue erase_queue NoDup
holds-erase k k' [] n = ground arith
holds-erase k k' (r ∷ rs) (first, n) =
    ground (arith, holds-erase k k' rs n, same_queue-holds r k' rs)

holds-added :
    (k k' : RegQueue) (ks : List RegQueue)
    → holds_queue k' (added k ks) ≡ (if same_queue k k' then true else holds_queue k' ks)
unfolding holds_queue
holds-added k k' ks = ground (arith, holds-append k' ks (k ∷ []), same_queue-holds k k' ks)

pub NoDup-find : (src ty : ℕ) (is : List RegInfo) → Unique is → NoDup (find_info src ty is)
unfolding find_info Unique
NoDup-find src ty [] u = tt
NoDup-find src ty (i ∷ is) (n, first, u) = elim (Bool-cases (is_for src ty i)) [
  | inl e ↦ rw (find_info, e) n
  | inr e ↦ rw (find_info, e) (NoDup-find src ty is u)
]

-- After EventListInsert of a queue and reference for a source and type these are registered,
-- and everything else is registered exactly if it was.
registered-insert :
    (src ty src' ty' : ℕ) (k k' : RegQueue) (is : List RegInfo)
    → is_registered src' ty' k' (list_insert src ty k is).1
      ≡ (if same_key src ty src' ty' && same_queue k k' then true else is_registered src' ty' k' is)
unfolding is_registered
registered-insert src ty src' ty' k k' is =
    ground (arith, find-insert src ty src' ty' k is, holds-added k k' (find_info src ty is))

-- On a list without double entries, after EventListRemove of a queue and reference for a
-- source and type these are not registered, and everything else is registered exactly if it
-- was.
pub registered-remove :
    (src ty src' ty' : ℕ) (k k' : RegQueue) (is : List RegInfo)
    → Unique is
    → is_registered src' ty' k' (list_remove src ty k is).1 ≡ (
        if same_key src ty src' ty' && same_queue k k' then false else is_registered src' ty' k' is)
unfolding is_registered
registered-remove src ty src' ty' k k' is u = ground (
  arith,
  find-remove src ty src' ty' k is u,
  holds-erase k k' (find_info src ty is) (NoDup-find src ty is u),
)

NoDup-snoc :
    (k : RegQueue) (ks : List RegQueue) → NoDup ks → holds_queue k ks ≡ false → NoDup (ks ++ k ∷ [])
unfolding NoDup holds_queue
NoDup-snoc k [] n h = (refl, tt)
NoDup-snoc k (r ∷ rs) (first, n) h =
    (ground (arith, holds-append r rs (k ∷ [])), NoDup-snoc k rs n (ground arith))

pub insert-Unique :
    (src ty : ℕ) (k : RegQueue) (is : List RegInfo) → Unique is → Unique (list_insert src ty k is).1
unfolding Unique list_insert NoDup holds_queue find_info
insert-Unique src ty k [] u = ((refl, tt), refl, tt)
insert-Unique src ty k (i ∷ is) (n, first, u) = elim (Bool-cases (is_for src ty i)) [
  | inl e ↦ elim (Bool-cases (holds_queue k i.queue_ids)) [
    | inl h ↦ rw (list_insert, e, h) (n, first, u)
    | inr h ↦ rw (list_insert, e, h) (NoDup-snoc k i.queue_ids n h, first, u)
  ]
  | inr e ↦
      rw (list_insert, e)
        (
          n,
          ground (arith, find-insert src ty i.event_source i.event_type k is),
          insert-Unique src ty k is u,
        )
]

NoDup-erase : (k : RegQueue) (ks : List RegQueue) → NoDup ks → NoDup (erase_queue k ks)
unfolding NoDup erase_queue
NoDup-erase k [] n = tt
NoDup-erase k (r ∷ rs) (first, n) = elim (Bool-cases (same_queue k r)) [
  | inl e ↦ rw (erase_queue, e) n
  | inr e ↦ rw (erase_queue, e) (ground (arith, holds-erase k r rs n), NoDup-erase k rs n)
]

put_info-Unique :
    (i : RegInfo) (ks : List RegQueue) (is : List RegInfo)
    → NoDup ks
    → find_info i.event_source i.event_type is ≡ []
    → Unique is
    → Unique (put_info i ks is)
unfolding Unique
put_info-Unique i [] is n first u = u
put_info-Unique i (k ∷ ks) is n first u = (n, first, u)

pub remove-Unique :
    (src ty : ℕ) (k : RegQueue) (is : List RegInfo) → Unique is → Unique (list_remove src ty k is).1
unfolding Unique list_remove
remove-Unique src ty k [] u = tt
remove-Unique src ty k (i ∷ is) (n, first, u) = elim (Bool-cases (is_for src ty i)) [
  | inl e ↦ elim (Bool-cases (holds_queue k i.queue_ids)) [
    | inl h ↦
        rw (list_remove, e, h)
          (put_info-Unique i (erase_queue k i.queue_ids) is (NoDup-erase k i.queue_ids n) first u)
    | inr h ↦ rw (list_remove, e, h) (n, first, u)
  ]
  | inr e ↦
      rw (list_remove, e)
        (
          n,
          ground (arith, find-remove src ty i.event_source i.event_type k is u),
          remove-Unique src ty k is u,
        )
]

-- EventListRemove tells whether the queue was registered.
pub removed-registered :
    (src ty : ℕ) (k : RegQueue) (is : List RegInfo)
    → (list_remove src ty k is).0 ≡ is_registered src ty k is
unfolding is_registered find_info list_remove holds_queue
removed-registered src ty k [] = refl
removed-registered src ty k (i ∷ is) = ground (arith, removed-registered src ty k is)
