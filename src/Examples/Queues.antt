-- ===== src/Examples/Queues.antt =====
-- The theorems on the element queue and the queue instructions, at concrete queues.
use vireo_sdk.Common.{ℕ, ◌≡◌, refl, inl, inr, Bool, true, false, none, some, [], ◌∷◌, arith}
use vireo_sdk.Common.Int.{ℤ, pos, negsuc}
use vireo_sdk.Array1D.{insert_1d}
use vireo_sdk.Observe.{observer, Exec, wake}
use vireo_sdk.ElemQueue.{ElemQueue, enqueue, push_front, dequeue, dequeue_observer_info}
use vireo_sdk.ElemQueue.Valid.{contents, IsValid}
use vireo_sdk.ElemQueue.Placing.{at_end, at_head}
use vireo_sdk.ElemQueue.Refine.{Inserts, enqueue-Inserts, push_front-Inserts}
use vireo_sdk.ElemQueue.Removal.{Takes, dequeue-Takes}
use vireo_sdk.QueueRef.{enqueue_valid, dequeue_valid, next_instruction, retry}
use vireo_sdk.QueueRef.Blocking.{dequeue-waits, dequeue-robbed}
use vireo_sdk.QueueRef.Overflow.{Appends, lossy-drops}

abbrev always : ℕ → Bool
always n = true

-- 9 and 7, around the end of a full buffer of two, with clump 4 waiting for an element.
abbrev around : ElemQueue ℕ
around = record {
  elements = 7 ∷ 9 ∷ [];
  front = some 1;
  back = some 0;
  count = 2;
  max_size = negsuc 0;
  observers = observer 4 dequeue_observer_info ∷ [];
}

around-IsValid : IsValid around
around-IsValid = record {
  shape = inr (record {
    f = 1;
    b = 0;
    front_is = refl;
    back_is = refl;
    spans = (omega arith, omega arith, omega arith, omega arith, inr refl);
  });
  bounded = inl refl;
}

-- A queue of at most two elements whose buffer has grown to two, and which holds 5.
abbrev at_most_two : ElemQueue ℕ
at_most_two = record around {
  elements = 5 ∷ 6 ∷ [];
  front = some 0;
  back = some 0;
  count = 1;
  max_size = pos 2;
  observers = [];
}

at_most_two-IsValid : IsValid at_most_two
at_most_two-IsValid = record {
  shape = inr (record {
    f = 0;
    b = 0;
    front_is = refl;
    back_is = refl;
    spans = (omega arith, omega arith, omega arith, omega arith, inl refl);
  });
  bounded = inr (omega arith, omega arith);
}

abbrev idle : ElemQueue ℕ
idle = record around { front = none; back = none; count = 0; observers = [] }

idle-IsValid : IsValid idle
idle-IsValid = record { shape = inl (refl, refl, refl); bounded = inl refl }

abbrev nobody_waits : Exec
nobody_waits = record { run_queue = []; timers = []; observation_count = λ c. 0 }

abbrev two_ready : Exec
two_ready = record nobody_waits { run_queue = 7 ∷ 2 ∷ [] }

abbrev clump_waits : Exec
clump_waits = record nobody_waits { timers = observer 4 (pos 90) ∷ []; observation_count = λ c. 2 }

abbrev in_a_second : ℤ → ℤ
in_a_second t = pos 1000

enqueue_grows : contents (enqueue always 0 3 around nobody_waits).1 ≡ 9 ∷ 7 ∷ 3 ∷ []
unfolding enqueue insert_1d
enqueue_grows = refl

enqueue-Inserts_example :
    Inserts always 0 at_end 3 around nobody_waits (enqueue always 0 3 around nobody_waits)
enqueue-Inserts_example = enqueue-Inserts always 0 3 around nobody_waits around-IsValid

push_front-Inserts_example :
    Inserts always 0 at_head 3 around nobody_waits (push_front always 0 3 around nobody_waits)
push_front-Inserts_example = push_front-Inserts always 0 3 around nobody_waits around-IsValid

dequeue-Takes_example : Takes false around nobody_waits (dequeue false around nobody_waits)
dequeue-Takes_example = dequeue-Takes false around nobody_waits around-IsValid

enqueue_done : (enqueue always 0 3 around clump_waits).0 ≡ true
unfolding enqueue insert_1d
enqueue_done = refl

dequeue-waits_example :
    let r = dequeue_valid in_a_second 4 false (pos 50) idle two_ready in
    (r.continue ≡ retry (some 7))
    × (r.exec.run_queue ≡ 2 ∷ [])
    × (r.flag ≡ true)
    × (r.queue ≡ some (record idle { observers = observer 4 dequeue_observer_info ∷ [] }))
    × (r.exec.observation_count 4 ≡ 2)
dequeue-waits_example =
    dequeue-waits in_a_second 4 (pos 50) idle two_ready idle-IsValid refl refl (ground arith)
      (ground arith)

dequeue-robbed_example :
    let r = dequeue_valid in_a_second 4 false (negsuc 0) idle (wake 4 clump_waits) in
    (r.continue ≡ next_instruction) × (r.flag ≡ true) × (r.element ≡ none)
dequeue-robbed_example =
    dequeue-robbed in_a_second 4 (negsuc 0) idle clump_waits idle-IsValid refl refl

lossy-drops_example :
    Appends true
      (some 5)
      []
      3
      (enqueue_valid always 0 in_a_second 4 true false (pos 0) 3 at_most_two nobody_waits)
lossy-drops_example =
    lossy-drops always 0 (λ n. refl) in_a_second 4 (pos 0) 3 at_most_two nobody_waits
      at_most_two-IsValid refl 5 [] refl refl
