-- ===== src/ClumpQueue.antt =====
-- The run queue's linked list: VIClumpQueue (source/core/Queue.cpp, source/include/ExecutionContext.h).
-- A clump is a number and `next` is the heap of the clumps' `_next` fields, by which a clump stands in
-- one list at most. A null `_tail` beside a `_head`, which the code would follow, does not occur.
pub mod Fifo
use vireo_sdk.Common.{ℕ, Bool, true, false, Option, none, some, ◌==◌, if◌then◌else◌, update}

abbrev pub Next : Type 0
Next = ℕ → Option ℕ

pub record ClumpQueue : Type 0 where
  pub head : Option ℕ
  pub tail : Option ℕ

abbrev pub empty : ClumpQueue
empty = record { head = none; tail = none }

abbrev pub is_empty : ClumpQueue → Bool
is_empty q = elim q.head [ none ↦ true | some h ↦ false ]

abbrev pub is_clump : ℕ → Option ℕ → Bool
is_clump h none = false
is_clump h (some t) = t == h

unfoldable pub enqueue : ℕ → ClumpQueue → Next → ClumpQueue × Next
enqueue c q next = elim q.head [
  | none ↦ (record { head = some c; tail = some c }, update next c none)
  | some h ↦
      (record q { tail = some c }, elim q.tail [ none ↦ next | some t ↦ update next t (some c) ])
]

unfoldable pub dequeue : ClumpQueue → Next → Option ℕ × ClumpQueue × Next
dequeue q next = elim q.head [
  | none ↦ (none, q, next)
  | some h ↦
      if is_clump h q.tail
      then (some h, empty, next)
      else (some h, record q { head = next h }, update next h none)
]
