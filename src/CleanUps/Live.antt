-- ===== src/CleanUps/Live.antt =====
-- Which clean-up procedures run: those that have been added and not removed, each once, in the order in
-- which they were added.
use vireo_sdk.Common.{
  ℕ, ◌≡◌, refl, sym, ap, ◌∙◌, arith, Bool, false, ◌&&◌, ◌||◌, Option, none, some, List, [], ◌∷◌,
  ◌++◌, ◌==◌, if◌then◌else◌, Bool-cases, Option-cases, inl, inr,
}
use vireo_sdk.CleanUps.{
  CleanUp, has_clean_up, Entry, find_vi, put_vi, erase_vi, clean_ups_in, clean_up, add_to,
  add_cleanup_proc, leave_hole, remove_in, remove_cleanup_proc, run_all, run_cleanup_procs,
}

-- A procedure with its argument.
pub record Task : Type 0 where
  pub proc : ℕ
  pub arg : ℕ

abbrev pub same_task : Task → Task → Bool
same_task a b = (a.proc == b.proc) && (a.arg == b.arg)

-- A list without holes, to which a task is added that it does not hold, and from which one is taken.
unfoldable pub has_task : Task → List Task → Bool
has_task t [] = false
has_task t (u ∷ us) = same_task u t || has_task t us

abbrev pub add_task : Task → List Task → List Task
add_task t ts = if has_task t ts then ts else ts ++ t ∷ []

unfoldable pub drop_task : Task → List Task → List Task
drop_task t [] = []
drop_task t (u ∷ us) = let rest = drop_task t us in if same_task u t then us else u ∷ rest

-- The calls of AddCleanupProc and RemoveCleanupProc, each for a virtual instrument.
pub data Order : Type 0 where
  adds : ℕ → Task → Order
  removes : ℕ → Task → Order

unfoldable pub orders : List Order → List Entry → List Entry
unfolding add_cleanup_proc remove_cleanup_proc
orders [] es = es
orders (adds vi t ∷ os) es = orders os (add_cleanup_proc vi t.proc t.arg es)
orders (removes vi t ∷ os) es = orders os (remove_cleanup_proc vi t.proc t.arg es)

-- What a virtual instrument has to do after them.
unfoldable pub tasks : ℕ → List Order → List Task → List Task
unfolding has_task drop_task
tasks vi [] ts = ts
tasks vi (adds v t ∷ os) ts = tasks vi os (if v == vi then add_task t ts else ts)
tasks vi (removes v t ∷ os) ts = tasks vi os (if v == vi then drop_task t ts else ts)

unfoldable pub do_tasks : {S : Type 0} → (ℕ → ℕ → S → S) → List Task → S → S
do_tasks call [] s = s
do_tasks call (t ∷ ts) s = do_tasks call ts (call t.proc t.arg s)

-- The records that are not holes.
abbrev live_on : Option ℕ → ℕ → List Task → List Task
live_on none arg ts = ts
live_on (some p) arg ts = record { proc = p; arg = arg } ∷ ts

unfoldable live : List CleanUp → List Task
live [] = []
live (c ∷ cs) = live_on c.proc c.arg (live cs)

has-live :
    (t : Task) (cs : List CleanUp) → has_clean_up (clean_up t.proc t.arg) cs ≡ has_task t (live cs)
unfolding has_clean_up has_task live
has-live t [] = refl
has-live t (c ∷ cs) = elim (Option-cases c.proc) [
  | inl e ↦ rw (has_clean_up, live, e) (has-live t cs)
  | inr (p, e) ↦
      rw (has_clean_up, live, e)
        (ap (λ b. ((p == t.proc) && (c.arg == t.arg)) || b) (has-live t cs))
]

live-append : (cs ds : List CleanUp) → live (cs ++ ds) ≡ live cs ++ live ds
unfolding live
live-append [] ds = refl
live-append (c ∷ cs) ds = elim (Option-cases c.proc) [
  | inl e ↦ rw e (live-append cs ds)
  | inr (p, e) ↦ rw e (ap (λ l. record { proc = p; arg = c.arg } ∷ l) (live-append cs ds))
]

live-add :
    (t : Task) (cs : List CleanUp) → live (add_to (clean_up t.proc t.arg) cs) ≡ add_task t (live cs)
unfolding live
live-add t cs =
    let held = has-live t cs in
    elim (Bool-cases (has_clean_up (clean_up t.proc t.arg) cs)) [
      | inl e ↦ let e' = sym held ∙ e in rw (e, e') refl
      | inr e ↦ let e' = sym held ∙ e in rw (e, e') (live-append cs (clean_up t.proc t.arg ∷ []))
    ]

live-hole :
    (t : Task) (cs : List CleanUp)
    → live (leave_hole (clean_up t.proc t.arg) cs) ≡ drop_task t (live cs)
unfolding live leave_hole drop_task
live-hole t [] = refl
live-hole t (c ∷ cs) = elim (Option-cases c.proc) [
  | inl e ↦ rw (live, leave_hole, e) (live-hole t cs)
  | inr (p, e) ↦ elim (Bool-cases ((p == t.proc) && (c.arg == t.arg))) [
    | inl h ↦ rw (live, leave_hole, drop_task, e, h) refl
    | inr h ↦
        rw (live, leave_hole, drop_task, e, h)
          (ap (λ l. record { proc = p; arg = c.arg } ∷ l) (live-hole t cs))
  ]
]

live_of : ℕ → List Entry → List Task
live_of vi es = live (clean_ups_in (find_vi vi es))

find-put :
    (vi v : ℕ) (cs : List CleanUp) (es : List Entry)
    → find_vi v (put_vi vi cs es) ≡ (if vi == v then some cs else find_vi v es)
unfolding find_vi put_vi
find-put vi v cs [] = refl
find-put vi v cs (e ∷ es) = let ih = find-put vi v cs es in ground arith

find-erase :
    (vi v : ℕ) (es : List Entry)
    → find_vi v (erase_vi vi es) ≡ (if vi == v then none else find_vi v es)
unfolding find_vi erase_vi
find-erase vi v [] = ground arith
find-erase vi v (e ∷ es) = let ih = find-erase vi v es in ground arith

live-put :
    (vi v : ℕ) (cs : List CleanUp) (es : List Entry)
    → live_of v (put_vi vi cs es) ≡ (if vi == v then live cs else live_of v es)
unfolding live_of
live-put vi v cs es = elim (Bool-cases (vi == v)) [
  | inl e ↦ rw (find-put vi v cs es, e) refl
  | inr e ↦ rw (find-put vi v cs es, e) refl
]

add-live :
    (vi v : ℕ) (t : Task) (es : List Entry)
    → live_of v (add_cleanup_proc vi t.proc t.arg es)
      ≡ (if vi == v then add_task t (live_of v es) else live_of v es)
unfolding add_cleanup_proc live_of
add-live vi v t es =
    let cs = clean_ups_in (find_vi vi es) in
    live-put vi v (add_to (clean_up t.proc t.arg) cs) es ∙ elim (Bool-cases (vi == v)) [
      | inl e ↦
          let same : vi ≡ v = ground arith in
          rw e (live-add t cs ∙ ap (λ k. add_task t (live_of k es)) same)
      | inr e ↦ rw e refl
    ]

removed :
    (vi v : ℕ) (t : Task) (es : List Entry) (o : Option (List CleanUp))
    → find_vi vi es ≡ o
    → live_of v (remove_in o vi (clean_up t.proc t.arg) es)
      ≡ (if vi == v then drop_task t (live_of v es) else live_of v es)
unfolding live_of live drop_task
removed vi v t es none e = elim (Bool-cases (vi == v)) [
  | inl h ↦
      let same : vi ≡ v = ground arith in
      let gone : find_vi v es ≡ none = ap (λ k. find_vi k es) (sym same) ∙ e in rw (h, gone) refl
  | inr h ↦ rw h refl
]
removed vi v t es (some cs) e =
    live-put vi v (leave_hole (clean_up t.proc t.arg) cs) es ∙ elim (Bool-cases (vi == v)) [
      | inl h ↦
          let same : vi ≡ v = ground arith in
          let held : find_vi v es ≡ some cs = ap (λ k. find_vi k es) (sym same) ∙ e in
          rw (h, held) (live-hole t cs)
      | inr h ↦ rw h refl
    ]

orders-live :
    (vi : ℕ) (os : List Order) (es : List Entry)
    → live_of vi (orders os es) ≡ tasks vi os (live_of vi es)
unfolding orders tasks remove_cleanup_proc
orders-live vi [] es = refl
orders-live vi (adds v t ∷ os) es =
    orders-live vi os (add_cleanup_proc v t.proc t.arg es) ∙ ap (tasks vi os) (add-live v vi t es)
orders-live vi (removes v t ∷ os) es =
    orders-live vi os (remove_cleanup_proc v t.proc t.arg es)
    ∙ ap (tasks vi os) (removed v vi t es (find_vi v es) refl)

run-live :
    {S : Type 0} (call : ℕ → ℕ → S → S) (cs : List CleanUp) (s : S)
    → run_all call cs s ≡ do_tasks call (live cs) s
unfolding run_all do_tasks live
run-live call [] s = refl
run-live call (c ∷ cs) s = elim (Option-cases c.proc) [
  | inl e ↦ rw e (run-live call cs s)
  | inr (p, e) ↦ rw e (run-live call cs (call p c.arg s))
]

-- After any sequence of AddCleanupProc and RemoveCleanupProc, RunCleanupProcs of a virtual
-- instrument calls the procedures that were added for it and not removed since, each once with
-- its argument, in the order in which they were added; it forgets the instrument and leaves
-- the procedures of every other.
pub run_cleanup_procs-tasks :
    {S : Type 0} (call : ℕ → ℕ → S → S) (vi v : ℕ) (os : List Order) (s : S)
    → let r = run_cleanup_procs call vi (orders os []) s in
      (r.0 ≡ do_tasks call (tasks vi os []) s)
      × (find_vi v r.1 ≡ (if vi == v then none else find_vi v (orders os [])))
unfolding run_cleanup_procs live_of live
run_cleanup_procs-tasks call vi v os s = (
  run-live call (clean_ups_in (find_vi vi (orders os []))) s
      ∙ ap (λ ts. do_tasks call ts s) (orders-live vi os []),
  find-erase vi v (orders os []),
)
