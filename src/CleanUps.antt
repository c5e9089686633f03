-- ===== src/CleanUps.antt =====
-- The clean-up procedures of virtual instruments: RefNumManager (source/core/RefNum.cpp,
-- source/include/RefNum.h). A procedure is a number, a null one `none`, and what it does to a state is
-- `call`; a virtual instrument is a number. No procedure adds or removes another while they run.
pub mod Live
use vireo_sdk.Common.{
  ℕ, Bool, true, false, not, ◌&&◌, ◌||◌, Option, none, some, List, [], ◌∷◌, ◌++◌, ◌==◌,
  if◌then◌else◌,
}

-- CleanupRecord.
pub record CleanUp : Type 0 where
  pub proc : Option ℕ
  pub arg : ℕ

abbrev pub same_proc : Option ℕ → Option ℕ → Bool
same_proc none none = true
same_proc none (some q) = false
same_proc (some p) none = false
same_proc (some p) (some q) = p == q

abbrev pub same_clean_up : CleanUp → CleanUp → Bool
same_clean_up a b = same_proc a.proc b.proc && (a.arg == b.arg)

-- std::find.
unfoldable pub has_clean_up : CleanUp → List CleanUp → Bool
has_clean_up c [] = false
has_clean_up c (d ∷ ds) = same_clean_up d c || has_clean_up c ds

-- An entry of `_s_CleanupMap`.
pub record Entry : Type 0 where
  pub vi : ℕ
  pub clean_ups : List CleanUp

unfoldable pub find_vi : ℕ → List Entry → Option (List CleanUp)
find_vi vi [] = none
find_vi vi (e ∷ es) = let rest = find_vi vi es in if e.vi == vi then some e.clean_ups else rest

unfoldable pub put_vi : ℕ → List CleanUp → List Entry → List Entry
put_vi vi cs [] = record { vi = vi; clean_ups = cs } ∷ []
put_vi vi cs (e ∷ es) =
    let rest = put_vi vi cs es in if e.vi == vi then record e { clean_ups = cs } ∷ es else e ∷ rest

unfoldable pub erase_vi : ℕ → List Entry → List Entry
erase_vi vi [] = []
erase_vi vi (e ∷ es) = let rest = erase_vi vi es in if e.vi == vi then rest else e ∷ rest

abbrev pub clean_ups_in : Option (List CleanUp) → List CleanUp
clean_ups_in none = []
clean_ups_in (some cs) = cs

abbrev pub clean_up : ℕ → ℕ → CleanUp
clean_up proc arg = record { proc = some proc; arg = arg }

abbrev pub add_to : CleanUp → List CleanUp → List CleanUp
add_to c cs = if has_clean_up c cs then cs else cs ++ c ∷ []

-- AddCleanupProc.
unfoldable pub add_cleanup_proc : ℕ → ℕ → ℕ → List Entry → List Entry
unfolding has_clean_up find_vi put_vi
add_cleanup_proc vi proc arg es =
    put_vi vi (add_to (clean_up proc arg) (clean_ups_in (find_vi vi es))) es

-- The first record that is found becomes a hole.
unfoldable pub leave_hole : CleanUp → List CleanUp → List CleanUp
leave_hole c [] = []
leave_hole c (d ∷ ds) =
    let rest = leave_hole c ds in
    if same_clean_up d c then record { proc = none; arg = 0 } ∷ ds else d ∷ rest

abbrev pub remove_in : Option (List CleanUp) → ℕ → CleanUp → List Entry → List Entry
remove_in none vi c es = es
remove_in (some cs) vi c es = put_vi vi (leave_hole c cs) es

-- RemoveCleanupProc.
unfoldable pub remove_cleanup_proc : ℕ → ℕ → ℕ → List Entry → List Entry
unfolding leave_hole find_vi put_vi
remove_cleanup_proc vi proc arg es = remove_in (find_vi vi es) vi (clean_up proc arg) es

module _ {S : Type 0} (call : ℕ → ℕ → S → S) where
  abbrev pub run_one : CleanUp → S → S
  run_one c s = elim c.proc [ none ↦ s | some p ↦ call p c.arg s ]

  unfoldable pub run_all : List CleanUp → S → S
  run_all [] s = s
  run_all (c ∷ cs) s = run_all cs (run_one c s)

  -- RunCleanupProcs.
  unfoldable pub run_cleanup_procs : ℕ → List Entry → S → S × List Entry
  unfolding run_all find_vi erase_vi
  run_cleanup_procs vi es s = (run_all (clean_ups_in (find_vi vi es)) s, erase_vi vi es)
