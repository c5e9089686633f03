-- ===== src/RefNum/Reach.antt =====
-- Every storage that a program can reach meets the invariant.
use vireo_sdk.Common.{ℕ, ◌≡◌, inl, inr, Bool, Bool-cases, if-false}
use vireo_sdk.RefNum.{
  Storage, init, new_ref_num, dispose_ref_num, set_ref_num_data, acquire_ref_num_rights,
  release_ref_num_rights,
}
use vireo_sdk.RefNum.Invariant.{Inv}
use vireo_sdk.RefNum.Room.{init-Inv, new-Inv}
use vireo_sdk.RefNum.Dispose.{dispose-Inv}
use vireo_sdk.RefNum.Data.{set-Inv}
use vireo_sdk.RefNum.Lifetime.{acquire-Inv, release-Inv}

module _ {D : Type 0} (blank : D) where
  -- The calls that change a storage.
  pub data Call : Type 0 where
    create : D → Call
    dispose : ℕ → Call
    write : D → ℕ → Call
    acquire : ℕ → Call
    release : ℕ → Call

  abbrev pub run : Call → Storage D → Storage D
  run (create d) s = (new_ref_num d s).1
  run (dispose r) s = (dispose_ref_num blank r s).1
  run (write d r) s = (set_ref_num_data d r s).1
  run (acquire r) s = (acquire_ref_num_rights r s).1
  run (release r) s = (release_ref_num_rights blank r s).1

  -- The storages that calls lead to from one that Init has set up.
  pub data Reached : Storage D → Type 0 where
    start : (tick : ℕ) (ref_counted : Bool) → Reached (init tick ref_counted)
    step : {s : Storage D} (call : Call) → Reached s → Reached (run call s)

  release_any-Inv : (r : ℕ) (s : Storage D) → Inv s → Inv (release_ref_num_rights blank r s).1
  unfolding release_ref_num_rights
  release_any-Inv r s v = elim (Bool-cases s.is_ref_counted) [
    | inl e ↦ release-Inv blank r s e v
    | inr e ↦ let same : release_ref_num_rights blank r s ≡ (0, s) = if-false _ _ e in rw same v
  ]

  -- Every storage that calls of NewRefNum, DisposeRefNum, SetRefNumData, AcquireRefNumRights
  -- and ReleaseRefNumRights lead to from Init, in any order and with any arguments, meets the
  -- invariant of a refnum storage: the slots are the indices below a size of at most 2^20, the
  -- slots not in use form the free list, _numUsed is the number of the others, and the next
  -- magic number is not 0.
  pub Reached-Inv : (s : Storage D) → Reached s → Inv s
  Reached-Inv s (start tick ref_counted) = init-Inv tick ref_counted
  Reached-Inv s (step {s = t} (create d) before) = new-Inv d t (Reached-Inv t before)
  Reached-Inv s (step {s = t} (dispose r) before) = dispose-Inv blank r t (Reached-Inv t before)
  Reached-Inv s (step {s = t} (write d r) before) = set-Inv d r t (Reached-Inv t before)
  Reached-Inv s (step {s = t} (acquire r) before) = acquire-Inv r t (Reached-Inv t before)
  Reached-Inv s (step {s = t} (release r) before) = release_any-Inv r t (Reached-Inv t before)
