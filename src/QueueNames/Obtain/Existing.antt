-- ===== src/QueueNames/Obtain/Existing.antt =====
-- A queue that is obtained by the name of another.
use vireo_sdk.Common.{
  ℕ, ◌^◌, ◌≤◌, ◌<◌, ◌≡◌, ◌≢◌, Bool, true, false, Option, none, some, List, ◌==◌, length, arith,
  refl, sym, ap, ◌∙◌, Bool-cases, inl, inr,
}
use vireo_sdk.Common.Int.{ℤ, pos, eqb_ℤ, eqb_ℤ-eq}
use vireo_sdk.RefNum.{Storage, get_ref_num_data, acquire_ref_num_rights}
use vireo_sdk.RefNum.Counting.{ref_count, acquire-counts}
use vireo_sdk.RefNum.Kept.{data-none, data-acquire}
use vireo_sdk.QueueNames.{
  Manager, find_name, find_alias, add_alias, new_refnum_alias, lookup_alias, lookup_queue_ref,
  fresh_alias,
}
use vireo_sdk.QueueNames.Counted.{Counted, fits}
use vireo_sdk.QueueNames.Obtain.{
  obtain, obtain_ref, obtain_alias, existing, named_queue, typed, max_size_of, is_named, no_error,
  error_of,
}

not_zero : (z : ℤ) → z ≢ pos 0 → eqb_ℤ z (pos 0) ≡ false
not_zero z h = elim (Bool-cases (eqb_ℤ z (pos 0))) [
  | inl e ↦ absurd (h (eqb_ℤ-eq z (pos 0) e))
  | inr e ↦ e
]

module _ {D : Type 0} where
  none_not_some : (d : D) → none ≡ some d → ⊥
  none_not_some d e = cc

  lookup-added :
      (d : D) (s : Storage D) (r : ℕ) (m : Manager D)
      → lookup_queue_ref (add_alias (some d) s r m).0 (add_alias (some d) s r m).1
        ≡ get_ref_num_data r s
  unfolding lookup_queue_ref lookup_alias find_alias
  lookup-added d s r m =
      let n = fresh_alias (length m.aliases) r m.aliases in
      let same : (n == n) ≡ true = ground arith in rw same refl

  -- A new alias stands for the queue.
  alias-lookup :
      (r : ℕ) (d : D) (m : Manager D)
      → r < 2 ^ 32
      → length m.aliases < 4096
      → Counted m
      → get_ref_num_data r m.storage ≡ some d
      → lookup_queue_ref (new_refnum_alias r m).0 (new_refnum_alias r m).1 ≡ some d
  unfolding new_refnum_alias
  alias-lookup r d m low few c held =
      let u = acquire_ref_num_rights r m.storage in
      let positive : 1 ≤ ref_count r m.storage = elim (Bool-cases (ref_count r m.storage == 0)) [
        | inl z ↦
            let gone = data-none r m.storage c.counted (ground arith) in
            absurd (none_not_some d (sym gone ∙ held))
        | inr nz ↦ ground arith
      ] in
      let acquired =
        (acquire-counts r r m.storage low low c.counted positive (fits r m low few c)).0 in
      let same : new_refnum_alias r m ≡ add_alias (some d) u.1 r m =
        ap (λ o. add_alias o u.1 r m) (acquired ∙ held) in
      ap (λ v. lookup_queue_ref v.0 v.1) same
      ∙ (lookup-added d u.1 r m
          ∙ (data-acquire r m.storage low c.counted positive (fits r m low few c) ∙ held))

  found-queue :
      (same_type : D → Bool) (name : List ℕ) (r : ℕ) (d : D) (m : Manager D)
      → is_named name ≡ true
      → find_name name m.names ≡ some r
      → get_ref_num_data r m.storage ≡ some d
      → same_type d ≡ true
      → existing same_type name m ≡ (some r, no_error)
  found-queue same_type name r d m named e held same =
      rw named
        (ap (λ o. named_queue same_type o m) e ∙ (ap (typed same_type r) held ∙ rw same refl))

  obtains :
      (same_type : D → Bool) (make : ℤ → D) (name : List ℕ) (max : Option ℤ) (create : Bool) (r : ℕ)
      (d : D) (m : Manager D)
      → is_named name ≡ true
      → find_name name m.names ≡ some r
      → get_ref_num_data r m.storage ≡ some d
      → same_type d ≡ true
      → max_size_of max ≢ pos 0
      → obtain same_type make false name max create m ≡ obtain_alias none (new_refnum_alias r m)
  unfolding obtain
  obtains same_type make name max create r d m named e held same size =
      let found = found-queue same_type name r d m named e held same in
      let positive = not_zero (max_size_of max) size in
      let fine : error_of name (max_size_of max) create (existing same_type name m) ≡ no_error =
        ap (error_of name (max_size_of max) create) found ∙ rw (named, positive) refl in
      rw fine (ap (λ f. obtain_ref make name (max_size_of max) f.0 m) found)

  -- In a manager whose references are one more than the aliases, and that has fewer than 4096
  -- aliases, QueueRef_Obtain of the name of a queue that has data of the same type, with a
  -- maximum size other than 0 and no error at the input, sets a refnum that is looked up to
  -- these data and no error, and does not set the created flag.
  pub obtain-existing :
      (same_type : D → Bool) (make : ℤ → D) (name : List ℕ) (max : Option ℤ) (create : Bool) (r : ℕ)
      (d : D) (m : Manager D)
      → Counted m
      → length m.aliases < 4096
      → r < 2 ^ 32
      → is_named name ≡ true
      → find_name name m.names ≡ some r
      → get_ref_num_data r m.storage ≡ some d
      → same_type d ≡ true
      → max_size_of max ≢ pos 0
      → let o = obtain same_type make false name max create m in
        (lookup_queue_ref o.refnum o.manager ≡ some d) × (o.error ≡ no_error) × (o.created ≡ none)
  unfolding obtain
  obtain-existing same_type make name max create r d m c few low named e held same size =
      let u = new_refnum_alias r m in
      let same = obtains same_type make name max create r d m named e held same size in
      (
        ap (λ o. lookup_queue_ref o.refnum o.manager) same ∙ alias-lookup r d m low few c held,
        ap (λ o. o.error) same,
        ap (λ o. o.created) same,
      )
