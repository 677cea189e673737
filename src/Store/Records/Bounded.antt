-- ===== src/Store/Records/Bounded.antt =====
-- internal/server/store.go: what trimSyncRecordsLocked leaves.
use xcloud.Prelude.{
  ℕ, zero, suc, ◌+◌, ◌-◌, ◌≤◌, String, ◌≡◌, refl, ap, ◌∙◌, sym, inl, inr, Bool, false, List, [],
  ◌∷◌, ◌++◌, ℤ, arith, ◌==◌, leb, keep, drop, length, length-drop, keep-append, append-nil, reverse,
  take, Bool-cases, eq_iff,
}
use mathlib.Core.List.{reverse-cons}
use xcloud.Model.{SyncRecord, ServerState, max_sync_records_per_account}
use xcloud.Store.Records.{
  is_of, scan, trim_records, collect_records, list_sync_records, record_limit,
}

-- The last `n` elements.
abbrev pub last_of : ℕ → List SyncRecord → List SyncRecord
last_of n rs = drop (length rs - n) rs

last_of-short : (n : ℕ) (rs : List SyncRecord) → length rs ≤ n → last_of n rs ≡ rs
last_of-short n rs h =
    let none_over : length rs - n ≡ 0 = omega arith in ap (λ k. drop k rs) none_over

last_of-long :
    (n : ℕ) (r : SyncRecord) (rs : List SyncRecord)
    → n ≤ length rs
    → last_of n (r ∷ rs) ≡ last_of n rs
last_of-long n r rs h =
    let one_more : suc (length rs) - n ≡ suc (length rs - n) = omega arith in
    ap (λ k. drop k (r ∷ rs)) one_more

module _ (account_id : String) (most : ℕ) where
  count_exact :
      (rs : List SyncRecord) → (scan account_id most rs).0 ≡ length (keep (is_of account_id) rs)
  unfolding scan keep
  count_exact [] = refl
  count_exact (r ∷ rs) = ground (arith, count_exact rs)

  pub mine_exact :
      (rs : List SyncRecord)
      → keep (is_of account_id) (scan account_id most rs).1
        ≡ last_of most (keep (is_of account_id) rs)
  unfolding scan keep
  mine_exact [] = ground arith
  mine_exact (r ∷ rs) = elim (Bool-cases (is_of account_id r)) [
    | inr e ↦ rw (e, e) (mine_exact rs)
    | inl e ↦
        let counted = count_exact rs in
        let rest = mine_exact rs in
        elim (Bool-cases (leb ((scan account_id most rs).0 + 1) most)) [
          | inl f ↦
              let short : length (keep (is_of account_id) rs) ≤ most = ground arith in
              let shorter : length (r ∷ keep (is_of account_id) rs) ≤ most = ground arith in
              rw (e, f, e)
                (ap (λ rest. r ∷ rest) (rest ∙ last_of-short most _ short)
                  ∙ sym (last_of-short most _ shorter))
          | inr f ↦
              let long : most ≤ length (keep (is_of account_id) rs) = ground arith in
              rw (e, f) (rest ∙ sym (last_of-long most r _ long))
        ]
  ]

  others_exact :
      (other : String) (rs : List SyncRecord)
      → (other == account_id) ≡ false
      → keep (is_of other) (scan account_id most rs).1 ≡ keep (is_of other) rs
  unfolding scan keep
  others_exact other [] h = refl
  others_exact other (r ∷ rs) h = elim (Bool-cases (is_of account_id r)) [
    | inr e ↦ rw e (ground (arith, others_exact other rs h))
    | inl e ↦
        let theirs : is_of other r ≡ false = ground (
          arith,
          eq_iff r.account_id account_id,
          eq_iff r.account_id other,
          eq_iff other account_id,
        ) in
        elim (Bool-cases (leb ((scan account_id most rs).0 + 1) most)) [
          | inl f ↦ rw (e, f, theirs) (others_exact other rs h)
          | inr f ↦ rw (e, f, theirs) (others_exact other rs h)
        ]
  ]

last_of-bounded : (n : ℕ) (rs : List SyncRecord) → length (last_of n rs) ≤ n
last_of-bounded n rs = omega (arith, length-drop (length rs - n) rs)

-- What is left of an account's own records after trimming are its last 5000, at most, in their
-- order; the records of every other account are all left.
pub trim_records_exact :
    (account_id other : String) (rs : List SyncRecord)
    → (other == account_id) ≡ false
    → (keep (is_of account_id) (trim_records account_id rs)
        ≡ last_of max_sync_records_per_account (keep (is_of account_id) rs))
      × (length (keep (is_of account_id) (trim_records account_id rs))
          ≤ max_sync_records_per_account)
      × (keep (is_of other) (trim_records account_id rs) ≡ keep (is_of other) rs)
trim_records_exact account_id other rs h =
    let mine = mine_exact account_id max_sync_records_per_account rs in
    (
      mine,
      rw mine (last_of-bounded max_sync_records_per_account (keep (is_of account_id) rs)),
      others_exact account_id max_sync_records_per_account other rs h,
    )

collect_records_exact :
    (account_id : String) (n : ℕ) (rs : List SyncRecord)
    → collect_records account_id n rs ≡ take n (keep (is_of account_id) rs)
unfolding collect_records keep
collect_records_exact account_id zero rs = refl
collect_records_exact account_id (suc n) [] = refl
collect_records_exact account_id (suc n) (r ∷ rs) = elim (Bool-cases (is_of account_id r)) [
  | inl e ↦ rw e (ap (λ rest. r ∷ rest) (collect_records_exact account_id n rs))
  | inr e ↦ rw e (collect_records_exact account_id (suc n) rs)
]

keep-reverse :
    (p : SyncRecord → Bool) (rs : List SyncRecord) → keep p (reverse rs) ≡ reverse (keep p rs)
unfolding keep
keep-reverse p [] = refl
keep-reverse p (r ∷ rs) =
    ap (keep p) (reverse-cons r rs)
    ∙ keep-append p (reverse rs) (r ∷ [])
    ∙ ap (λ kept. kept ++ keep p (r ∷ [])) (keep-reverse p rs)
    ∙ last_one
  where
    last_one : reverse (keep p rs) ++ keep p (r ∷ []) ≡ reverse (keep p (r ∷ rs))
    last_one = elim (Bool-cases (p r)) [
      | inl e ↦ rw e (sym (reverse-cons r (keep p rs)))
      | inr e ↦ rw e (append-nil (reverse (keep p rs)))
    ]

-- The list of an account's records has its own records only, the last added first, and as many as
-- the limit says, or 200 where the limit is not positive.
pub list_sync_records_exact :
    (account_id : String) (limit : ℤ) (s : ServerState)
    → list_sync_records account_id limit s
      ≡ take (record_limit limit) (reverse (keep (is_of account_id) s.sync_records))
unfolding list_sync_records
list_sync_records_exact account_id limit s =
    collect_records_exact account_id (record_limit limit) (reverse s.sync_records)
    ∙ ap (take (record_limit limit)) (keep-reverse (is_of account_id) s.sync_records)
