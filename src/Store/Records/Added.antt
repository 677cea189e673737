-- ===== src/Store/Records/Added.antt =====
-- internal/server/store.go: AddSyncRecord, as ListSyncRecords shows it.
use text.Mathlib.TextPositions.{eq_refl}
use mathlib.Core.List.{reverse-append}
use xcloud.Prelude.{
  ℕ, zero, suc, ◌-◌, ◌≤◌, String, ◌≡◌, refl, ap, ◌∙◌, true, false, not, ◌&&◌, List, [], ◌∷◌, ◌++◌,
  ℤ, pos, negsuc, arith, ◌==◌, keep, drop, length, length-append, keep-append, reverse, take,
  trim_space,
}
use xcloud.Model.{
  SyncRecord, SyncRecordRequest, ServerState, max_sync_records_per_account,
  sync_record_status_success, sync_record_status_failed,
}
use xcloud.Result.{ok}
use xcloud.Store.World.{Env, World}
use xcloud.Store.World.Keeps.{save_then}
use xcloud.Store.Records.{
  is_of, record_of, trim_records, add_record, store_record, add_sync_record, list_sync_records,
  record_limit,
}
use xcloud.Store.Records.Bounded.{last_of, mine_exact, list_sync_records_exact}

drop-append :
    (k : ℕ) (xs ys : List SyncRecord) → k ≤ length xs → drop k (xs ++ ys) ≡ drop k xs ++ ys
drop-append zero xs ys le = refl
drop-append (suc k) [] ys le = absurd (omega arith)
drop-append (suc k) (x ∷ xs) ys le = drop-append k xs ys (omega arith)

-- The last element stays.
last_of-snoc :
    (n : ℕ) (xs : List SyncRecord) (r : SyncRecord)
    → 1 ≤ n
    → (rest : List SyncRecord) × (reverse (last_of n (xs ++ r ∷ [])) ≡ r ∷ rest)
last_of-snoc n xs r h =
    let k = length (xs ++ r ∷ []) - n in
    let le : k ≤ length xs = omega (arith, length-append xs (r ∷ [])) in
    (
      reverse (drop k xs),
      ap reverse (drop-append k xs (r ∷ []) le) ∙ reverse-append (drop k xs) (r ∷ []),
    )

some_limit : (limit : ℤ) → (n : ℕ) × (record_limit limit ≡ suc n)
some_limit (pos zero) = (199, refl)
some_limit (pos (suc n)) = (n, ground arith)
some_limit (negsuc n) = (199, ground arith)

newest_first :
    (account_id : String) (limit : ℤ) (r : SyncRecord) (s : ServerState)
    → is_of account_id r ≡ true
    → (rest : List SyncRecord) × (list_sync_records account_id limit (add_record account_id r s)
        ≡ r ∷ rest)
newest_first account_id limit r s h =
    let mine = keep (is_of account_id) s.sync_records in
    let (n, at_least) = some_limit limit in
    let (rest, reversed) = last_of-snoc max_sync_records_per_account mine r (omega arith) in
    let kept : keep (is_of account_id) (s.sync_records ++ r ∷ []) ≡ mine ++ r ∷ [] =
      keep-append (is_of account_id) s.sync_records (r ∷ []) ∙ ap (λ end. mine ++ end) (only r h) in
    let left : keep (is_of account_id) (trim_records account_id (s.sync_records ++ r ∷ []))
        ≡ last_of max_sync_records_per_account (mine ++ r ∷ []) =
      mine_exact account_id max_sync_records_per_account (s.sync_records ++ r ∷ [])
      ∙ ap (last_of max_sync_records_per_account) kept in
    (
      take n rest,
      list_sync_records_exact account_id limit (add_record account_id r s)
          ∙ ap (λ rs. take (record_limit limit) (reverse rs)) left
          ∙ ap (take (record_limit limit)) reversed
          ∙ ap (λ k. take k (r ∷ rest)) at_least,
    )
  where
    only : (q : SyncRecord) → is_of account_id q ≡ true → keep (is_of account_id) (q ∷ []) ≡ q ∷ []
    only q e = unfold keep in rw e refl

module _ (env : Env) (now : ℕ) (account_id : String) (req : SyncRecordRequest) where
  stored_first :
      (limit : ℤ) (r : SyncRecord) (w : World)
      → (store_record env now account_id req w).0 ≡ ok r
      → (rest : List SyncRecord) × (list_sync_records account_id limit
            (store_record env now account_id req w).1.state
          ≡ r ∷ rest)
  unfolding store_record
  stored_first limit r w h =
      let (same, end) = save_then env _ r _ h in
      let made = record_of account_id req now (env.random_id w.issued) in
      let (rest, first) = newest_first account_id limit made w.state (eq_refl account_id) in
      rw end (rest, first ∙ ap (λ q. q ∷ rest) same)

  -- The tests of AddSyncRecord.
  record Passes : Type 0 where
    acts : (trim_space req.action == "") ≡ false
    stated : (trim_space req.status == "") ≡ false
    known :
        (not (trim_space req.status == sync_record_status_success)
          && not (trim_space req.status == sync_record_status_failed))
        ≡ false

  Passes-of_ok :
      (r : SyncRecord) (w : World) → (add_sync_record env now account_id req w).0 ≡ ok r → Passes
  unfolding add_sync_record
  Passes-of_ok r w h = ground arith

  behind_tests :
      (w : World)
      → Passes
      → add_sync_record env now account_id req w ≡ store_record env now account_id req w
  unfolding add_sync_record
  behind_tests w p = rw (p.acts, p.stated, p.known) refl

-- A record that AddSyncRecord returns is from then on the first one that ListSyncRecords lists for
-- the account, whatever the limit and however many records the account has.
pub added_record_first :
    (env : Env) (now : ℕ) (account_id : String) (req : SyncRecordRequest) (limit : ℤ)
    (r : SyncRecord) (w : World)
    → (add_sync_record env now account_id req w).0 ≡ ok r
    → (rest : List SyncRecord) × (list_sync_records account_id limit
          (add_sync_record env now account_id req w).1.state
        ≡ r ∷ rest)
added_record_first env now account_id req limit r w h =
    let same = behind_tests env now account_id req w (Passes-of_ok env now account_id req r w h) in
    rw same (stored_first env now account_id req limit r w (rw same at h))
