-- ===== src/Store/Trash/Listed.antt =====
-- internal/server/store.go: what ListTrash answers.
use xcloud.Prelude.{
  ℕ, ◌+◌, ◌*◌, ◌≤◌, ◌<◌, String, ◌≡◌, ◌≢◌, refl, sym, ap, ◌∙◌, inl, inr, true, List, [], ◌∷◌,
  Option, none, some, ℤ, arith, leb, take, keep, All, Dict, Bool-cases, eq_iff,
}
use mathlib.Core.List.{Perm}
use mathlib.Core.List.Perm
use xcloud.Model.{FileEntry, FileVersion, TrashEntry, entry_dir}
use xcloud.Result.{ok}
use xcloud.Store.World.{Env, World}
use xcloud.Store.World.Keeps.{state-save}
use xcloud.Store.Trash.{
  tombstone_in, is_expired, stays, prune_trash, prunes, trash_entry, listed, push, collect_trash,
  insert_trash, sort_trash, try_save,
}
use xcloud.Store.Trash.Restore.{list_limit, list_trash}
use xcloud.Store.Trash.Tombstone.{
  IsTombstone, IsDue-is_expired, tombstone_in-IsTombstone, tombstone_in_of,
}

-- The entry is the account's and was deleted less than ten days ago, and its tombstone does not name
-- a directory; the trash shows it as `t`.
pub record IsShown (now : ℕ) (account_id : String) (entry : FileEntry) (t : TrashEntry)
    : Type 0 where
  pub v : FileVersion
  pub tombstone : IsTombstone entry v
  pub own : entry.account_id ≡ account_id
  pub of_file : v.deleted_state ≢ entry_dir
  pub young : now < v.deleted_at + 10 * 24 * 60 * 60
  pub shown : t ≡ trash_entry v

-- The trash of the account: each entry that is shown, once, and no other.
pub data IsTrashOf (now : ℕ) (account_id : String) : Dict FileEntry → List TrashEntry → Type 0 where
  nothing : IsTrashOf now account_id [] []
  shows :
      (key : String) (entry : FileEntry) (t : TrashEntry) (files : Dict FileEntry)
      (ts : List TrashEntry)
      → IsShown now account_id entry t
      → IsTrashOf now account_id files ts
      → IsTrashOf now account_id ((key, entry) ∷ files) (t ∷ ts)
  passes :
      (key : String) (entry : FileEntry) (files : Dict FileEntry) (ts : List TrashEntry)
      → ((t : TrashEntry) → ¬ IsShown now account_id entry t)
      → IsTrashOf now account_id files ts
      → IsTrashOf now account_id ((key, entry) ∷ files) ts

-- Each entry was deleted no earlier than those behind it.
abbrev pub LastFirst : List TrashEntry → Type 0
LastFirst [] = Unit
LastFirst (t ∷ ts) = All (λ u. u.deleted_at ≤ t.deleted_at) ts × LastFirst ts

module _ (P : TrashEntry → Type 0) where
  All-insert : (t : TrashEntry) (ts : List TrashEntry) → P t → All P ts → All P (insert_trash t ts)
  unfolding insert_trash
  All-insert t [] p h = (p, tt)
  All-insert t (u ∷ us) p h = elim (Bool-cases (leb u.deleted_at t.deleted_at)) [
    | inl e ↦ rw e (p, h)
    | inr e ↦ rw e (h.0, All-insert t us p h.1)
  ]

All-weaken :
    (a b : ℕ) (ts : List TrashEntry)
    → a ≤ b
    → All (λ u. u.deleted_at ≤ a) ts
    → All (λ u. u.deleted_at ≤ b) ts
All-weaken a b [] le h = tt
All-weaken a b (t ∷ ts) le h = (let first = h.0 in omega arith, All-weaken a b ts le h.1)

LastFirst-insert :
    (t : TrashEntry) (ts : List TrashEntry) → LastFirst ts → LastFirst (insert_trash t ts)
unfolding insert_trash
LastFirst-insert t [] h = (tt, tt)
LastFirst-insert t (u ∷ us) h = elim (Bool-cases (leb u.deleted_at t.deleted_at)) [
  | inl e ↦
      let le : u.deleted_at ≤ t.deleted_at = ground arith in
      rw e ((le, All-weaken u.deleted_at t.deleted_at us le h.0), h)
  | inr e ↦
      let le : t.deleted_at ≤ u.deleted_at = ground arith in
      rw e (All-insert (λ v. v.deleted_at ≤ u.deleted_at) t us le h.0, LastFirst-insert t us h.1)
]

LastFirst-sort : (ts : List TrashEntry) → LastFirst (sort_trash ts)
unfolding sort_trash
LastFirst-sort [] = tt
LastFirst-sort (t ∷ ts) = LastFirst-insert t (sort_trash ts) (LastFirst-sort ts)

perm-insert : (t : TrashEntry) (ts : List TrashEntry) → Perm (insert_trash t ts) (t ∷ ts)
unfolding insert_trash
perm-insert t [] = Perm.refl (t ∷ [])
perm-insert t (u ∷ us) = elim (Bool-cases (leb u.deleted_at t.deleted_at)) [
  | inl e ↦ rw e (Perm.refl (t ∷ u ∷ us))
  | inr e ↦ rw e (Perm.trans (Perm.cons u (perm-insert t us)) (Perm.swap t u us))
]

perm-sort : (ts : List TrashEntry) → Perm (sort_trash ts) ts
unfolding sort_trash
perm-sort [] = Perm.refl []
perm-sort (t ∷ ts) = Perm.trans (perm-insert t (sort_trash ts)) (Perm.cons t (perm-sort ts))

module _ (now : ℕ) (account_id : String) where
  IsShown-listed :
      (entry : FileEntry) (t : TrashEntry) (o : Option FileVersion)
      → tombstone_in entry ≡ o
      → listed now account_id entry o ≡ some t
      → IsShown now account_id entry t
  IsShown-listed entry t none e h = cc
  IsShown-listed entry t (some v) e h = record {
    v = v;
    tombstone = tombstone_in-IsTombstone entry v e;
    own = ground (arith, eq_iff entry.account_id account_id);
    of_file = ground (arith, eq_iff v.deleted_state entry_dir);
    young = ground arith;
    shown = ground arith;
  }

  listed_of_IsShown :
      (entry : FileEntry) (t : TrashEntry)
      → IsShown now account_id entry t
      → listed now account_id entry (tombstone_in entry) ≡ some t
  listed_of_IsShown entry t s =
      ap (listed now account_id entry) (tombstone_in_of entry s.v s.tombstone)
      ∙ passed s.v s.own s.of_file s.young
      ∙ ap some (sym s.shown)
    where
      passed :
          (v : FileVersion)
          → entry.account_id ≡ account_id
          → v.deleted_state ≢ entry_dir
          → now < v.deleted_at + 10 * 24 * 60 * 60
          → listed now account_id entry (some v) ≡ some (trash_entry v)
      passed v own of_file young =
          ground (arith, eq_iff entry.account_id account_id, eq_iff v.deleted_state entry_dir)

  -- What pruning removes is shown no more.
  expired_hidden :
      (entry : FileEntry) (t : TrashEntry)
      → is_expired now entry ≡ true
      → ¬ IsShown now account_id entry t
  expired_hidden entry t e s =
      let due = IsDue-is_expired now entry e in
      let same : ◌≡◌ {A = Option FileVersion} (some due.v) (some s.v) =
        sym due.tombstone.current ∙ s.tombstone.current in
      apart due.v s.v (cc) due.over s.young
    where
      apart :
          (v u : FileVersion)
          → v ≡ u
          → v.deleted_at + 10 * 24 * 60 * 60 ≤ now
          → now < u.deleted_at + 10 * 24 * 60 * 60
          → ⊥
      apart v u e over young = let at = ap (λ x. x.deleted_at) e in omega arith

  collected :
      (key : String) (entry : FileEntry) (files : Dict FileEntry) (ts : List TrashEntry)
      (o : Option TrashEntry)
      → listed now account_id entry (tombstone_in entry) ≡ o
      → IsTrashOf now account_id files ts
      → IsTrashOf now account_id ((key, entry) ∷ files) (push o ts)
  collected key entry files ts (some t) e h =
      shows key entry t files ts (IsShown-listed entry t (tombstone_in entry) refl e) h
  collected key entry files ts none e h = passes key entry files ts hidden h
    where
      hidden : (t : TrashEntry) → ¬ IsShown now account_id entry t
      hidden t s =
          let both : ◌≡◌ {A = Option TrashEntry} none (some t) =
            sym e ∙ listed_of_IsShown entry t s in
          cc

  collect_trash-IsTrashOf :
      (files : Dict FileEntry) → IsTrashOf now account_id files (collect_trash now account_id files)
  unfolding collect_trash
  collect_trash-IsTrashOf [] = nothing
  collect_trash-IsTrashOf ((key, entry) ∷ files) =
      collected key entry files _ (listed now account_id entry (tombstone_in entry)) refl
        (collect_trash-IsTrashOf files)

  -- The pruned trash is that of the files before the pruning.
  pruned-IsTrashOf :
      (files : Dict FileEntry)
      → IsTrashOf now account_id files (collect_trash now account_id (keep (stays now) files))
  unfolding collect_trash keep
  pruned-IsTrashOf [] = nothing
  pruned-IsTrashOf ((key, entry) ∷ files) = elim (Bool-cases (is_expired now entry)) [
    | inl e ↦
        rw e (passes key entry files _ (λ t. expired_hidden entry t e) (pruned-IsTrashOf files))
    | inr e ↦ rw e (
        collected key entry files _ (listed now account_id entry (tombstone_in entry)) refl
          (pruned-IsTrashOf files))
  ]

-- ListTrash always answers, with the first of the account's trash, as many as the limit says, or 200
-- where it is not positive. The trash is that of the files before the call: each entry of the account
-- that was deleted less than ten days ago and whose tombstone does not name a directory, once, as the
-- trash entry of its tombstone, and no other; the last deleted stand first.
pub list_trash-IsTrashOf :
    (env : Env) (now : ℕ) (account_id : String) (limit : ℤ) (w : World)
    → (found : List TrashEntry) × (trash : List TrashEntry) × ((list_trash env now account_id limit
          w).0
        ≡ ok (take (list_limit limit) trash))
      × LastFirst trash
      × Perm trash found
      × IsTrashOf now account_id w.state.files found
unfolding list_trash try_save prune_trash
list_trash-IsTrashOf env now account_id limit w =
    let found = collect_trash now account_id (keep (stays now) w.state.files) in
    (
      found,
      sort_trash found,
      elim (Bool-cases (prunes now w.state)) [
        | inl e ↦ rw e (
            ap
              (λ s.
                ok (take (list_limit limit) (sort_trash (collect_trash now account_id s.files))))
              (state-save env (record w { state = prune_trash now w.state })))
        | inr e ↦ rw e refl
      ],
      LastFirst-sort found,
      perm-sort found,
      pruned-IsTrashOf now account_id w.state.files,
    )
