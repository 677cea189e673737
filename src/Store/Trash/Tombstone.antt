-- ===== src/Store/Trash/Tombstone.antt =====
-- internal/server/store.go: what the trash is made of, apart from how the code tests it.
use xcloud.Prelude.{
  ℕ, ◌+◌, ◌*◌, ◌≤◌, ◌<◌, ◌≡◌, refl, ap, ◌∙◌, Bool, true, ◌&&◌, Option, none, some, ◌==◌,
  if◌then◌else◌, arith, eq_iff,
}
use xcloud.Model.{FileEntry, FileVersion, entry_deleted}
use xcloud.Store.Trash.{tombstone_in, outlived, is_expired}

-- The entry is deleted, and the version is the tombstone that deleted it.
pub record IsTombstone (entry : FileEntry) (v : FileVersion) : Type 0 where
  pub current : entry.current ≡ some v
  pub deleted : entry.deleted ≡ true
  pub state : v.state ≡ entry_deleted

-- The entry was deleted, at a time that is known, ten days ago or longer.
pub record IsDue (now : ℕ) (entry : FileEntry) : Type 0 where
  pub v : FileVersion
  pub tombstone : IsTombstone entry v
  pub stamped : 0 < v.deleted_at
  pub over : v.deleted_at + 10 * 24 * 60 * 60 ≤ now

abbrev chosen : Option FileVersion → Bool → Option FileVersion
chosen current deleted = elim current [
  | none ↦ none
  | some v ↦ if deleted && v.state == entry_deleted then some v else none
]

chosen-some :
    (current : Option FileVersion) (deleted : Bool) (v : FileVersion)
    → chosen current deleted ≡ some v
    → (current ≡ some v) × (deleted ≡ true) × (v.state ≡ entry_deleted)
chosen-some none deleted v h = cc
chosen-some (some u) deleted v h =
    ground (arith, eq_iff u.state entry_deleted, eq_iff v.state entry_deleted)

pub tombstone_in-IsTombstone :
    (entry : FileEntry) (v : FileVersion) → tombstone_in entry ≡ some v → IsTombstone entry v
tombstone_in-IsTombstone entry v h =
    let (current, deleted, state) = chosen-some entry.current entry.deleted v h in
    record { current = current; deleted = deleted; state = state }

chosen_of :
    (deleted : Bool) (v : FileVersion)
    → deleted ≡ true
    → v.state ≡ entry_deleted
    → chosen (some v) deleted ≡ some v
chosen_of deleted v d s = ground (arith, eq_iff v.state entry_deleted)

pub tombstone_in_of :
    (entry : FileEntry) (v : FileVersion) → IsTombstone entry v → tombstone_in entry ≡ some v
tombstone_in_of entry v t =
    ap (λ o. chosen o entry.deleted) t.current ∙ chosen_of entry.deleted v t.deleted t.state

pub is_expired_of_IsDue :
    (now : ℕ) (entry : FileEntry) → IsDue now entry → is_expired now entry ≡ true
is_expired_of_IsDue now entry due =
    ap (outlived now) (tombstone_in_of entry due.v due.tombstone)
    ∙ stamped due.v due.stamped due.over
  where
    stamped :
        (v : FileVersion)
        → 0 < v.deleted_at
        → v.deleted_at + 10 * 24 * 60 * 60 ≤ now
        → outlived now (some v) ≡ true
    stamped v s o = ground arith

IsDue-tombstone :
    (now : ℕ) (entry : FileEntry) (o : Option FileVersion)
    → tombstone_in entry ≡ o
    → outlived now o ≡ true
    → IsDue now entry
IsDue-tombstone now entry none e h = cc
IsDue-tombstone now entry (some v) e h = record {
  v = v;
  tombstone = tombstone_in-IsTombstone entry v e;
  stamped = ground arith;
  over = ground arith;
}

pub IsDue-is_expired : (now : ℕ) (entry : FileEntry) → is_expired now entry ≡ true → IsDue now entry
IsDue-is_expired now entry h = IsDue-tombstone now entry (tombstone_in entry) refl h
