-- ===== src/Store/Trash/Prune.antt =====
-- internal/server/store.go: what pruneTrashLocked removes.
use xcloud.Prelude.{
  ℕ, String, ◌≡◌, refl, sym, ap, ◌∙◌, inl, inr, true, false, [], ◌∷◌, Option, none, some, ◌==◌,
  keep, any, get, Dict, Distinct, found_if, get-keep, Bool-cases, eq_iff, eq_refl, subst,
}
use xcloud.Model.{FileEntry, ServerState}
use xcloud.Store.Trash.{is_expired, stays, prune_trash, prunes}
use xcloud.Store.Trash.Tombstone.{IsDue, IsDue-is_expired, is_expired_of_IsDue}

-- What may stand under a key afterwards: nothing in place of nothing, the entry that stood there
-- where it is not due, and nothing in place of one that is.
pub data IsPruned (now : ℕ) : Option FileEntry → Option FileEntry → Type 0 where
  absent : IsPruned now none none
  kept : (entry : FileEntry) → ¬ IsDue now entry → IsPruned now (some entry) (some entry)
  removed : (entry : FileEntry) → IsDue now entry → IsPruned now (some entry) none

not-IsDue : (now : ℕ) (entry : FileEntry) → is_expired now entry ≡ false → ¬ IsDue now entry
not-IsDue now entry e due =
    let wrong : true ≡ false = sym (is_expired_of_IsDue now entry due) ∙ e in cc

found_if-IsPruned :
    (now : ℕ) (key : String) (o : Option FileEntry) → IsPruned now o (found_if (stays now) key o)
found_if-IsPruned now key none = absent
found_if-IsPruned now key (some entry) = elim (Bool-cases (is_expired now entry)) [
  | inl e ↦ rw e (removed entry (IsDue-is_expired now entry e))
  | inr e ↦ rw e (kept entry (not-IsDue now entry e))
]

keep_all :
    (now : ℕ) (files : Dict FileEntry)
    → any (λ (key, entry). is_expired now entry) files ≡ false
    → keep (stays now) files ≡ files
unfolding any keep
keep_all now [] h = refl
keep_all now ((key, entry) ∷ files) h = elim (Bool-cases (is_expired now entry)) [
  | inl e ↦ let absurd : true ≡ false = rw e at h in cc
  | inr e ↦ rw (e, keep_all now files (rw e at h))
]

-- An entry that is due, with its key.
abbrev pub SomeDue : ℕ → Dict FileEntry → Type 0
SomeDue now files =
    (key : String) × (entry : FileEntry) × (get key files ≡ some entry) × IsDue now entry

get-behind :
    (key j : String) (entry found : FileEntry) (files : Dict FileEntry)
    → get key files ≡ none
    → get j files ≡ some found
    → get j ((key, entry) ∷ files) ≡ some found
unfolding get
get-behind key j entry found files free there = elim (Bool-cases (key == j)) [
  | inl e ↦
      let gone : ◌≡◌ {A = Option FileEntry} none (some found) =
        sym free ∙ ap (λ k. get k files) ((eq_iff key j).0 e) ∙ there in
      cc
  | inr e ↦ rw e there
]

get-first :
    (key : String) (entry : FileEntry) (files : Dict FileEntry)
    → get key ((key, entry) ∷ files) ≡ some entry
unfolding get
get-first key entry files = rw (eq_refl key) refl

any-SomeDue :
    (now : ℕ) (files : Dict FileEntry)
    → Distinct files
    → any (λ (key, entry). is_expired now entry) files ≡ true
    → SomeDue now files
unfolding any
any-SomeDue now [] d h = cc
any-SomeDue now ((key, entry) ∷ files) d h = elim (Bool-cases (is_expired now entry)) [
  | inl e ↦ (key, entry, get-first key entry files, IsDue-is_expired now entry e)
  | inr e ↦
      let (j, found, there, due) = any-SomeDue now files d.1 (rw e at h) in
      (j, found, get-behind key j entry found files d.0 there, due)
]

-- Pruning removes under every key the entry whose tombstone has a time, not zero, that is ten days
-- ago or longer, and keeps every other entry as it is. It reports a change only where an entry was due, and where it reports
-- none the whole state is as before. This holds where no key stands twice, as in a map.
pub prune_trash_exact :
    (now : ℕ) (s : ServerState)
    → Distinct s.files
    → ((key : String) → IsPruned now (get key s.files) (get key (prune_trash now s).files))
      × (prunes now s ≡ true → SomeDue now s.files)
      × (prunes now s ≡ false → prune_trash now s ≡ s)
unfolding prune_trash prunes
prune_trash_exact now s d = (
  λ key.
      subst (IsPruned now (get key s.files)) (sym (get-keep (stays now) key s.files d))
        (found_if-IsPruned now key (get key s.files)),
  any-SomeDue now s.files d,
  λ h. ap (λ files. record s { files = files }) (keep_all now s.files h),
)
