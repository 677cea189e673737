-- ===== src/Client/Disk/Laws.antt =====
-- What the disk's steps leave at other paths, and at the path of a file.
use xcloud.Prelude.{
  ℕ, String, ◌≡◌, refl, sym, ap, ◌∙◌, inl, inr, false, List, [], ◌∷◌, Option, none, some, ◌==◌, ℤ,
  pos, Dict, get, put, get-put, eq_iff, Bool-cases,
}
use xcloud.Result.{Result, ok, err}
use xcloud.Client.Local.{Node, file, dir, special, Engine}
use xcloud.Client.Disk.{
  DiskStep, make_dir, longer_path, and_then, in_turn, make_dirs, mkdir_all, ensure_parent, replace,
  replace_node, touched, set_time,
}

get-put_other :
    (k j : String) (n : Node) (disk : Dict Node)
    → (k == j) ≡ false
    → get j (put k n disk) ≡ get j disk
get-put_other k j n disk h = get-put k j n disk ∙ rw h refl

-- A path that holds something is left by making directories.
module _ (e : Engine) (k : String) (n : Node) where
  get-make_dir :
      (path : String) (disk : Dict Node)
      → get k disk ≡ some n
      → get k (make_dir e path (get path disk) disk).1 ≡ some n
  get-make_dir path disk h = by_node (get path disk) refl
    where
      unchanged : get path disk ≡ none → get k (put path dir disk) ≡ some n
      unchanged gone = elim (Bool-cases (path == k)) [
        | inl s ↦
            let clash : ◌≡◌ {A = Option Node} none (some n) =
              sym gone ∙ ap (λ p. get p disk) ((eq_iff path k).0 s) ∙ h in
            cc
        | inr s ↦ get-put_other path k dir disk s ∙ h
      ]

      by_node : (o : Option Node) → get path disk ≡ o → get k (make_dir e path o disk).1 ≡ some n
      by_node none gone = elim (Bool-cases (e.may_change path)) [
        | inl m ↦ rw m (unchanged gone)
        | inr m ↦ rw m h
      ]
      by_node (some dir) there = h
      by_node (some (file bytes time)) there = h
      by_node (some special) there = h

  get-in_turn :
      (first next : DiskStep) (disk : Dict Node)
      → get k disk ≡ some n
      → ((d : Dict Node) → get k d ≡ some n → get k (first d).1 ≡ some n)
      → ((d : Dict Node) → get k d ≡ some n → get k (next d).1 ≡ some n)
      → get k (in_turn first next disk).1 ≡ some n
  get-in_turn first next disk h f g = go (first disk).0 (first disk).1 (f disk h)
    where
      go :
          (r : Result (Unit {0})) (d : Dict Node)
          → get k d ≡ some n
          → get k (and_then r next d).1 ≡ some n
      go (ok done) d p = g d p
      go (err x) d p = p

  get-make_dirs :
      (path : String) (segments : List String) (disk : Dict Node)
      → get k disk ≡ some n
      → get k (make_dirs e path segments disk).1 ≡ some n
  unfolding make_dirs
  get-make_dirs path [] disk h = h
  get-make_dirs path (segment ∷ segments) disk h =
      get-in_turn (λ d. make_dir e (longer_path path segment) (get (longer_path path segment) d) d)
        (make_dirs e (longer_path path segment) segments) disk h
        (λ d p. get-make_dir (longer_path path segment) d p)
        (λ d p. get-make_dirs (longer_path path segment) segments d p)

  pub get-ensure_parent :
      (path : String) (disk : Dict Node)
      → get k disk ≡ some n
      → get k (ensure_parent e path disk).1 ≡ some n
  unfolding ensure_parent
  get-ensure_parent path disk h = get-make_dirs "" _ disk h

  pub get-mkdir_all :
      (path : String) (disk : Dict Node)
      → get k disk ≡ some n
      → get k (mkdir_all e path disk).1 ≡ some n
  unfolding mkdir_all
  get-mkdir_all path disk h = get-make_dirs "" _ disk h

  pub get-replace :
      (path : String) (bytes : List ℕ) (disk : Dict Node)
      → (path == k) ≡ false
      → get k disk ≡ some n
      → get k (replace e path bytes disk).1 ≡ some n
  unfolding replace
  get-replace path bytes disk other h = elim (Bool-cases (e.may_change path)) [
    | inl m ↦ rw m (by_node (get path disk))
    | inr m ↦ rw m h
  ]
    where
      by_node :
          (o : Option Node) → get k (replace_node path (file bytes (pos e.now)) o disk).1 ≡ some n
      by_node (some dir) = h
      by_node none = get-put_other path k _ disk other ∙ h
      by_node (some special) = get-put_other path k _ disk other ∙ h
      by_node (some (file old t)) = get-put_other path k _ disk other ∙ h

  pub get-set_time :
      (path : String) (time : ℤ) (disk : Dict Node)
      → (path == k) ≡ false
      → get k disk ≡ some n
      → get k (set_time e path time disk) ≡ some n
  unfolding set_time
  get-set_time path time disk other h = elim (Bool-cases (e.may_change path)) [
    | inl m ↦ rw m (by_node (get path disk))
    | inr m ↦ rw m h
  ]
    where
      by_node : (o : Option Node) → get k (touched path time disk o) ≡ some n
      by_node (some dir) = h
      by_node none = h
      by_node (some special) = h
      by_node (some (file old t)) = get-put_other path k _ disk other ∙ h
