-- ===== src/Client/Local/Keeps.antt =====
-- What holds of an engine's disk through its actions, one rule for each way to build an action.
use xcloud.Prelude.{
  String, ◌≡◌, refl, inl, inr, ◌⊎◌, Bool, true, false, if◌then◌else◌, Dict, Bool-cases,
}
use xcloud.Model.{LocalFileState}
use xcloud.Result.{Result, ok, err, Error}
use xcloud.Client.Local.{
  Node, Remote, Engine, Device, Act, pure, raise, resume, check_context, call, report_record, ◌>>=◌,
}
use xcloud.Client.Memory.{save, set}
use xcloud.Client.Disk.{DiskStep}
use xcloud.Client.Apply.{failed, on_disk, or_report, report_success}

-- From a disk with `P` the action, failing or not, ends with a disk with `P`.
pub record KeepsDisk {S A : Type 0} (P : Dict Node → Type 0) (m : Act S A) : Type 0 where
  pub step : (d : Device S) → P d.disk → P (m d).1.disk

-- From a disk with `Q` the action ends with a disk with `P` where it returns, and with a disk with
-- one of the two where it fails.
abbrev pub Reached :
    {S A : Type 0} → (Dict Node → Type 0) → (Dict Node → Type 0) → Result A × Device S → Type 0
Reached P Q (ok a, d) = P d.disk
Reached P Q (err e, d) = P d.disk ⊎ Q d.disk

pub record Moves {S A : Type 0} (P Q : Dict Node → Type 0) (m : Act S A) : Type 0 where
  pub step : (d : Device S) → Q d.disk → Reached P Q (m d)

set-disk :
    {S : Type 0} (e : Engine) (path : String) (v : LocalFileState) (d : Device S)
    → (set e path v d).1.disk ≡ d.disk
unfolding set save
set-disk e path v d = elim (Bool-cases (e.state_writable d.saves)) [
  | inl h ↦ rw h refl
  | inr h ↦ rw h refl
]

module _ {S : Type 0} {P : Dict Node → Type 0} where
  pub KeepsDisk-pure : {A : Type 0} (a : A) → KeepsDisk P (pure {S = S} a)
  KeepsDisk-pure a = record { step = λ d h. h }

  pub KeepsDisk-raise : {A : Type 0} (e : Error) → KeepsDisk P (raise {S = S} {A = A} e)
  KeepsDisk-raise e = record { step = λ d h. h }

  pub KeepsDisk-check_context : (e : Engine) → KeepsDisk P (check_context {S = S} e)
  KeepsDisk-check_context e = record { step = λ d h. h }

  pub KeepsDisk-call : {A : Type 0} (f : S → Result A × S) → KeepsDisk P (call f)
  KeepsDisk-call f = record { step = λ d h. h }

  pub KeepsDisk-if :
      {A : Type 0} (b : Bool) (m n : Act S A)
      → KeepsDisk P m
      → KeepsDisk P n
      → KeepsDisk P (if b then m else n)
  KeepsDisk-if true m n km kn = km
  KeepsDisk-if false m n km kn = kn

  resume-step :
      {A B : Type 0} (r : Result A) (f : A → Act S B) (d : Device S)
      → ((a : A) → KeepsDisk P (f a))
      → P d.disk
      → P (resume r f d).1.disk
  resume-step (ok a) f d kf h = (kf a).step d h
  resume-step (err e) f d kf h = h

  pub KeepsDisk-bind :
      {A B : Type 0} (m : Act S A) (f : A → Act S B)
      → KeepsDisk P m
      → ((a : A) → KeepsDisk P (f a))
      → KeepsDisk P (m >>= f)
  KeepsDisk-bind m f km kf = record { step = λ d h. resume-step (m d).0 f (m d).1 kf (km.step d h) }

  pub KeepsDisk-on_disk :
      (step : DiskStep)
      → ((disk : Dict Node) → P disk → P (step disk).1)
      → KeepsDisk P (on_disk {S = S} step)
  KeepsDisk-on_disk step k = record { step = λ d h. k d.disk h }

  pub KeepsDisk-set :
      (e : Engine) (path : String) (v : LocalFileState) → KeepsDisk P (set {S = S} e path v)
  KeepsDisk-set e path v = record { step = λ d h. rw (set-disk e path v d) h }

failed-disk :
    {A : Type 0} (R : Remote) (e : Engine) (action path : String) (r : Result A)
    (d : Device R.State)
    → (failed R e action path (r, d)).1.disk ≡ d.disk
unfolding report_record
failed-disk R e action path (ok a) d = refl
failed-disk R e action path (err x) d = refl

or_report-disk :
    {A : Type 0} (R : Remote) (e : Engine) (action path : String) (m : Act R.State A)
    (d : Device R.State)
    → (or_report R e action path m d).1.disk ≡ (m d).1.disk
or_report-disk R e action path m d = failed-disk R e action path (m d).0 (m d).1

module _ (R : Remote) (e : Engine) {P : Dict Node → Type 0} where
  pub KeepsDisk-report_success :
      (action path : String) → KeepsDisk P (report_success R e action path)
  KeepsDisk-report_success action path = record { step = unfold report_record in λ d h. h }

  pub KeepsDisk-or_report :
      {A : Type 0} (action path : String) (m : Act R.State A)
      → KeepsDisk P m
      → KeepsDisk P (or_report R e action path m)
  KeepsDisk-or_report action path m km = record {
    step = λ d h. rw (or_report-disk R e action path m d) (km.step d h);
  }

module _ {S : Type 0} where
  -- A kept disk is a reached one.
  kept :
      {A : Type 0} (P Q : Dict Node → Type 0) (r : Result A) (d : Device S)
      → P d.disk
      → Reached P Q (r, d)
  kept P Q (ok a) d h = h
  kept P Q (err e) d h = inl h

  moved :
      {A B : Type 0} (P Q : Dict Node → Type 0) (r : Result A) (f : A → Act S B) (d : Device S)
      → Reached P Q (r, d)
      → ((a : A) → KeepsDisk P (f a))
      → Reached P Q (resume r f d)
  moved P Q (ok a) f d h kf = kept P Q (f a d).0 (f a d).1 ((kf a).step d h)
  moved P Q (err e) f d h kf = h

  pub Moves-then :
      {A B : Type 0} {P Q : Dict Node → Type 0} (m : Act S A) (f : A → Act S B)
      → Moves P Q m
      → ((a : A) → KeepsDisk P (f a))
      → Moves P Q (m >>= f)
  Moves-then {P} {Q} m f mm kf = record {
    step = λ d h. moved P Q (m d).0 f (m d).1 (mm.step d h) kf;
  }

  Moves-after' :
      {A B : Type 0} (P Q : Dict Node → Type 0) (r : Result A) (f : A → Act S B) (d : Device S)
      → Q d.disk
      → ((a : A) → Moves P Q (f a))
      → Reached P Q (resume r f d)
  Moves-after' P Q (ok a) f d h mf = (mf a).step d h
  Moves-after' P Q (err e) f d h mf = inr h

  pub Moves-after :
      {A B : Type 0} {P Q : Dict Node → Type 0} (m : Act S A) (f : A → Act S B)
      → KeepsDisk Q m
      → ((a : A) → Moves P Q (f a))
      → Moves P Q (m >>= f)
  Moves-after {P} {Q} m f km mf = record {
    step = λ d h. Moves-after' P Q (m d).0 f (m d).1 (km.step d h) mf;
  }

module _ (R : Remote) (e : Engine) (P Q : Dict Node → Type 0) where
  failed-Reached :
      {A : Type 0} (action path : String) (r : Result A) (d : Device R.State)
      → Reached P Q (r, d)
      → Reached P Q (failed R e action path (r, d))
  unfolding report_record
  failed-Reached action path (ok a) d h = h
  failed-Reached action path (err x) d h = h

  pub Moves-or_report :
      {A : Type 0} (action path : String) (m : Act R.State A)
      → Moves P Q m
      → Moves P Q (or_report R e action path m)
  Moves-or_report action path m mm = record {
    step = λ d h. failed-Reached action path (m d).0 (m d).1 (mm.step d h);
  }

pub ruleset keeps_disk_rules = (
  KeepsDisk-pure, KeepsDisk-raise, KeepsDisk-check_context, KeepsDisk-call, KeepsDisk-if,
  KeepsDisk-bind, KeepsDisk-set, KeepsDisk-report_success, KeepsDisk-or_report,
)
