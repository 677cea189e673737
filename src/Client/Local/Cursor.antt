-- ===== src/Client/Local/Cursor.antt =====
-- The engine's actions that leave its event cursor, one rule for each way to build an action.
use xcloud.Prelude.{
  ℕ, String, ◌≡◌, refl, ◌∙◌, inl, inr, Bool, true, false, if◌then◌else◌, Bool-cases,
}
use xcloud.Model.{LocalFileState}
use xcloud.Result.{Result, ok, err, Error}
use xcloud.Client.Local.{
  Remote, Engine, Device, Act, pure, raise, resume, check_context, call, report_record, ◌>>=◌,
}
use xcloud.Client.Memory.{save, set}
use xcloud.Client.Disk.{DiskStep}
use xcloud.Client.Apply.{failed, on_disk, or_report, report_success}

abbrev pub cursor : {S : Type 0} → Device S → ℕ
cursor d = d.memory.last_event_seq

-- The action, failing or not, leaves the cursor.
pub record KeepsCursor {S A : Type 0} (m : Act S A) : Type 0 where
  pub same : (d : Device S) → cursor (m d).1 ≡ cursor d

module _ {S : Type 0} where
  pub KeepsCursor-pure : {A : Type 0} (a : A) → KeepsCursor (pure {S = S} a)
  KeepsCursor-pure a = record { same = λ d. refl }

  pub KeepsCursor-raise : {A : Type 0} (e : Error) → KeepsCursor (raise {S = S} {A = A} e)
  KeepsCursor-raise e = record { same = λ d. refl }

  pub KeepsCursor-check_context : (e : Engine) → KeepsCursor (check_context {S = S} e)
  KeepsCursor-check_context e = record { same = λ d. refl }

  pub KeepsCursor-call : {A : Type 0} (f : S → Result A × S) → KeepsCursor (call f)
  KeepsCursor-call f = record { same = λ d. refl }

  pub KeepsCursor-if :
      {A : Type 0} (b : Bool) (m n : Act S A)
      → KeepsCursor m
      → KeepsCursor n
      → KeepsCursor (if b then m else n)
  KeepsCursor-if true m n km kn = km
  KeepsCursor-if false m n km kn = kn

  resume-same :
      {A B : Type 0} (r : Result A) (f : A → Act S B) (d : Device S)
      → ((a : A) → KeepsCursor (f a))
      → cursor (resume r f d).1 ≡ cursor d
  resume-same (ok a) f d kf = (kf a).same d
  resume-same (err e) f d kf = refl

  pub KeepsCursor-bind :
      {A B : Type 0} (m : Act S A) (f : A → Act S B)
      → KeepsCursor m
      → ((a : A) → KeepsCursor (f a))
      → KeepsCursor (m >>= f)
  KeepsCursor-bind m f km kf = record { same = λ d. resume-same (m d).0 f (m d).1 kf ∙ km.same d }

  pub KeepsCursor-on_disk : (step : DiskStep) → KeepsCursor (on_disk {S = S} step)
  KeepsCursor-on_disk step = record { same = λ d. refl }

  pub KeepsCursor-set :
      (e : Engine) (path : String) (v : LocalFileState) → KeepsCursor (set {S = S} e path v)
  KeepsCursor-set e path v = record {
    same =
        unfold set save in
        λ d. elim (Bool-cases (e.state_writable d.saves)) [ inl h ↦ rw h refl | inr h ↦ rw h refl ];
  }

module _ (R : Remote) (e : Engine) where
  failed-same :
      {A : Type 0} (action path : String) (r : Result A) (d : Device R.State)
      → cursor (failed R e action path (r, d)).1 ≡ cursor d
  unfolding report_record
  failed-same action path (ok a) d = refl
  failed-same action path (err x) d = refl

  pub KeepsCursor-report_success :
      (action path : String) → KeepsCursor (report_success R e action path)
  KeepsCursor-report_success action path = record { same = unfold report_record in λ d. refl }

  pub KeepsCursor-or_report :
      {A : Type 0} (action path : String) (m : Act R.State A)
      → KeepsCursor m
      → KeepsCursor (or_report R e action path m)
  KeepsCursor-or_report action path m km = record {
    same = λ d. failed-same action path (m d).0 (m d).1 ∙ km.same d;
  }

pub ruleset keeps_cursor_rules = (
  KeepsCursor-pure, KeepsCursor-raise, KeepsCursor-check_context, KeepsCursor-call, KeepsCursor-if,
  KeepsCursor-bind, KeepsCursor-on_disk, KeepsCursor-set, KeepsCursor-report_success,
  KeepsCursor-or_report,
)
