-- ===== src/Store/World/Keeps.antt =====
-- Invariants of the store's state under actions, one rule for each way to build an action.
use xcloud.Prelude.{◌≡◌, refl, inl, inr, Bool-cases, Bool, true, false, if◌then◌else◌, arith}
use xcloud.Model.{ServerState}
use xcloud.Result.{Result, ok, err, Error, ok_inj, metadata_not_written, control_not_written}
use xcloud.Store.World.{
  Env, World, Exec, pure, raise, lift, resume, refuse_if, get_state, modify, new_id, save,
  save_control, ◌>>=◌, ◌>>◌,
}

-- Saving writes to disk only.
pub state-save : (env : Env) (w : World) → (save env w).1.state ≡ w.state
unfolding save save_control
state-save env w = ground arith

-- A result that comes after a save is returned only if both files were written.
pub save_then :
    {A : Type 0} (env : Env) (a b : A) (w : World)
    → ((save env >> pure a) w).0 ≡ ok b
    → (a ≡ b) × (((save env >> pure a) w).1 ≡ record w { metadata = w.state; control = w.state })
unfolding save save_control
save_then {A} env a b w h = elim (Bool-cases (env.metadata_writable w.state)) [
  | inr e ↦ let no_file : ◌≡◌ {A = Result A} (err metadata_not_written) (ok b) = rw e at h in cc
  | inl e ↦ elim (Bool-cases (env.control_writable w.state)) [
    | inl f ↦ rw (e, f) (ok_inj (rw (e, f) at h), refl)
    | inr f ↦
        let no_file : ◌≡◌ {A = Result A} (err control_not_written) (ok b) = rw (e, f) at h in cc
  ]
]

-- From a state with `P` the action, failing or not, ends in a state with `P`.
pub record Keeps {A : Type 0} (P : ServerState → Type 0) (m : Exec A) : Type 0 where
  pub step : (w : World) → P w.state → P (m w).1.state

module _ {P : ServerState → Type 0} where
  pub Keeps-pure : {A : Type 0} (a : A) → Keeps P (pure a)
  Keeps-pure a = record { step = λ w h. h }

  pub Keeps-raise : {A : Type 0} (e : Error) → Keeps P (raise {A = A} e)
  Keeps-raise e = record { step = λ w h. h }

  pub Keeps-lift : {A : Type 0} (r : Result A) → Keeps P (lift r)
  Keeps-lift r = record { step = λ w h. h }

  pub Keeps-refuse_if : (b : Bool) (e : Error) → Keeps P (refuse_if b e)
  Keeps-refuse_if true e = record { step = λ w h. h }
  Keeps-refuse_if false e = record { step = λ w h. h }

  pub Keeps-get_state : Keeps P get_state
  Keeps-get_state = record { step = λ w h. h }

  pub Keeps-new_id : (env : Env) → Keeps P (new_id env)
  Keeps-new_id env = record { step = λ w h. h }

  pub Keeps-modify :
      (f : ServerState → ServerState) → ((s : ServerState) → P s → P (f s)) → Keeps P (modify f)
  Keeps-modify f k = record { step = λ w h. k w.state h }

  pub Keeps-if :
      {A : Type 0} (b : Bool) (m n : Exec A) → Keeps P m → Keeps P n → Keeps P (if b then m else n)
  Keeps-if true m n km kn = km
  Keeps-if false m n km kn = kn

  resume-step :
      {A B : Type 0} (r : Result A) (f : A → Exec B) (w : World)
      → ((a : A) → Keeps P (f a))
      → P w.state
      → P (resume r f w).1.state
  resume-step (ok a) f w kf h = (kf a).step w h
  resume-step (err e) f w kf h = h

  pub Keeps-bind :
      {A B : Type 0} (m : Exec A) (f : A → Exec B)
      → Keeps P m
      → ((a : A) → Keeps P (f a))
      → Keeps P (m >>= f)
  Keeps-bind m f km kf = record { step = λ w h. resume-step (m w).0 f (m w).1 kf (km.step w h) }

  pub Keeps-save : (env : Env) → Keeps P (save env)
  Keeps-save env = record { step = λ w h. rw (state-save env w) h }

pub ruleset keeps_rules = (
  Keeps-pure, Keeps-raise, Keeps-lift, Keeps-refuse_if, Keeps-get_state, Keeps-new_id, Keeps-save,
  Keeps-if, Keeps-bind,
)
