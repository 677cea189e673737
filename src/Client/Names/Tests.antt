-- ===== src/Client/Names/Tests.antt =====
-- Runs of safeStateName and activeSpaceIDs.
use xcloud.Prelude.{[], ◌∷◌, ◌≡◌, refl, false}
use xcloud.Store.Samples.{sample_space}
use xcloud.Client.Names.{safe_state_name, active_space_ids}

safe_state_name_test : safe_state_name "my space" ≡ "my-space"
unfolding safe_state_name
safe_state_name_test = refl

-- A name without a letter or a digit of ASCII becomes that of the space `default`.
safe_state_name_meets : safe_state_name "项目" ≡ safe_state_name "default"
unfolding safe_state_name
safe_state_name_meets = refl

active_space_ids_test :
    active_space_ids
      (sample_space
        ∷ record sample_space { id = "default" }
        ∷ record sample_space { id = "a"; active = false }
        ∷ sample_space
        ∷ [])
      "x"
    ≡ "default" ∷ "s" ∷ []
unfolding active_space_ids
active_space_ids_test = refl
