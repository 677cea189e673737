-- ===== src/Store/Spaces/Tests.antt =====
-- Spaces that are made and switched off.
use xcloud.Prelude.{String, ◌≡◌, refl, false, Option, some, get, trim_space, contains_char}
use xcloud.Model.{SyncSpace}
use xcloud.Result.{ok, err, space_not_found}
use xcloud.Fileutil.{clean_rel_run}
use xcloud.Store.World.{Exec, save, save_control}
use xcloud.Store.Keys.{space_key}
use xcloud.Store.Spaces.{is_taken, free_id, write_space, create_space, activate, set_space_active}
use xcloud.Store.Samples.{sample_env, empty_state, world_of}

create_run : String → Exec (Option SyncSpace)
unfolding create_space write_space free_id is_taken space_key get save save_control trim_space
    contains_char clean_rel_run
create_run name = create_space sample_env 9 "u" 3 name ""

-- The name is the id where it is free.
by_name :
    (space : SyncSpace) × ((create_run " music " (world_of empty_state)).0 ≡ ok (some space))
    × (space.id ≡ "music")
unfolding create_run
by_name = (_, refl, refl)

-- The id `s` is taken.
by_id :
    (space : SyncSpace) × ((create_run "s" (world_of empty_state)).0 ≡ ok (some space))
    × (space.id ≡ "i")
unfolding create_run
by_id = (_, refl, refl)

switch_run : String → Exec (Unit {0})
unfolding set_space_active activate space_key get save save_control
switch_run space_id = set_space_active sample_env 9 "u" space_id false

nowhere : (switch_run "t" (world_of empty_state)).0 ≡ err space_not_found
unfolding switch_run
nowhere = refl
