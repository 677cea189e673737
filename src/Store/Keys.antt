-- ===== src/Store/Keys.antt =====
-- internal/server/store.go: the keys of the store's maps.
pub mod Injective
mod Tests
use Prim.Native.Char.{nul}
use xcloud.Prelude.{String, ◌<>◌, trim_space}

-- a + "\x00" + b
unfoldable pub join_nul : String → String → String
unfolding ◌<>◌
join_nul a b = a <> String.◌∷◌ nul b

unfoldable pub file_key : String → String → String → String
unfolding join_nul
file_key account_id space_id path = join_nul account_id (join_nul space_id path)

unfoldable pub operation_key : String → String → String → String
unfolding join_nul
operation_key account_id space_id operation_id =
    join_nul account_id (join_nul space_id operation_id)

unfoldable pub account_chunk_key : String → String → String
unfolding join_nul
account_chunk_key account_id hash = join_nul account_id hash

unfoldable pub device_key : String → String → String
unfolding join_nul trim_space
device_key account_id device_id = join_nul account_id (trim_space device_id)

unfoldable pub space_key : String → String → String
unfolding join_nul
space_key account_id space_id = join_nul account_id space_id

unfoldable pub folder_key : String → String → String → String
unfolding join_nul trim_space
folder_key account_id device_id root_path =
    join_nul account_id (join_nul (trim_space device_id) (trim_space root_path))
