-- ===== src/Store/Keys/Tests.antt =====
-- Keys of the sample store, and the theorems about keys at them.
use xcloud.Prelude.{String, ◌≡◌, refl, contains_char}
use xcloud.Store.Keys.{join_nul, file_key}
use xcloud.Store.Keys.Injective.{file_key_inj, file_key_meets}

file_key_sample : file_key "u" "s" "a.txt" ≡ "u\0s\0a.txt"
unfolding file_key
file_key_sample = refl

file_key_inj_example :
    ◌≡◌ {A = String} "u" "u" × ◌≡◌ {A = String} "s" "s" × ◌≡◌ {A = String} "p" "p"
unfolding contains_char
file_key_inj_example = file_key_inj "u" "u" "s" "s" "p" "p" refl refl refl refl refl

file_key_meets_example :
    file_key "u" (join_nul "s" "t") "a.txt" ≡ file_key "u" "s" (join_nul "t" "a.txt")
file_key_meets_example = file_key_meets "u" "s" "t" "a.txt"
