-- ===== src/Client/Apply/Tests.antt =====
-- The theorems about applyVersion at the sample engine.
use xcloud.Prelude.{true, false, none, [], ◌∷◌, ◌≡◌, refl, some, pos, get, ◌==◌, if◌then◌else◌}
use xcloud.Fileutil.Clean.{clean_rel_run, clean_rel}
use xcloud.Result.{ok}
use xcloud.Client.Local.{file}
use xcloud.Client.Apply.{apply_version, has_local_divergence, is_known_version}
use xcloud.Client.Apply.Edits.{IsKept, apply_version_keeps_edit}
use xcloud.Client.Apply.Lost.{dir_tombstone_removes_file}
use xcloud.Client.Samples.{
  sample_engine, sample_remote, sample_device, newer_version, known_file, deleted_dir,
}

clean_sample : clean_rel "a.txt" ≡ ok "a.txt"
unfolding clean_rel_run
clean_sample = refl

edit_there : get "a.txt" sample_device.disk ≡ some (file (65 ∷ []) (pos 9))
unfolding get
edit_there = refl

diverged_sample :
    has_local_divergence sample_engine "a.txt" known_file (some (file (65 ∷ []) (pos 9))) ≡ true
unfolding has_local_divergence
diverged_sample = refl

apply_version_keeps_edit_example :
    IsKept sample_remote sample_engine "a.txt"
      (65 ∷ [])
      (pos 9)
      (apply_version sample_remote sample_engine newer_version sample_device).1.disk
unfolding get
apply_version_keeps_edit_example =
    apply_version_keeps_edit sample_remote sample_engine newer_version "a.txt" (65 ∷ []) (pos 9)
      sample_device clean_sample edit_there diverged_sample refl refl

clean_b : clean_rel "b" ≡ ok "b"
unfolding clean_rel_run
clean_b = refl

file_at_b : get "b" sample_device.disk ≡ some (file (66 ∷ []) (pos 9))
unfolding get
file_at_b = refl

deleted_dir_is_new :
    is_known_version (get "b" sample_device.memory.files) deleted_dir.version_id ≡ false
unfolding get
deleted_dir_is_new = refl

dir_tombstone_removes_file_example :
    get "a.txt" (apply_version sample_remote sample_engine deleted_dir sample_device).1.disk
    ≡ (if "b" == "a.txt" then none else get "a.txt" sample_device.disk)
dir_tombstone_removes_file_example =
    dir_tombstone_removes_file sample_remote sample_engine deleted_dir "b" (66 ∷ []) (pos 9)
      sample_device clean_b file_at_b refl refl deleted_dir_is_new refl "a.txt"
