-- ===== src/Fileutil/Tests.antt =====
-- Runs of CleanRel, and its theorems at concrete paths.
use xcloud.Prelude.{◌≡◌, refl, true, split, all}
use xcloud.Result.{ok, err, unsafe_segment}
use xcloud.Fileutil.Clean.{clean, clean_rel, clean_rel_run, is_safe_segment}
use xcloud.Fileutil.Safe.{clean_rel_exact, clean_rel_idem}

clean_test : clean "/a/../../b//./c/.." ≡ "/b"
unfolding clean_rel_run
clean_test = refl

clean_rel_slashes : clean_rel "a\\b/c.txt" ≡ ok "a/b/c.txt"
unfolding clean_rel_run
clean_rel_slashes = refl

clean_rel_exact_example : clean_rel "a\\..\\b" ≡ err unsafe_segment
unfolding clean_rel_run
clean_rel_exact_example = clean_rel_exact "a\\..\\b"

clean_rel_idem_example :
    (clean_rel "a/b/c.txt" ≡ ok "a/b/c.txt") × (all is_safe_segment (split 47 "a/b/c.txt") ≡ true)
clean_rel_idem_example = clean_rel_idem "a\\b/c.txt" "a/b/c.txt" clean_rel_slashes
