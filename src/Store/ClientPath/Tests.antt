-- ===== src/Store/ClientPath/Tests.antt =====
-- Paths of clients.
use xcloud.Prelude.{◌≡◌, refl, true, false, replace_char}
use xcloud.Store.ClientPath.{
  is_client_absolute_path, clean_client_path, squeeze, squeeze_loop, replace_pairs, has_pair,
  char_count,
}
use xcloud.Store.ClientPath.Squeezed.{one_of_each, squeeze_exact}

drive : is_client_absolute_path "C:\\x" ≡ true
unfolding is_client_absolute_path
drive = refl

no_drive : is_client_absolute_path "C:x" ≡ false
unfolding is_client_absolute_path
no_drive = refl

cleaned : clean_client_path " C://x\\\\\\y " ≡ "C:\\x\\y"
unfolding clean_client_path squeeze squeeze_loop char_count replace_pairs has_pair replace_char
cleaned = refl

share : clean_client_path "\\\\\\pc/x" ≡ "\\\\pc\\x"
unfolding clean_client_path squeeze squeeze_loop char_count replace_pairs has_pair replace_char
share = refl

squeeze_exact_example :
    (squeeze "a\\\\\\b" ≡ one_of_each false "a\\\\\\b")
    × (has_pair false (squeeze "a\\\\\\b") ≡ false)
squeeze_exact_example = squeeze_exact "a\\\\\\b"
