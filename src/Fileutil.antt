-- ===== src/Fileutil.antt =====
-- internal/fileutil/fileutil.go: the paths that a client may name. `path/filepath` is modelled as it
-- is on Unix, where the separator is the slash and IsAbs asks for a slash in front.
pub mod Clean
pub mod Safe
pub mod Chunked
mod Tests
unfoldable pub use Clean.{clean, dir, clean_rel_run, is_safe_segment, normalize, clean_rel}
