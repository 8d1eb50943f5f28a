-- ===== src/FileSystem.antt =====
-- What the program reads of the file system, at one moment: the calls of `std::fs` and
-- `std::path::Path` that take a path.
use sysd.Prelude.{ℕ, Bool, String, Option, List}

pub record FileSystem : Type 0 where
  pub exists : String → Bool
  pub is_dir : String → Bool
  pub read_to_string : String → Option String
  -- the names of the entries, those that cannot be read being `none`
  pub read_dir : String → Option (List (Option String))
  -- the time of the last change of the contents, in nanoseconds
  pub modified : String → Option ℕ
