-- ===== src/Recording/DiskGuard.antt =====
-- src/adapters/storage/filesystem/filesystem-disk-guard.cpp: whether the disk has room for a
-- recording. What exists and how much is free is what the file system says.
pub mod Ancestor
use strixcam.Prelude.{
  ℕ, zero, suc, Bool, true, false, not, Option, none, some, List, [], leb, length, if◌then◌else◌,
  ◌==◌,
}
use strixcam.Prelude.Bytes.{bytes_keys}
use strixcam.Session.Paths.{FilePath, is_empty, parent_path}

-- The loop of `ResolveExistingPath`; `none` is a loop that is still running when the fuel is used
-- up. An empty path is one that was not found.
unfoldable pub resolving : (FilePath → Bool) → ℕ → FilePath → Option FilePath
resolving exists zero path = none
resolving exists (suc fuel) path =
    let parent = parent_path path in
    let further = resolving exists fuel parent in
    if is_empty path
    then some []
    else if exists path
    then some path
    else if parent == path
    then some []
    else further

unfoldable pub resolve_existing_path : (FilePath → Bool) → FilePath → Option FilePath
unfolding resolving
resolve_existing_path exists root = resolving exists (suc (length root)) root

abbrev or_zero : Option ℕ → ℕ
or_zero none = 0
or_zero (some n) = n

abbrev free_at : (FilePath → Option ℕ) → Option FilePath → ℕ
free_at space none = 0
free_at space (some path) = if is_empty path then 0 else or_zero (space path)

-- `space` is `none` where the file system has an error.
unfoldable pub free_bytes : (FilePath → Bool) → (FilePath → Option ℕ) → FilePath → ℕ
unfolding resolve_existing_path
free_bytes exists space root = free_at space (resolve_existing_path exists root)

unfoldable pub has_enough_free_space :
    (FilePath → Bool) → (FilePath → Option ℕ) → FilePath → Option ℕ → Bool
unfolding free_bytes
has_enough_free_space exists space root none = true
has_enough_free_space exists space root (some min_free_bytes) =
    leb min_free_bytes (free_bytes exists space root)
