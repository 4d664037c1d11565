-- ===== src/Session/Paths.antt =====
-- `SessionManager::PrepareOutputDirs` of
-- src/app/session/services/session_manager/session-manager.cpp. A path is the list of its bytes;
-- `parent_path` is that of `std::filesystem` on POSIX.
use strixcam.Prelude.{ℕ, Bool, true, false, ◌&&◌, List, [], ◌∷◌, nat_eq, if◌then◌else◌}
use mathlib.Core.List.{reverse}

abbrev pub FilePath : Type 0
FilePath = List ℕ

abbrev pub slash : ℕ
slash = b'/'

abbrev pub is_empty {ℓ} : {A : Type ℓ} → List A → Bool
is_empty [] = true
is_empty (x ∷ xs) = false

-- Off the end of a reversed path: the name, then the separators.
abbrev pub skip_name : List ℕ → List ℕ
skip_name [] = []
skip_name (c ∷ cs) = let rest = skip_name cs in if nat_eq c slash then c ∷ cs else rest

abbrev pub skip_slashes : List ℕ → List ℕ
skip_slashes [] = []
skip_slashes (c ∷ cs) = let rest = skip_slashes cs in if nat_eq c slash then rest else c ∷ cs

-- The root is its own parent.
unfoldable pub parent_path : FilePath → FilePath
parent_path p =
    let upto = skip_name (reverse p) in
    let parent = skip_slashes upto in if is_empty parent then reverse upto else reverse parent

unfoldable pub make_parent : (FilePath → Bool) → FilePath → Bool
unfolding parent_path
make_parent mkdir p =
    if is_empty p then true else if is_empty (parent_path p) then true else mkdir (parent_path p)

unfoldable pub prepare_output_dirs : (FilePath → Bool) → FilePath → FilePath → Bool
unfolding make_parent
prepare_output_dirs mkdir video thumbnail = make_parent mkdir video && make_parent mkdir thumbnail
