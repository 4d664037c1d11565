-- ===== src/Recording/DiskGuard/Ancestor.antt =====
-- The search for an existing directory: it ends, at the nearest one.
use mathlib.Core.List.{reverse, reverse-reverse, reverse-cons}
use strixcam.Prelude.{
  ℕ, zero, suc, ◌<◌, Bool, true, false, some, List, [], ◌∷◌, nat_eq, length, if◌then◌else◌, ◌==◌,
  ◌≡◌, ◌⊎◌, refl, ap, ◌∙◌, arith, Bool-cases, inl, inr, length-append,
}
use strixcam.Prelude.Bytes.{bytes_keys, bytes_eq_iff}
use strixcam.Session.Paths.{FilePath, is_empty, parent_path, skip_name, skip_slashes}
use strixcam.Recording.DiskGuard.{resolving, resolve_existing_path}

abbrev SameOrShorter : List ℕ → List ℕ → Type 0
SameOrShorter a b = (a ≡ b) ⊎ (length a < length b)

SameOrShorter-trans : (a b c : List ℕ) → SameOrShorter a b → SameOrShorter b c → SameOrShorter a c
SameOrShorter-trans a b c (inl e) (inl f) = inl (e ∙ f)
SameOrShorter-trans a b c (inl e) (inr l) = inr (omega (arith, ap length e, l))
SameOrShorter-trans a b c (inr l) (inl f) = inr (omega (arith, ap length f, l))
SameOrShorter-trans a b c (inr l) (inr k) = inr (omega (arith, l, k))

rest-shorter :
    (b : Bool) (c : ℕ) (rest cs : List ℕ)
    → SameOrShorter rest cs
    → SameOrShorter (if b then c ∷ cs else rest) (c ∷ cs)
rest-shorter true c rest cs h = inl refl
rest-shorter false c rest cs (inl e) = inr (omega (arith, ap length e))
rest-shorter false c rest cs (inr l) = inr (omega (arith, l))

skip_name-shorter : (cs : List ℕ) → SameOrShorter (skip_name cs) cs
skip_name-shorter [] = inl refl
skip_name-shorter (c ∷ cs) = rest-shorter (nat_eq c b'/') c (skip_name cs) cs (skip_name-shorter cs)

skip_slashes-shorter : (cs : List ℕ) → SameOrShorter (skip_slashes cs) cs
skip_slashes-shorter [] = inl refl
skip_slashes-shorter (c ∷ cs) = elim (Bool-cases (nat_eq c b'/')) [
  | inl slash_here ↦
      rw slash_here (rest-shorter false c (skip_slashes cs) cs (skip_slashes-shorter cs))
  | inr other ↦ rw other (inl refl)
]

length-reverse : (xs : List ℕ) → length (reverse xs) ≡ length xs
length-reverse [] = refl
length-reverse (x ∷ xs) =
    ap length (reverse-cons x xs)
    ∙ omega (arith, length-append (reverse xs) (x ∷ []), length-reverse xs)

reverse-shorter : (r p : List ℕ) → SameOrShorter r (reverse p) → SameOrShorter (reverse r) p
reverse-shorter r p (inl e) = inl (ap reverse e ∙ reverse-reverse p)
reverse-shorter r p (inr l) = inr (omega (arith, l, length-reverse r, length-reverse p))

-- A parent is the path itself, or shorter.
parent_path-shorter : (p : FilePath) → SameOrShorter (parent_path p) p
unfolding parent_path
parent_path-shorter p =
    let upto = skip_name (reverse p) in
    let whole = skip_name-shorter (reverse p) in
    elim (Bool-cases (is_empty (skip_slashes upto))) [
      | inl bare ↦ rw bare (reverse-shorter upto p whole)
      | inr kept ↦ rw kept (
          reverse-shorter (skip_slashes upto) p (
            SameOrShorter-trans (skip_slashes upto) upto (reverse p) (skip_slashes-shorter upto)
              whole))
    ]

-- A directory that is found exists; nothing was found where the path is empty.
abbrev pub IsResult : (FilePath → Bool) → FilePath → Type 0
IsResult exists path = (is_empty path ≡ true) ⊎ (exists path ≡ true)

module _ (exists : FilePath → Bool) (fuel : ℕ) (path : FilePath) where
  resolving_empty : is_empty path ≡ true → resolving exists (suc fuel) path ≡ some []
  unfolding resolving
  resolving_empty e = ground (arith, e)

  resolving_there :
      is_empty path ≡ false → exists path ≡ true → resolving exists (suc fuel) path ≡ some path
  unfolding resolving
  resolving_there e t = ground (arith, e, t)

  resolving_root :
      is_empty path ≡ false
      → exists path ≡ false
      → (parent_path path == path) ≡ true
      → resolving exists (suc fuel) path ≡ some []
  unfolding resolving
  resolving_root e t r = ground (arith, e, t, r)

  resolving_up :
      is_empty path ≡ false
      → exists path ≡ false
      → (parent_path path == path) ≡ false
      → resolving exists (suc fuel) path ≡ resolving exists fuel (parent_path path)
  unfolding resolving
  resolving_up e t r = ground (arith, e, t, r)

resolving_ends :
    (exists : FilePath → Bool) (fuel : ℕ) (path : FilePath)
    → length path < fuel
    → (found : FilePath) × (resolving exists fuel path ≡ some found) × IsResult exists found
resolving_ends exists zero path h = absurd (omega arith)
resolving_ends exists (suc fuel) path h = elim (Bool-cases (is_empty path)) [
  | inl empty ↦ ([], resolving_empty exists fuel path empty, inl refl)
  | inr full ↦ elim (Bool-cases (exists path)) [
    | inl there ↦ (path, resolving_there exists fuel path full there, inr there)
    | inr missing ↦ elim (Bool-cases (parent_path path == path)) [
      | inl root ↦ ([], resolving_root exists fuel path full missing root, inl refl)
      | inr up ↦
          let shorter : length (parent_path path) < length path = elim (parent_path-shorter path) [
            | inl e ↦ absurd (ground (arith, up, (bytes_eq_iff (parent_path path) path).1 e))
            | inr l ↦ l
          ] in
          let (found, ends, result) =
            resolving_ends exists fuel (parent_path path) (omega (arith, shorter)) in
          (found, resolving_up exists fuel path full missing up ∙ ends, result)
    ]
  ]
]

-- For every file system and every root the search comes to its end, with a path that exists or
-- with none.
pub resolve_existing_path_ends :
    (exists : FilePath → Bool) (root : FilePath)
    → (found : FilePath) × (resolve_existing_path exists root ≡ some found) × IsResult exists found
unfolding resolve_existing_path
resolve_existing_path_ends exists root =
    resolving_ends exists (suc (length root)) root (omega arith)
