-- ===== src/Prelude/Bytes.antt =====
-- A `std::string` whose bytes matter is the list of them, and `std::to_string` of a `uint32_t`.
use Prim.Native.Char.{code}
use Prim.Native.String.{String}
use Prim.Native.Nat.{ℕ, zero, suc, ◌+◌, ◌/◌, ◌%◌}
use mathlib.Core.Path.{◌≡◌}
use mathlib.Core.Logic.{◌↔◌}
use mathlib.Core.Bool.{Bool, true, false, ◌&&◌}
use mathlib.Core.Option.{Option, none, some}
use mathlib.Core.List.{List, [], ◌∷◌}
use native.Mathlib.Omega.{arith}
use strixcam.Prelude.Tests.{Comparable, nat_eq, ltb, if◌then◌else◌}

abbrev pub Bytes : Type 0
Bytes = List ℕ

-- The bytes of a text in ASCII.
abbrev pub codes : String → Bytes
codes String.[] = []
codes (String.◌∷◌ c s) = code c ∷ codes s

unfoldable pub bytes_eq : Bytes → Bytes → Bool
bytes_eq [] [] = true
bytes_eq (x ∷ xs) (y ∷ ys) = nat_eq x y && bytes_eq xs ys
bytes_eq _ _ = false

-- `std::to_string` of a `uint32_t`, which has ten digits at most: `digits` has room for them.
unfoldable pub digits : ℕ → ℕ → Bytes → Bytes
digits zero n rest = rest
digits (suc room) n rest =
    let here = (b'0' + n % 10) ∷ rest in
    let more = digits room (n / 10) here in if ltb n 10 then here else more

unfoldable pub to_string : ℕ → Bytes
unfolding digits
to_string n = digits 10 n []

unfoldable pub starts_with : Bytes → Bytes → Bool
starts_with [] text = true
starts_with (x ∷ xs) [] = false
starts_with (x ∷ xs) (c ∷ cs) = nat_eq x c && starts_with xs cs

abbrev pub one_later : Option ℕ → Option ℕ
one_later none = none
one_later (some i) = some (suc i)

-- `std::string::find` from the start: the first position at which the token stands.
unfoldable pub find : Bytes → Bytes → Option ℕ
unfolding starts_with
find token [] = if starts_with token [] then some 0 else none
find token (c ∷ cs) =
    let rest = find token cs in if starts_with token (c ∷ cs) then some 0 else one_later rest

pub bytes_eq_iff : (xs ys : Bytes) → (bytes_eq xs ys ≡ true) ↔ (xs ≡ ys)
unfolding bytes_eq
bytes_eq_iff [] [] = ground arith
bytes_eq_iff [] (y ∷ ys) = ground arith
bytes_eq_iff (x ∷ xs) [] = ground arith
bytes_eq_iff (x ∷ xs) (y ∷ ys) = ground (arith, bytes_eq_iff xs ys)

instance abbrev pub bytes_keys : Comparable Bytes
bytes_keys = record { same = bytes_eq; same_iff = bytes_eq_iff }
