-- ===== src/Control/UnitName.antt =====
-- src/domain/control/utils/advertised-name.hpp: the unit's number and its BLE name, as bytes.
use strixcam.Prelude.{
  ℕ, ◌+◌, ◌-◌, ◌*◌, ◌/◌, ◌%◌, ◌^◌, ◌<◌, zero, suc, Bool, true, false, [], ◌∷◌, ◌++◌, if◌then◌else◌,
  ◌≡◌, refl, arith, All, ◌∙◌, ap,
}
use strixcam.Prelude.Bytes.{Bytes, digits, to_string}
use strixcam.Network.Naming.{is_digit}

abbrev pub ble_name_prefix : Bytes
ble_name_prefix = b's' ∷ b's' ∷ b't' ∷ b'-' ∷ b'c' ∷ b'a' ∷ b'm' ∷ b'-' ∷ []

-- `{:04}` of a number below 10000.
abbrev four_digits : ℕ → Bytes
four_digits n =
    (b'0' + n / 1000 % 10) ∷ (b'0' + n / 100 % 10) ∷ (b'0' + n / 10 % 10) ∷ (b'0' + n % 10) ∷ []

unfoldable pub make_advertised_name : ℕ → Bytes
make_advertised_name unit_number = ble_name_prefix ++ four_digits (unit_number % 10000)

-- The loop over the serial number; a value below 10^9 does not overflow 64 bits in a round.
unfoldable pub scan : ℕ → Bool → Bytes → ℕ
scan value saw_digit [] = value
scan value saw_digit (c ∷ cs) =
    let more = scan ((value * 10 + (c - b'0')) % 1000000000) true cs in
    let on = scan value saw_digit cs in if is_digit c then more else if saw_digit then value else on

unfoldable pub derive_unit_number : Bytes → ℕ
unfolding scan
derive_unit_number serial_number = scan 0 false serial_number % 2 ^ 32

abbrev pub IsNoise : Bytes → Type 0
IsNoise = All (λ c. is_digit c ≡ false)

scan_noise : (noise rest : Bytes) → IsNoise noise → scan 0 false (noise ++ rest) ≡ scan 0 false rest
unfolding scan
scan_noise [] rest h = refl
scan_noise (c ∷ noise) rest (h, t) = rw h (scan_noise noise rest t)

scan-digits :
    (room n : ℕ) (rest : Bytes)
    → n < 10 ^ suc room
    → n < 1000000000
    → scan 0 false (digits (suc room) n rest) ≡ scan n true rest
unfolding digits scan
scan-digits zero n rest fits small = ground arith
scan-digits (suc room) n rest fits small =
    ground (arith, scan-digits room (n / 10) ((b'0' + n % 10) ∷ rest) (omega arith) (omega arith))

-- `digits`, as `to_string`, before more bytes.
digits-append : (room n : ℕ) (xs ys : Bytes) → digits room n xs ++ ys ≡ digits room n (xs ++ ys)
unfolding digits
digits-append zero n xs ys = refl
digits-append (suc room) n xs ys =
    ground (arith, digits-append room (n / 10) ((b'0' + n % 10) ∷ xs) ys)

scan_end : (n : ℕ) (suffix : Bytes) → IsNoise suffix → scan n true suffix ≡ n
unfolding scan
scan_end n [] h = refl
scan_end n (c ∷ cs) (h, t) = rw h refl

-- A serial number that holds one number below 10^9, between bytes that are no digits, gives that
-- number.
pub derive_unit_number-to_string :
    (noise suffix : Bytes) (n : ℕ)
    → IsNoise noise
    → IsNoise suffix
    → n < 1000000000
    → derive_unit_number (noise ++ (to_string n ++ suffix)) ≡ n
unfolding derive_unit_number to_string
derive_unit_number-to_string noise suffix n before_it after_it small =
    let e : scan 0 false (noise ++ (digits 10 n [] ++ suffix)) ≡ n =
      scan_noise noise (digits 10 n [] ++ suffix) before_it
      ∙ ap (scan 0 false) (digits-append 10 n [] suffix)
      ∙ scan-digits 9 n suffix (omega arith) small
      ∙ scan_end n suffix after_it in
    rw e (omega arith)

-- Two units have the same name only if their numbers agree modulo 10000.
pub make_advertised_name-distinguishes :
    (a b : ℕ) → make_advertised_name a ≡ make_advertised_name b → a % 10000 ≡ b % 10000
unfolding make_advertised_name
make_advertised_name-distinguishes a b h = ground arith
