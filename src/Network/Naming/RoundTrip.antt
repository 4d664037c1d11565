-- ===== src/Network/Naming/RoundTrip.antt =====
-- raw-capture-naming.hpp: a written name and the parser, slice by slice.
use mathlib.Core.List.{append_assoc}
use strixcam.Prelude.{
  ℕ, ◌+◌, ◌-◌, ◌/◌, ◌%◌, ◌^◌, ◌<◌, ◌≤◌, zero, suc, true, false, none, some, [], ◌∷◌, ◌++◌, nat_eq,
  ltb, leb, length, take, drop, ◌≡◌, refl, sym, ap, ◌∙◌, arith, All, All-append, length-append,
  drop_at, Bool-cases, inl, inr,
}
use strixcam.Prelude.Bytes.{Bytes, bytes_eq, digits, to_string}
use strixcam.Network.Naming.{
  RawCaptureIdentity, prefix, camera_marker, extension, file_name, rfind, parse_index, identity,
  is_nil, parse_parts, parse_file_name,
}

rfind-append :
    (part xs ys : Bytes) (n : ℕ)
    → rfind part ys ≡ some n
    → rfind part (xs ++ ys) ≡ some (length xs + n)
unfolding rfind
rfind-append part [] ys n h = h ∙ ap some (omega arith)
rfind-append part (x ∷ xs) ys n h = rw (rfind-append part xs ys n h) (ap some (omega arith))

abbrev IsPlain : Bytes → Type 0
IsPlain = All (λ c. nat_eq c b'_' ≡ false)

rfind_plain : (cs : Bytes) → IsPlain cs → rfind camera_marker cs ≡ none
unfolding rfind bytes_eq
rfind_plain [] h = refl
rfind_plain (c ∷ cs) (plain, rest) = rw (rfind_plain cs rest, plain) refl

rfind_marker : (cs : Bytes) → IsPlain cs → rfind camera_marker (camera_marker ++ cs) ≡ some 0
unfolding rfind bytes_eq
rfind_marker cs h = rw (rfind_plain cs h) refl

take-append : (xs ys : Bytes) → take (length xs) (xs ++ ys) ≡ xs
take-append [] ys = refl
take-append (x ∷ xs) ys = ap (λ zs. x ∷ zs) (take-append xs ys)

drop-append : (xs ys : Bytes) → drop (length xs) (xs ++ ys) ≡ ys
drop-append [] ys = refl
drop-append (x ∷ xs) ys = drop-append xs ys

bytes_eq_refl : (xs : Bytes) → bytes_eq xs xs ≡ true
unfolding bytes_eq
bytes_eq_refl [] = refl
bytes_eq_refl (x ∷ xs) = ground (arith, bytes_eq_refl xs)

digits-IsPlain : (room n : ℕ) (rest : Bytes) → IsPlain rest → IsPlain (digits room n rest)
unfolding digits
digits-IsPlain zero n rest h = h
digits-IsPlain (suc room) n rest h =
    let here : IsPlain ((b'0' + n % 10) ∷ rest) = (ground arith, h) in
    elim (Bool-cases (ltb n 10)) [
      | inl last ↦ rw last here
      | inr more ↦ rw more (digits-IsPlain room (n / 10) ((b'0' + n % 10) ∷ rest) here)
    ]

parse_index-digits :
    (room n : ℕ) (rest : Bytes)
    → n < 10 ^ suc room
    → n < 2 ^ 32
    → parse_index 0 (digits (suc room) n rest) ≡ parse_index n rest
unfolding digits parse_index
parse_index-digits zero n rest fits small = ground arith
parse_index-digits (suc room) n rest fits small =
    ground
      (arith, parse_index-digits room (n / 10) ((b'0' + n % 10) ∷ rest) (omega arith) (omega arith))

is_nil-digits :
    (room n : ℕ) (rest : Bytes) → is_nil rest ≡ false → is_nil (digits room n rest) ≡ false
unfolding digits
is_nil-digits zero n rest h = h
is_nil-digits (suc room) n rest h =
    ground (arith, is_nil-digits room (n / 10) ((b'0' + n % 10) ∷ rest) refl)

digits-IsPlain_ext : (n : ℕ) → IsPlain (to_string n ++ extension)
unfolding to_string
digits-IsPlain_ext n =
    All-append _ (to_string n) extension (digits-IsPlain 10 n [] tt)
      (refl, (refl, (refl, (refl, (refl, tt)))))

parse_index-to_string : (n : ℕ) → n < 2 ^ 32 → parse_index 0 (to_string n) ≡ some n
unfolding to_string parse_index
parse_index-to_string n small = parse_index-digits 9 n [] (omega arith) small

-- The extension of a name is what the slice off its end finds.
drop_extension :
    (front name : Bytes) → name ≡ front ++ extension → drop (length name - 5) name ≡ extension
drop_extension front name e =
    let off : length (front ++ extension) - 5 ≡ length front =
      omega (arith, length-append front extension) in
    rw (e, off) (drop-append front extension)

-- `parse_parts` by what its slices are.
slices_lem :
    (name group index tail : Bytes) (at : ℕ)
    → take (at - 5) (drop 5 name) ≡ group
    → drop (at + 5) name ≡ tail
    → 10 + at ≤ length name
    → take (length name - 5 - (at + 5)) tail ≡ index
    → is_nil group ≡ false
    → is_nil index ≡ false
    → parse_parts name at ≡ identity group (parse_index 0 index)
slices_lem name group index tail at a b c d g i =
    let room : ltb (length name) (5 + (at + 5)) ≡ false = ground arith in
    rw (a, b, room, d, g, i) refl

parse_lem :
    (name : Bytes) (at : ℕ)
    → take 5 name ≡ prefix
    → 10 ≤ length name
    → drop (length name - 5) name ≡ extension
    → rfind camera_marker name ≡ some at
    → 5 < at
    → parse_file_name name ≡ parse_parts name at
unfolding parse_file_name bytes_eq
parse_lem name at a b c d e =
    let room : ltb (length name) 5 ≡ false = ground arith in
    let past : leb at 5 ≡ false = ground arith in rw (a, room, c, d, past) refl

is_nil-length : (xs : Bytes) → is_nil xs ≡ false → 0 < length xs
is_nil-length [] h = cc
is_nil-length (x ∷ xs) h = omega arith

is_nil-to_string : (n : ℕ) → is_nil (to_string n) ≡ false
unfolding to_string digits
is_nil-to_string n = ground (arith, is_nil-digits 9 (n / 10) ((b'0' + n % 10) ∷ []) refl)

module _ (group index : Bytes) (g : is_nil group ≡ false) (i : is_nil index ≡ false)
    (plain : IsPlain (index ++ extension)) where
  abbrev tail : Bytes
  tail = camera_marker ++ index ++ extension

  abbrev name : Bytes
  name = prefix ++ group ++ tail

  length-name : length name ≡ 15 + length group + length index
  length-name = omega (arith, length-append group tail, length-append index extension)

  name_split : name ≡ (prefix ++ group ++ camera_marker ++ index) ++ extension
  name_split = sym (
      ap (λ front. front ++ extension) (append_assoc (prefix ++ group) camera_marker index)
      ∙ append_assoc (prefix ++ group) (camera_marker ++ index) extension)

  rfind-name : rfind camera_marker name ≡ some (5 + length group)
  rfind-name =
      rfind-append camera_marker (prefix ++ group) tail 0 (rfind_marker (index ++ extension) plain)
      ∙ ap some (omega arith)

  drop-name : drop (5 + length group + 5) name ≡ index ++ extension
  drop-name =
      let front = prefix ++ group ++ camera_marker in
      let off : 5 + length group + 5 ≡ length front =
        omega (arith, length-append group camera_marker) in
      let split : name ≡ front ++ (index ++ extension) =
        ap (λ rest. prefix ++ rest) (sym (append_assoc group camera_marker (index ++ extension))) in
      drop_at (5 + length group + 5) (length front) name off
      ∙ ap (drop (length front)) split
      ∙ drop-append front (index ++ extension)

  parse-name : parse_file_name name ≡ identity group (parse_index 0 index)
  parse-name =
      let one = is_nil-length group g in
      let off : 5 + length group - 5 ≡ length group = omega arith in
      let size : length name - 5 - (5 + length group + 5) ≡ length index =
        omega (arith, length-name) in
      parse_lem name (5 + length group) refl (omega (arith, length-name))
        (drop_extension (prefix ++ group ++ camera_marker ++ index) name name_split) rfind-name
        (omega (arith, one))
      ∙ slices_lem name group index (index ++ extension) (5 + length group)
          (ap (λ n. take n (group ++ tail)) off ∙ take-append group tail) drop-name
          (omega (arith, length-name))
          (ap (λ n. take n (index ++ extension)) size ∙ take-append index extension) g i

-- Every identity with a group and an index that fits 32 bits is read back from the name written
-- for it, whatever the bytes of the group.
pub parse_file_name-file_name :
    (id : RawCaptureIdentity)
    → is_nil id.capture_group_id ≡ false
    → id.camera_index < 2 ^ 32
    → parse_file_name (file_name id) ≡ some id
unfolding file_name
parse_file_name-file_name id g small =
    let index = to_string id.camera_index in
    let plain = digits-IsPlain_ext id.camera_index in
    let nonempty = is_nil-to_string id.camera_index in
    ap parse_file_name (sym (name_split id.capture_group_id index g nonempty plain))
    ∙ parse-name id.capture_group_id index g nonempty plain
    ∙ ap (identity id.capture_group_id) (parse_index-to_string id.camera_index small)
