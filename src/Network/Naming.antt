-- ===== src/Network/Naming.antt =====
-- src/domain/storage/services/raw-capture-naming.hpp: the names of raw capture files, as bytes.
pub mod RoundTrip
use strixcam.Prelude.{
  ℕ, ◌+◌, ◌-◌, ◌*◌, ◌/◌, ◌%◌, ◌^◌, zero, suc, Bool, true, false, ◌&&◌, ◌||◌, not, Option, none,
  some, List, [], ◌∷◌, ◌++◌, nat_eq, ltb, leb, if◌then◌else◌, length, take, drop,
}
use strixcam.Prelude.Bytes.{Bytes, bytes_eq, to_string}

pub record RawCaptureIdentity : Type 0 where
  pub capture_group_id : Bytes
  pub camera_index : ℕ

abbrev pub prefix : Bytes
prefix = b'r' ∷ b'a' ∷ b'w' ∷ b'_' ∷ b'_' ∷ []

abbrev pub camera_marker : Bytes
camera_marker = b'_' ∷ b'_' ∷ b'c' ∷ b'a' ∷ b'm' ∷ []

abbrev pub extension : Bytes
extension = b'.' ∷ b'n' ∷ b'v' ∷ b'1' ∷ b'2' ∷ []

unfoldable pub file_name : RawCaptureIdentity → Bytes
file_name id =
    prefix ++ id.capture_group_id ++ camera_marker ++ to_string id.camera_index ++ extension

abbrev pub later : Option ℕ → Option ℕ → Option ℕ
later none first = first
later (some n) first = some (suc n)

-- `rfind`: the last position at which `part` stands.
unfoldable pub rfind : Bytes → Bytes → Option ℕ
unfolding bytes_eq
rfind part [] = if bytes_eq part [] then some 0 else none
rfind part (c ∷ cs) =
    later (rfind part cs) (if bytes_eq (take (length part) (c ∷ cs)) part then some 0 else none)

abbrev pub is_digit : ℕ → Bool
is_digit c = leb b'0' c && leb c b'9'

-- The loop over the digits; a `uint32_t` wraps.
unfoldable pub parse_index : ℕ → Bytes → Option ℕ
parse_index acc [] = some acc
parse_index acc (c ∷ cs) =
    let rest = parse_index ((acc * 10 + (c - b'0')) % 2 ^ 32) cs in
    if is_digit c then rest else none

abbrev pub identity : Bytes → Option ℕ → Option RawCaptureIdentity
identity group none = none
identity group (some n) = some (record { capture_group_id = group; camera_index = n })

abbrev pub is_nil : Bytes → Bool
is_nil [] = true
is_nil (c ∷ cs) = false

-- The part of `ParseFileName` after the marker was found at `at`. `index_len` wraps below zero in
-- the source where the extension overlaps the marker, and then takes the rest of the name.
abbrev pub parse_parts : Bytes → ℕ → Option RawCaptureIdentity
parse_parts name at =
    let group = take (at - 5) (drop 5 name) in
    let index_start = at + 5 in
    let tail = drop index_start name in
    let index =
      if ltb (length name) (5 + index_start)
      then tail
      else take (length name - 5 - index_start) tail in
    if is_nil group || is_nil index then none else identity group (parse_index 0 index)

abbrev pub parse_at : Bytes → Option ℕ → Option RawCaptureIdentity
parse_at name none = none
parse_at name (some at) = if leb at 5 then none else parse_parts name at

unfoldable pub parse_file_name : Bytes → Option RawCaptureIdentity
parse_file_name name =
    if not (bytes_eq (take 5 name) prefix)
    then none
    else if ltb (length name) 5
    then none
    else if not (bytes_eq (drop (length name - 5) name) extension)
    then none
    else parse_at name (rfind camera_marker name)
