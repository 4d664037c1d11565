-- ===== src/Overlay/Substitute.antt =====
-- SubstituteParams of src/app/overlay/services/overlay_scene/overlay-scene.cpp: the placeholders of
-- a banner's text.
pub mod Loop
pub mod Tokens
pub mod Templates
use strixcam.Prelude.{
  ℕ, ◌+◌, ◌-◌, ◌<◌, ◌≤◌, zero, suc, Bool, true, false, ◌&&◌, Option, none, some, [], ◌∷◌, ◌++◌,
  nat_eq, if◌then◌else◌, length, take, drop,
}
use strixcam.Prelude.Assoc.{Assoc}
use strixcam.Prelude.Bytes.{Bytes, find}

-- The while loop, with the text in two parts at `pos`: what the search has passed, and the rest.
-- `none` is a loop that is still running when the fuel is used up.
unfoldable pub replacing : ℕ → Bytes → Bytes → Bytes → Bytes → Option Bytes
unfolding find
replacing zero token value passed rest = none
replacing (suc fuel) token value passed rest = elim (find token rest) [
  | none ↦ some (passed ++ rest)
  | some i ↦
      replacing fuel token value (passed ++ take i rest ++ value) (drop (i + length token) rest)
]

abbrev pub token_of : Bytes → Bytes
token_of key = (b'{' ∷ b'{' ∷ key) ++ b'}' ∷ b'}' ∷ []

-- A round takes a token off the rest of the text, so its length is fuel enough.
unfoldable pub replace_all : Bytes → Bytes → Bytes → Option Bytes
unfolding replacing
replace_all token value text = replacing (suc (length text)) token value [] text

-- The entries are in the order of the map's iteration.
unfoldable pub substitute_params : Assoc Bytes Bytes → Bytes → Option Bytes
unfolding replace_all
substitute_params [] text = some text
substitute_params ((key, value) ∷ params) text = elim (replace_all (token_of key) value text) [
  | none ↦ none
  | some next ↦ substitute_params params next
]

-- The text that the code returns: its loops end, so the first case is never taken.
unfoldable pub substituted : Assoc Bytes Bytes → Bytes → Bytes
unfolding substitute_params
substituted params text = elim (substitute_params params text) [ none ↦ [] | some out ↦ out ]
