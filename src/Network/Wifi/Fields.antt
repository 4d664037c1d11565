-- ===== src/Network/Wifi/Fields.antt =====
-- The fields of an event of wpa_supplicant.
use strixcam.Prelude.{
  ℕ, suc, ◌+◌, true, false, none, some, [], ◌∷◌, ◌++◌, length, drop, drop_at, drop-append_add,
  nat_eq, All, All-append, ◌≡◌, refl, ap, ◌∙◌, arith, Option-cases, inl, inr,
}
use strixcam.Prelude.Bytes.{Bytes, find, starts_with, one_later}
use strixcam.Network.Wifi.{until, quote, needle, parse_quoted_field}

abbrev pub IsWithout : ℕ → Bytes → Type 0
IsWithout stop = All (λ c. nat_eq c stop ≡ false)

until-append :
    (stop : ℕ) (value rest : Bytes)
    → IsWithout stop value
    → until stop (value ++ stop ∷ rest) ≡ some value
unfolding until
until-append stop [] rest h = ground arith
until-append stop (c ∷ cs) rest (differs, h) = rw (until-append stop cs rest h, differs) refl

starts_with-append : (xs ys : Bytes) → starts_with xs (xs ++ ys) ≡ true
unfolding starts_with
starts_with-append [] ys = refl
starts_with-append (x ∷ xs) ys = ground (arith, starts_with-append xs ys)

-- A text without spaces does not start where it would have to pass a space.
starts_with-space :
    (token xs ys zs : Bytes)
    → IsWithout b' ' token
    → starts_with token (xs ++ b' ' ∷ ys) ≡ false
    → starts_with token (xs ++ b' ' ∷ zs) ≡ false
unfolding starts_with
starts_with-space [] xs ys zs h e = e
starts_with-space (t ∷ token) [] ys zs (differs, h) e = ground arith
starts_with-space (t ∷ token) (x ∷ xs) ys zs (differs, h) e =
    ground (arith, starts_with-space token xs ys zs h)

find_nil : (token : Bytes) → starts_with token [] ≡ false → find token [] ≡ none
unfolding find
find_nil token h = rw h refl

find-token : (t : ℕ) (token rest : Bytes) → find (t ∷ token) (t ∷ token ++ rest) ≡ some 0
unfolding find
find-token t token rest = rw (starts_with-append (t ∷ token) rest) refl

find-later :
    (token : Bytes) (c : ℕ) (cs : Bytes)
    → starts_with token (c ∷ cs) ≡ false
    → find token (c ∷ cs) ≡ one_later (find token cs)
unfolding find
find-later token c cs h = rw h refl

find-none :
    (token : Bytes) (c : ℕ) (cs : Bytes)
    → find token (c ∷ cs) ≡ none
    → (starts_with token (c ∷ cs) ≡ false) × (find token cs ≡ none)
unfolding find
find-none token c cs h = elim (Option-cases (find token cs)) [
  | inl e ↦ (ground (arith, h, e), e)
  | inr (i, e) ↦ absurd (ground (arith, h, e))
]

first_differs :
    (t : ℕ) (token rest : Bytes)
    → IsWithout b' ' (t ∷ token)
    → starts_with (t ∷ token) (b' ' ∷ rest) ≡ false
unfolding starts_with
first_differs t token rest (differs, h) = ground arith

-- The token is found behind a space where it does not stand earlier.
find-behind :
    (t : ℕ) (token pre rest : Bytes)
    → IsWithout b' ' (t ∷ token)
    → find (t ∷ token) (pre ++ b' ' ∷ []) ≡ none
    → find (t ∷ token) (pre ++ b' ' ∷ (t ∷ token ++ rest)) ≡ some (length pre + 1)
find-behind t token [] rest h e =
    find-later (t ∷ token) b' ' (t ∷ token ++ rest) (first_differs t token (t ∷ token ++ rest) h)
    ∙ ap one_later (find-token t token rest)
find-behind t token (x ∷ pre) rest h e =
    let (here, later) = find-none (t ∷ token) x (pre ++ b' ' ∷ []) e in
    find-later (t ∷ token) x (pre ++ b' ' ∷ (t ∷ token ++ rest))
      (starts_with-space (t ∷ token) (x ∷ pre) [] (t ∷ token ++ rest) h here)
    ∙ ap one_later (find-behind t token pre rest h later)
    ∙ ap some (omega arith)

parse_found :
    (text key : Bytes) (pos : ℕ)
    → find (needle key) text ≡ some pos
    → parse_quoted_field text key ≡ until quote (drop (pos + length (needle key)) text)
unfolding parse_quoted_field
parse_found text key pos h = rw (h, parse_quoted_field) refl

drop_behind :
    (pre token rest : Bytes)
    → drop (length pre + 1 + length token) (pre ++ b' ' ∷ (token ++ rest)) ≡ rest
drop_behind pre token rest =
    drop_at (length pre + 1 + length token) (length pre + suc (length token))
      (pre ++ b' ' ∷ (token ++ rest)) (omega arith)
    ∙ drop-append_add (suc (length token)) pre (b' ' ∷ (token ++ rest))
    ∙ drop_at (length token) (length token + 0) (token ++ rest) (omega arith)
    ∙ drop-append_add 0 token rest

-- A field behind a space, whose key has no space and whose value no quote, and whose needle does
-- not stand earlier, is read as its value.
pub parse_quoted_field-value :
    (k : ℕ) (key pre value rest : Bytes)
    → IsWithout b' ' (k ∷ key)
    → IsWithout quote value
    → find (needle (k ∷ key)) (pre ++ b' ' ∷ []) ≡ none
    → parse_quoted_field (pre ++ b' ' ∷ (needle (k ∷ key) ++ (value ++ quote ∷ rest))) (k ∷ key)
      ≡ some value
parse_quoted_field-value k key pre value rest plain closed first =
    let text = pre ++ b' ' ∷ (needle (k ∷ key) ++ (value ++ quote ∷ rest)) in
    let spaceless : IsWithout b' ' (needle (k ∷ key)) =
      All-append (λ c. nat_eq c b' ' ≡ false) (k ∷ key) (b'=' ∷ quote ∷ []) plain
        (refl, (refl, tt)) in
    parse_found text (k ∷ key) (length pre + 1)
      (find-behind k (key ++ b'=' ∷ quote ∷ []) pre (value ++ quote ∷ rest) spaceless first)
    ∙ ap (until quote) (drop_behind pre (needle (k ∷ key)) (value ++ quote ∷ rest))
    ∙ until-append quote value rest closed
