-- ===== src/Overlay/Substitute/Loop.antt =====
-- The loops of SubstituteParams: their rounds and their end.
use strixcam.Prelude.{
  ℕ, ◌+◌, ◌<◌, zero, suc, none, some, [], ◌∷◌, ◌++◌, length, take, drop, ◌≡◌, refl, ◌∙◌, arith,
  length-drop, Option-cases, inl, inr,
}
use strixcam.Prelude.Assoc.{Assoc}
use strixcam.Prelude.Bytes.{Bytes, bytes_keys, starts_with, find}
use strixcam.Overlay.Substitute.{replacing, token_of, replace_all, substitute_params}

pub find_empty : (x : ℕ) (xs : Bytes) → find (x ∷ xs) [] ≡ none
unfolding find starts_with
find_empty x xs = refl

pub replacing-none :
    (fuel : ℕ) (token value passed rest : Bytes)
    → find token rest ≡ none
    → replacing (suc fuel) token value passed rest ≡ some (passed ++ rest)
unfolding replacing
replacing-none fuel token value passed rest h = rw (h, replacing) refl

pub replacing-some :
    (fuel i : ℕ) (token value passed rest : Bytes)
    → find token rest ≡ some i
    → replacing (suc fuel) token value passed rest
      ≡ replacing fuel token value (passed ++ take i rest ++ value) (drop (i + length token) rest)
unfolding replacing
replacing-some fuel i token value passed rest h = rw (h, replacing) refl

-- A round leaves less of the text to search.
replacing_ends :
    (fuel x : ℕ) (xs value passed rest : Bytes)
    → length rest < fuel
    → (out : Bytes) × (replacing fuel (x ∷ xs) value passed rest ≡ some out)
replacing_ends zero x xs value passed rest h = absurd (omega arith)
replacing_ends (suc fuel) x xs value passed [] h =
    (passed ++ [], replacing-none fuel (x ∷ xs) value passed [] (find_empty x xs))
replacing_ends (suc fuel) x xs value passed (c ∷ cs) h =
    elim (Option-cases (find (x ∷ xs) (c ∷ cs))) [
      | inl e ↦ (passed ++ c ∷ cs, replacing-none fuel (x ∷ xs) value passed (c ∷ cs) e)
      | inr (i, e) ↦
          let left = drop (i + suc (length xs)) (c ∷ cs) in
          let (out, ends) =
            replacing_ends fuel x xs value (passed ++ take i (c ∷ cs) ++ value) left
              (omega (arith, length-drop (i + suc (length xs)) (c ∷ cs))) in
          (out, replacing-some fuel i (x ∷ xs) value passed (c ∷ cs) e ∙ ends)
    ]

pub substitute_params_nil : (text : Bytes) → substitute_params [] text ≡ some text
unfolding substitute_params
substitute_params_nil text = refl

pub substitute_params_step :
    (key value text next : Bytes) (params : Assoc Bytes Bytes)
    → replace_all (token_of key) value text ≡ some next
    → substitute_params ((key, value) ∷ params) text ≡ substitute_params params next
unfolding substitute_params
substitute_params_step key value text next params h = rw (h, substitute_params) refl

replace_all_ends :
    (key value text : Bytes) → (next : Bytes) × (replace_all (token_of key) value text ≡ some next)
unfolding replace_all
replace_all_ends key value text =
    let tail = (b'{' ∷ key) ++ b'}' ∷ b'}' ∷ [] in
    replacing_ends (suc (length text)) b'{' tail value [] text (omega arith)

-- For all parameters and every text the loops of the substitution come to their end: a result is
-- returned.
pub substitute_params_ends :
    (params : Assoc Bytes Bytes) (text : Bytes)
    → (out : Bytes) × (substitute_params params text ≡ some out)
substitute_params_ends [] text = (text, substitute_params_nil text)
substitute_params_ends ((key, value) ∷ params) text =
    let (next, one) = replace_all_ends key value text in
    let (out, more) = substitute_params_ends params next in
    (out, substitute_params_step key value text next params one ∙ more)
