-- ===== src/Overlay/Substitute/Templates.antt =====
-- What SubstituteParams makes of a template.
use mathlib.Core.List.{append_assoc}
use strixcam.Prelude.{
  ℕ, ◌<◌, zero, suc, Option, none, some, List, [], ◌∷◌, ◌++◌, if◌then◌else◌, length, ◌≡◌, refl, sym,
  ap, ◌∙◌, arith, All, length-append, inl, inr, Bool-cases, ◌==◌,
}
use strixcam.Prelude.Assoc.{Assoc, lookup}
use strixcam.Prelude.Bytes.{Bytes, bytes_keys, bytes_eq_iff}
use strixcam.Overlay.Substitute.{replacing, token_of, replace_all, substitute_params}
use strixcam.Overlay.Substitute.Loop.{
  find_empty, replacing-none, substitute_params_nil, substitute_params_step,
}
use strixcam.Overlay.Substitute.Tokens.{
  IsPlain, plain-IsClosed, find_closed, find-token_other, replacing_over, replacing_here,
}

-- A template is a sequence of literal texts and of placeholders.
pub data Part : Type 0 where
  literal placeholder : Bytes → Part

abbrev pub render : List Part → Bytes
render [] = []
render (literal t ∷ parts) = t ++ render parts
render (placeholder k ∷ parts) = token_of k ++ render parts

abbrev pub filled : Bytes → Option Bytes → Bytes
filled key none = token_of key
filled key (some value) = value

abbrev pub expand : Assoc Bytes Bytes → List Part → Bytes
expand params [] = []
expand params (literal t ∷ parts) = t ++ expand params parts
expand params (placeholder k ∷ parts) = filled k (lookup k params) ++ expand params parts

abbrev pub IsPlainPart : Part → Type 0
IsPlainPart (literal t) = IsPlain t
IsPlainPart (placeholder k) = IsPlain k

abbrev fill_one : Bytes → Bytes → Part → Part
fill_one key value (literal t) = literal t
fill_one key value (placeholder k) = if key == k then literal value else placeholder k

abbrev fill : Bytes → Bytes → List Part → List Part
fill key value [] = []
fill key value (p ∷ parts) = fill_one key value p ∷ fill key value parts

-- The loop fills in the placeholders of its key.
replacing_parts :
    (fuel : ℕ) (key value passed : Bytes) (parts : List Part)
    → IsPlain key
    → All IsPlainPart parts
    → length (render parts) < fuel
    → replacing fuel (token_of key) value passed (render parts)
      ≡ some (passed ++ render (fill key value parts))
replacing_parts zero key value passed parts pk p h = absurd (omega arith)
replacing_parts (suc fuel) key value passed [] pk p h =
    replacing-none fuel (token_of key) value passed []
      (find_empty b'{' (b'{' ∷ key ++ b'}' ∷ b'}' ∷ []))
replacing_parts (suc fuel) key value passed (literal t ∷ parts) pk (pt, p) h =
    replacing_over fuel (token_of key) value passed t (render parts)
      (find_closed (b'{' ∷ key ++ b'}' ∷ b'}' ∷ []) t (render parts) (plain-IsClosed t pt))
    ∙ replacing_parts (suc fuel) key value (passed ++ t) parts pk p
        (omega (arith, length-append t (render parts)))
    ∙ ap some (append_assoc passed t (render (fill key value parts)))
replacing_parts (suc fuel) key value passed (placeholder k ∷ parts) pk (pt, p) h =
    elim (Bool-cases (key == k)) [
      | inl same ↦
          let mine : key ≡ k = (bytes_eq_iff key k).0 same in
          ap (λ j. replacing (suc fuel) (token_of key) value passed (token_of j ++ render parts))
            (sym mine)
          ∙ replacing_here fuel key value passed (render parts)
          ∙ replacing_parts fuel key value (passed ++ value) parts pk p
              (omega (arith, length-append (token_of k) (render parts)))
          ∙ ap some (append_assoc passed value (render (fill key value parts)))
          ∙ ap
              (λ b. some (
                passed
                ++ render ((if b then literal value else placeholder k) ∷ fill key value parts)))
              (sym same)
      | inr other ↦
          replacing_over fuel (token_of key) value passed (token_of k) (render parts)
            (find-token_other key k (render parts) pk pt other)
          ∙ replacing_parts (suc fuel) key value (passed ++ token_of k) parts pk p
              (omega (arith, length-append (token_of k) (render parts)))
          ∙ ap some (append_assoc passed (token_of k) (render (fill key value parts)))
          ∙ ap
              (λ b. some (
                passed
                ++ render ((if b then literal value else placeholder k) ∷ fill key value parts)))
              (sym other)
    ]

replace_all_lem :
    (key value : Bytes) (parts : List Part)
    → IsPlain key
    → All IsPlainPart parts
    → replace_all (token_of key) value (render parts) ≡ some (render (fill key value parts))
unfolding replace_all
replace_all_lem key value parts pk p =
    replacing_parts (suc (length (render parts))) key value [] parts pk p (omega arith)

expand-fill :
    (key value : Bytes) (params : Assoc Bytes Bytes) (parts : List Part)
    → expand params (fill key value parts) ≡ expand ((key, value) ∷ params) parts
unfolding lookup
expand-fill key value params [] = refl
expand-fill key value params (literal t ∷ parts) =
    ap (λ s. t ++ s) (expand-fill key value params parts)
expand-fill key value params (placeholder k ∷ parts) = elim (Bool-cases (key == k)) [
  | inl same ↦ rw (same, expand-fill key value params parts) refl
  | inr other ↦ rw (other, expand-fill key value params parts) refl
]

fill_plain :
    (key value : Bytes) (parts : List Part)
    → IsPlain value
    → All IsPlainPart parts
    → All IsPlainPart (fill key value parts)
fill_plain key value [] pv p = tt
fill_plain key value (literal t ∷ parts) pv (pt, p) = (pt, fill_plain key value parts pv p)
fill_plain key value (placeholder k ∷ parts) pv (pt, p) = elim (Bool-cases (key == k)) [
  | inl same ↦ (rw same pv, fill_plain key value parts pv p)
  | inr other ↦ (rw other pt, fill_plain key value parts pv p)
]

expand_nil : (parts : List Part) → render parts ≡ expand [] parts
unfolding lookup
expand_nil [] = refl
expand_nil (literal t ∷ parts) = ap (λ s. t ++ s) (expand_nil parts)
expand_nil (placeholder k ∷ parts) = ap (λ s. token_of k ++ s) (expand_nil parts)

abbrev pub IsPlainEntry : Bytes × Bytes → Type 0
IsPlainEntry entry = IsPlain entry.0 × IsPlain entry.1

-- A template of literal texts and placeholders, none of whose texts, keys and values has a brace,
-- becomes the text in which each placeholder is filled with the value of its key, and stays where
-- the key has none.
pub substitute_params-expand :
    (params : Assoc Bytes Bytes) (parts : List Part)
    → All IsPlainEntry params
    → All IsPlainPart parts
    → substitute_params params (render parts) ≡ some (expand params parts)
substitute_params-expand [] parts e p =
    substitute_params_nil (render parts) ∙ ap some (expand_nil parts)
substitute_params-expand ((key, value) ∷ params) parts ((pk, pv), e) p =
    substitute_params_step key value (render parts) (render (fill key value parts)) params
      (replace_all_lem key value parts pk p)
    ∙ substitute_params-expand params (fill key value parts) e (fill_plain key value parts pv p)
    ∙ ap some (expand-fill key value params parts)
