-- ===== src/Overlay/Substitute/Tokens.antt =====
-- Where the token of a key is found, and what the loop does there.
use mathlib.Core.List.{append_assoc, append-nil}
use strixcam.Prelude.{
  ℕ, ◌+◌, zero, suc, Bool, true, false, Option, none, some, [], ◌∷◌, ◌++◌, nat_eq, if◌then◌else◌,
  length, take, ◌≡◌, refl, sym, ap, ◌∙◌, arith, All, All-append, drop_at, take-append_add,
  drop-append_add, Option-cases, inl, inr, ◌==◌,
}
use strixcam.Prelude.Bytes.{Bytes, bytes_keys, bytes_eq, starts_with, find, one_later}
use strixcam.Overlay.Substitute.{replacing, token_of}
use strixcam.Overlay.Substitute.Loop.{replacing-none, replacing-some}

abbrev pub is_brace : ℕ → Bool
is_brace c = if nat_eq c b'{' then true else nat_eq c b'}'

abbrev pub IsPlain : Bytes → Type 0
IsPlain = All (λ c. is_brace c ≡ false)

abbrev later_by : ℕ → Option ℕ → Option ℕ
later_by zero o = o
later_by (suc n) o = one_later (later_by n o)

later_by-some : (n i : ℕ) → later_by n (some i) ≡ some (n + i)
later_by-some zero i = ap some (omega arith)
later_by-some (suc n) i = rw (later_by-some n i) (ap some (omega arith))

later_by-none : (n : ℕ) → later_by n none ≡ none
later_by-none zero = refl
later_by-none (suc n) = rw (later_by-none n) refl

abbrev IsClosed : Bytes → Type 0
IsClosed = All (λ c. nat_eq c b'{' ≡ false)

pub plain-IsClosed : (t : Bytes) → IsPlain t → IsClosed t
plain-IsClosed [] h = tt
plain-IsClosed (c ∷ cs) (plain, h) = (ground arith, plain-IsClosed cs h)

-- No token starts inside a text with no opening brace.
pub find_closed :
    (token pre rest : Bytes)
    → IsClosed pre
    → find (b'{' ∷ token) (pre ++ rest) ≡ later_by (length pre) (find (b'{' ∷ token) rest)
unfolding find starts_with
find_closed token [] rest h = refl
find_closed token (c ∷ cs) rest (plain, h) = rw (find_closed token cs rest h) (ground arith)

-- Keys without braces stand in a token each in full.
starts_with-token :
    (key k rest : Bytes)
    → IsPlain key
    → IsPlain k
    → starts_with (key ++ b'}' ∷ b'}' ∷ []) (k ++ b'}' ∷ b'}' ∷ rest) ≡ (key == k)
unfolding starts_with bytes_eq
starts_with-token [] [] rest p q = refl
starts_with-token [] (c ∷ cs) rest p (plain, q) = ground arith
starts_with-token (x ∷ xs) [] rest (plain, p) q = ground arith
starts_with-token (x ∷ xs) (c ∷ cs) rest (px, p) (pc, q) =
    ground (arith, starts_with-token xs cs rest p q)

starts_with_self : (xs rest : Bytes) → starts_with xs (xs ++ rest) ≡ true
unfolding starts_with
starts_with_self [] rest = refl
starts_with_self (x ∷ xs) rest = ground (arith, starts_with_self xs rest)

find-token_self : (key rest : Bytes) → find (token_of key) (token_of key ++ rest) ≡ some 0
unfolding find
find-token_self key rest = rw (starts_with_self (token_of key) rest) refl

not_opened :
    (token k rest : Bytes)
    → IsPlain k
    → starts_with (b'{' ∷ token) ((k ++ b'}' ∷ b'}' ∷ []) ++ rest) ≡ false
unfolding starts_with
not_opened token [] rest q = refl
not_opened token (c ∷ cs) rest (plain, q) = ground arith

-- The placeholder of another key is passed over.
pub find-token_other :
    (key k rest : Bytes)
    → IsPlain key
    → IsPlain k
    → (key == k) ≡ false
    → find (token_of key) (token_of k ++ rest)
      ≡ later_by (length (token_of k)) (find (token_of key) rest)
unfolding find starts_with
find-token_other key k rest p q ne =
    let inner = k ++ b'}' ∷ b'}' ∷ [] in
    let closed = find_closed (b'{' ∷ key ++ b'}' ∷ b'}' ∷ []) inner rest (
      All-append (λ c. nat_eq c b'{' ≡ false) k (b'}' ∷ b'}' ∷ []) (plain-IsClosed k q)
        (refl, (refl, tt))) in
    let here = starts_with-token key k rest p q ∙ ne in
    let eq : starts_with (key ++ b'}' ∷ b'}' ∷ []) (inner ++ rest) ≡ false =
      ap (starts_with (key ++ b'}' ∷ b'}' ∷ [])) (append_assoc k (b'}' ∷ b'}' ∷ []) rest) ∙ here in
    let next = not_opened (key ++ b'}' ∷ b'}' ∷ []) k rest q in ground (arith, closed, eq, next)

cong2 : (f : Bytes → Bytes → Option Bytes) {a b c d : Bytes} → a ≡ b → c ≡ d → f a c ≡ f b d
cong2 f p q = cc

-- The search goes on behind what it has passed over.
pub replacing_over :
    (fuel : ℕ) (token value passed pre rest : Bytes)
    → find token (pre ++ rest) ≡ later_by (length pre) (find token rest)
    → replacing (suc fuel) token value passed (pre ++ rest)
      ≡ replacing (suc fuel) token value (passed ++ pre) rest
replacing_over fuel token value passed pre rest h = elim (Option-cases (find token rest)) [
  | inl e ↦
      replacing-none fuel token value passed (pre ++ rest)
        (h ∙ ap (later_by (length pre)) e ∙ later_by-none (length pre))
      ∙ ap some (sym (append_assoc passed pre rest))
      ∙ sym (replacing-none fuel token value (passed ++ pre) rest e)
  | inr (i, e) ↦
      replacing-some fuel (length pre + i) token value passed (pre ++ rest)
        (h ∙ ap (later_by (length pre)) e ∙ later_by-some (length pre) i)
      ∙ cong2 (replacing fuel token value)
          (ap (λ t. (passed ++ t) ++ value) (take-append_add i pre rest)
            ∙ ap (λ t. t ++ value) (sym (append_assoc passed pre (take i rest))))
          (drop_at (length pre + i + length token) (length pre + (i + length token)) (pre ++ rest)
              (omega arith)
            ∙ drop-append_add (i + length token) pre rest)
      ∙ sym (replacing-some fuel i token value (passed ++ pre) rest e)
]

-- The placeholder of the key makes way for the value.
pub replacing_here :
    (fuel : ℕ) (key value passed rest : Bytes)
    → replacing (suc fuel) (token_of key) value passed (token_of key ++ rest)
      ≡ replacing fuel (token_of key) value (passed ++ value) rest
replacing_here fuel key value passed rest =
    let token = token_of key in
    replacing-some fuel 0 token value passed (token ++ rest) (find-token_self key rest)
    ∙ cong2 (replacing fuel token value) (ap (λ t. t ++ value) (append-nil passed)) (
        drop_at (0 + length token) (length token + 0) (token ++ rest) (omega arith)
        ∙ drop-append_add 0 token rest)
