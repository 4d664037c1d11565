-- ===== src/Ble/Assembler/Reassembly.antt =====
-- The parts of a reassembly beside the chunks of the message it is for.
use strixcam.Prelude.{
  ℕ, zero, suc, ◌<◌, ◌≤◌, String, Bool, true, false, some, List, [], ◌∷◌, ◌≡◌, ◌≢◌, refl, inl, inr,
  arith, length, get_elem?, list_ext, get_or, set, replicate, nat_eq, text_keys, get_elem?-set_self,
  get_elem?-set_ne, Bool-cases, sym, ap, ◌∙◌,
}
use strixcam.Prelude.Assoc.{lookup}
use strixcam.Ble.Assembler.{ChunkAssembler, ChunkedPayload, InboundState, fresh, with_part, Bytes}
use strixcam.Ble.Assembler.Invariant.{count_true}

-- What has arrived of a message agrees with the parts `src` of that message.
pub record Agrees (src : List Bytes) (s : InboundState) : Type 0 where
  pub framing : s.total_chunks ≡ length src
  pub agreed : (i : ℕ) → get_or s.have i false ≡ true → get_elem? s.parts i ≡ get_elem? src i

abbrev pub AgreesAt : List Bytes → String → ChunkAssembler → Type 0
AgreesAt src corr a = (s : InboundState) → lookup corr a.inbound ≡ some s → Agrees src s

-- A chunk is one of the message's: right framing, and the part of its index.
abbrev pub IsPartOf : List Bytes → ChunkedPayload → Type 0
IsPartOf src c = (c.total_chunks ≡ length src) × (get_elem? src c.chunk_index ≡ some c.payload)

pub get_or-replicate : (n i : ℕ) → get_or (replicate n false) i false ≡ false
get_or-replicate zero i = refl
get_or-replicate (suc n) zero = refl
get_or-replicate (suc n) (suc i) = get_or-replicate n i

pub get_or-set_ne :
    (bs : List Bool) (i j : ℕ) → i ≢ j → get_or (set bs i true) j false ≡ get_or bs j false
get_or-set_ne [] i j h = refl
get_or-set_ne (b ∷ bs) zero zero h = absurd (h refl)
get_or-set_ne (b ∷ bs) zero (suc j) h = refl
get_or-set_ne (b ∷ bs) (suc i) zero h = refl
get_or-set_ne (b ∷ bs) (suc i) (suc j) h = get_or-set_ne bs i j (λ e. h (ap suc e))

pub fresh-Agrees : (src : List Bytes) (total : ℕ) → total ≡ length src → Agrees src (fresh total)
fresh-Agrees src total e = record {
  framing = e;
  agreed = λ i h. absurd (cc (get_or-replicate total i));
}

pub with_part-Agrees :
    (src : List Bytes) (s : InboundState) (i : ℕ) (part : Bytes)
    → length s.parts ≡ s.total_chunks
    → i < s.total_chunks
    → Agrees src s
    → get_elem? src i ≡ some part
    → Agrees src (with_part s i part)
with_part-Agrees src s i part len below ag this = record {
  framing = ag.framing;
  agreed = λ j h. elim (Bool-cases (nat_eq i j)) [
    | inl same ↦
        let e : i ≡ j = ground arith in
        rw (← e) (get_elem?-set_self s.parts i part (omega arith) ∙ sym this)
    | inr other ↦
        let d : i ≢ j = ground arith in
        get_elem?-set_ne s.parts part d ∙ ag.agreed j (sym (get_or-set_ne s.have i j d) ∙ h)
  ];
}

pub count_true-le : (bs : List Bool) → count_true bs ≤ length bs
count_true-le [] = omega arith
count_true-le (true ∷ bs) = omega (arith, count_true-le bs)
count_true-le (false ∷ bs) = omega (arith, count_true-le bs)

pub all_true :
    (bs : List Bool) (i : ℕ) → count_true bs ≡ length bs → i < length bs → get_or bs i false ≡ true
all_true [] i e h = absurd (omega arith)
all_true (true ∷ bs) zero e h = refl
all_true (true ∷ bs) (suc i) e h = all_true bs i (omega arith) (omega arith)
all_true (false ∷ bs) i e h = absurd (omega (arith, count_true-le bs))

-- When every flag is set, the parts are the message's.
pub complete-parts :
    (src : List Bytes) (s : InboundState)
    → Agrees src s
    → length s.parts ≡ s.total_chunks
    → length s.have ≡ s.total_chunks
    → count_true s.have ≡ s.total_chunks
    → s.parts ≡ src
complete-parts src s ag parts have full =
    list_ext s.parts src (parts ∙ ag.framing)
      (λ i h. ag.agreed i (all_true s.have i (omega arith) (omega arith)))
