-- ===== src/Ble/Assembler/Messages.antt =====
-- Whole messages through `OfferInbound`: chunks that a peer cuts with `BeginOutbound`.
use strixcam.Prelude.{
  ℕ, zero, suc, ◌+◌, ◌-◌, ◌^◌, ◌<◌, ◌≤◌, String, false, Option, none, some, List, [], ◌∷◌, ◌++◌,
  map, ◌≡◌, refl, inl, inr, arith, length, get_elem?, All, replicate, text_keys, nat_keys, sym, ap,
  ◌∙◌, subst,
}
use strixcam.Prelude.Assoc.{lookup, contains, Distinct}
use strixcam.Ble.Assembler.{
  ChunkAssembler, ChunkAssemblerConfig, ChunkedPayload, entry_for, offer_inbound, OfferResult,
  Bytes, split, chunk_size, nth_chunk,
}
use strixcam.Ble.Assembler.Invariant.{IsValid}
use strixcam.Ble.Assembler.Entries.{offer_inbound-IsValid, cfg-offer_inbound}
use strixcam.Ble.Assembler.Reassembly.{IsPartOf, AgreesAt}
use strixcam.Ble.Assembler.Delivery.{offer-delivers, entry_state}
use strixcam.Ble.Assembler.Completion.{Progress, fresh-Progress, Steps, offer-Steps}
use strixcam.Ble.Assembler.Split.{
  payloads, join-split, get_elem?-split_from, length-split, total_of,
}

unfoldable pub offer_each : ChunkAssembler → List ChunkedPayload → ChunkAssembler × List OfferResult
offer_each a [] = (a, [])
offer_each a (c ∷ cs) =
    let (a', r) = offer_inbound a c in let (a'', rs) = offer_each a' cs in (a'', r ∷ rs)

-- A chunk is one of those that a peer configured by `cfg` cuts `bytes` into.
abbrev pub IsChunkOf : ChunkAssemblerConfig → String → Bytes → ChunkedPayload → Type 0
IsChunkOf cfg corr bytes c = get_elem? (split cfg corr bytes) c.chunk_index ≡ some c

get_elem?-lt {ℓ} :
    {A : Type ℓ} (xs : List A) (i : ℕ) (x : A) → get_elem? xs i ≡ some x → i < length xs
get_elem?-lt [] i x h = absurd (ground arith)
get_elem?-lt (y ∷ ys) zero x h = omega arith
get_elem?-lt (y ∷ ys) (suc i) x h = omega (arith, get_elem?-lt ys i x h)

get_elem?-payloads :
    (cs : List ChunkedPayload) (i : ℕ) (c : ChunkedPayload)
    → get_elem? cs i ≡ some c
    → get_elem? (payloads cs) i ≡ some c.payload
get_elem?-payloads [] i c h = absurd (ground arith)
get_elem?-payloads (x ∷ cs) zero c h = ground arith
get_elem?-payloads (x ∷ cs) (suc i) c h = get_elem?-payloads cs i c h

length-payloads : (cs : List ChunkedPayload) → length (payloads cs) ≡ length cs
length-payloads [] = refl
length-payloads (c ∷ cs) = ap suc (length-payloads cs)

pub record ChunkFacts (cfg : ChunkAssemblerConfig) (corr : String) (bytes : Bytes)
    (c : ChunkedPayload) : Type 0 where
  pub id : c.correlation_id ≡ corr
  pub total : c.total_chunks ≡ total_of cfg bytes
  pub below : c.chunk_index < c.total_chunks
  pub part : IsPartOf (payloads (split cfg corr bytes)) c

split-nth :
    (cfg : ChunkAssemblerConfig) (corr : String) (bytes : Bytes) (i : ℕ)
    → i < total_of cfg bytes
    → get_elem? (split cfg corr bytes) i
      ≡ some (nth_chunk corr (chunk_size cfg) (total_of cfg bytes) bytes (0 + i))
unfolding split
split-nth cfg corr bytes i h =
    get_elem?-split_from corr (chunk_size cfg) (total_of cfg bytes) bytes 0 (total_of cfg bytes) i h

pub chunk-facts :
    (cfg : ChunkAssemblerConfig) (corr : String) (bytes : Bytes) (c : ChunkedPayload)
    → IsChunkOf cfg corr bytes c
    → ChunkFacts cfg corr bytes c
chunk-facts cfg corr bytes c h =
    let n = total_of cfg bytes in
    let count = length-split cfg corr bytes in
    let i-lt : c.chunk_index < n =
      omega (arith, get_elem?-lt (split cfg corr bytes) c.chunk_index c h, count) in
    let e : some (nth_chunk corr (chunk_size cfg) n bytes (0 + c.chunk_index)) ≡ some c =
      sym (split-nth cfg corr bytes c.chunk_index i-lt) ∙ h in
    let total : c.total_chunks ≡ n = ground arith in
    record {
      id = ground arith;
      total = total;
      below = omega arith;
      part = (
        omega (arith, length-payloads (split cfg corr bytes), count),
        get_elem?-payloads (split cfg corr bytes) c.chunk_index c h,
      );
    }

-- Every payload that a history returns for `corr` is `bytes`.
abbrev pub ReturnsOnly : String → Bytes → ChunkAssembler → List ChunkedPayload → Type 0
ReturnsOnly corr bytes a [] = Unit {0}
ReturnsOnly corr bytes a (c ∷ cs) =
    (c.correlation_id ≡ corr → (p : Bytes) → (offer_inbound a c).1.payload ≡ some p → p ≡ bytes)
    × ReturnsOnly corr bytes (offer_inbound a c).0 cs

-- In any history of a valid assembler that holds nothing yet for `corr`, if every chunk that
-- carries `corr` is one that a peer cuts `bytes` (below 4 GiB) into, then no call returns anything
-- but `bytes` for `corr`: whatever the order, the duplicates, the chunks of other transfers
-- (malformed ones too), and the evictions.
pub offers-ReturnsOnly :
    (cfg : ChunkAssemblerConfig) (corr : String) (bytes : Bytes) (a : ChunkAssembler)
    (cs : List ChunkedPayload)
    → length bytes < 2 ^ 32
    → a.cfg.max_total_chunks < 2 ^ 32
    → IsValid a
    → lookup corr a.inbound ≡ none
    → All (λ c. c.correlation_id ≡ corr → IsChunkOf cfg corr bytes c) cs
    → ReturnsOnly corr bytes a cs
offers-ReturnsOnly cfg corr bytes a cs short small v none_yet genuine =
    go a cs small v (λ s h. absurd (cc)) genuine
  where
    go :
        (b : ChunkAssembler) (ds : List ChunkedPayload)
        → b.cfg.max_total_chunks < 2 ^ 32
        → IsValid b
        → AgreesAt (payloads (split cfg corr bytes)) corr b
        → All (λ c. c.correlation_id ≡ corr → IsChunkOf cfg corr bytes c) ds
        → ReturnsOnly corr bytes b ds
    go b [] s w ag g = tt
    go b (d ∷ ds) s w ag g =
        let step =
          offer-delivers (payloads (split cfg corr bytes)) corr b d s w ag
            (λ e. (chunk-facts cfg corr bytes d (g.0 e)).part) in
        (
          λ e p h. step.1 e p h ∙ join-split cfg corr bytes short,
          go (offer_inbound b d).0 ds (rw (cfg-offer_inbound b d) s) (offer_inbound-IsValid b d s w)
              step.0 g.1,
        )

abbrev pub indices : List ChunkedPayload → List ℕ
indices = map (λ c. c.chunk_index)

abbrev Unseen : List ℕ → List ChunkedPayload → Type 0
Unseen seen = All (λ c. contains c.chunk_index seen ≡ false)

Unseen-cons :
    (i : ℕ) (seen : List ℕ) (cs : List ChunkedPayload)
    → contains i (indices cs) ≡ false
    → Unseen seen cs
    → Unseen (i ∷ seen) cs
unfolding contains
Unseen-cons i seen [] h u = tt
Unseen-cons i seen (c ∷ cs) h u = (ground (arith, u.0), Unseen-cons i seen cs (ground arith) u.1)

Unseen-nil : (cs : List ChunkedPayload) → Unseen [] cs
unfolding contains
Unseen-nil [] = tt
Unseen-nil (c ∷ cs) = (refl, Unseen-nil cs)

abbrev pub replies : List OfferResult → List (Option Bytes)
replies = map (λ r. r.payload)

-- The chunks still to come, all for one message: all but the last are answered by nothing.
module _ (cfg : ChunkAssemblerConfig) (corr : String) (bytes : Bytes)
    (short : length bytes < 2 ^ 32) (several : 1 < total_of cfg bytes) where
  abbrev pub src : List Bytes
  src = payloads (split cfg corr bytes)

  abbrev pub Finishes : ChunkAssembler → List ChunkedPayload → Type 0
  Finishes a cs =
      (replies (offer_each a cs).1 ≡ replicate (length cs - 1) none ++ some bytes ∷ [])
      × (lookup corr (offer_each a cs).0.inbound ≡ none)

  steps :
      (a : ChunkAssembler) (seen : List ℕ) (c : ChunkedPayload)
      → a.cfg.max_total_chunks < 2 ^ 32
      → total_of cfg bytes ≤ a.cfg.max_total_chunks
      → IsValid a
      → Progress seen (entry_for a corr (total_of cfg bytes)).1
      → contains c.chunk_index seen ≡ false
      → ChunkFacts cfg corr bytes c
      → Steps c.total_chunks seen c (offer_inbound a c)
  steps a seen c small fits v p new f =
      offer-Steps a c seen small v (omega (arith, f.total)) (omega (arith, f.total)) f.below new
        (rw (f.id, f.total) p)

  finishes :
      (a : ChunkAssembler) (seen : List ℕ) (c : ChunkedPayload) (cs : List ChunkedPayload)
      → a.cfg.max_total_chunks < 2 ^ 32
      → total_of cfg bytes ≤ a.cfg.max_total_chunks
      → IsValid a
      → AgreesAt src corr a
      → Progress seen (entry_for a corr (total_of cfg bytes)).1
      → length seen + length (c ∷ cs) ≡ total_of cfg bytes
      → All (IsChunkOf cfg corr bytes) (c ∷ cs)
      → Distinct (indices (c ∷ cs))
      → Unseen seen (c ∷ cs)
      → Finishes a (c ∷ cs)
  unfolding offer_each
  finishes a seen c [] small fits v ag p count parts d u =
      let f = chunk-facts cfg corr bytes c parts.0 in
      let st = steps a seen c small fits v p u.0 f in
      let (gone, out, e) = st.ends (omega (arith, f.total, count)) in
      let whole =
        (offer-delivers src corr a c small v ag (λ _. f.part)).1 f.id out e
        ∙ join-split cfg corr bytes short in
      (cc (e, whole), subst (λ k. lookup k (offer_inbound a c).0.inbound ≡ none) f.id gone)
  finishes a seen c (c' ∷ cs) small fits v ag p count parts d u =
      let f = chunk-facts cfg corr bytes c parts.0 in
      let st = steps a seen c small fits v p u.0 f in
      let (silent, p') = st.goes_on (omega (arith, f.total, count)) in
      let a' = (offer_inbound a c).0 in
      let rest =
        finishes a' (c.chunk_index ∷ seen) c' cs (rw (cfg-offer_inbound a c) small)
          (rw (cfg-offer_inbound a c) fits) (offer_inbound-IsValid a c small v)
          (offer-delivers src corr a c small v ag (λ _. f.part)).0
          (subst (λ n. Progress (c.chunk_index ∷ seen) (entry_for a' corr n).1) f.total
            (subst (λ k. Progress (c.chunk_index ∷ seen) (entry_for a' k c.total_chunks).1) f.id
              p'))
          (omega (arith, count)) parts.1 d.1 (Unseen-cons c.chunk_index seen (c' ∷ cs) d.0 u.1) in
      let one_less : length (c ∷ c' ∷ cs) - 1 ≡ suc (length (c' ∷ cs) - 1) = omega arith in
      (rw (one_less, silent) (ap (◌∷◌ none) rest.0), rest.1)

  -- A message of several chunks, within the receiver's limit, whose chunks arrive each once and in
  -- any order at a valid assembler that holds nothing for its id: every chunk but the last is
  -- answered by no payload, the last by exactly the message, and nothing of it stays behind.
  pub offer_each-completes :
      (a : ChunkAssembler) (cs : List ChunkedPayload)
      → a.cfg.max_total_chunks < 2 ^ 32
      → total_of cfg bytes ≤ a.cfg.max_total_chunks
      → IsValid a
      → lookup corr a.inbound ≡ none
      → length cs ≡ total_of cfg bytes
      → All (IsChunkOf cfg corr bytes) cs
      → Distinct (indices cs)
      → Finishes a cs
  offer_each-completes a [] small fits v absent count parts d = absurd (omega arith)
  offer_each-completes a (c ∷ cs) small fits v absent count parts d =
      let start : Progress [] (entry_for a corr (total_of cfg bytes)).1 =
        elim (entry_state a corr (total_of cfg bytes)) [
          | inl (s, found, _) ↦ absurd (cc)
          | inr new ↦ rw new (fresh-Progress (total_of cfg bytes))
        ] in
      finishes a [] c cs small fits v (λ s h. absurd (cc)) start (omega arith) parts d
        (Unseen-nil (c ∷ cs))
