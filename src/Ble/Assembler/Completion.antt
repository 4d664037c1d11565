-- ===== src/Ble/Assembler/Completion.antt =====
-- The progress of one reassembly in `OfferInbound`, chunk by chunk.
use strixcam.Prelude.{
  ℕ, zero, suc, ◌+◌, ◌%◌, ◌^◌, ◌<◌, ◌≤◌, String, Bool, true, false, none, some, List, [], ◌∷◌, ◌≡◌,
  refl, inl, inr, arith, length, get_or, set, nat_eq, text_keys, nat_keys, eq_iff, Bool-cases, ap,
  ◌∙◌, subst,
}
use strixcam.Prelude.Assoc.{lookup, contains, lookup-erase, lookup-insert}
use strixcam.Ble.Assembler.{
  ChunkAssembler, ChunkedPayload, InboundState, entry_for, fresh, store_part, with_part,
  offer_inbound, OfferResult, Bytes, accept, join,
}
use strixcam.Ble.Assembler.Invariant.{IsPartial, IsValid}
use strixcam.Ble.Assembler.Entries.{entry_for-Opened, offer_cases}
use strixcam.Ble.Assembler.Reassembly.{get_or-set_ne, get_or-replicate}

-- The flags are set at the indices seen, and `received` counts them.
pub record Progress (seen : List ℕ) (s : InboundState) : Type 0 where
  pub received : s.received ≡ length seen
  pub flags : (i : ℕ) → get_or s.have i false ≡ contains i seen

pub fresh-Progress : (total : ℕ) → Progress [] (fresh total)
unfolding contains
fresh-Progress total = record { received = refl; flags = λ i. get_or-replicate total i }

get_or-set_self : (bs : List Bool) (i : ℕ) → i < length bs → get_or (set bs i true) i false ≡ true
get_or-set_self [] i h = absurd (omega arith)
get_or-set_self (b ∷ bs) zero h = refl
get_or-set_self (b ∷ bs) (suc i) h = get_or-set_self bs i (omega arith)

with_part-flags :
    (seen : List ℕ) (s : InboundState) (i j : ℕ) (part : Bytes)
    → Progress seen s
    → i < length s.have
    → get_or (with_part s i part).have j false ≡ contains j (i ∷ seen)
unfolding contains
with_part-flags seen s i j part p below = elim (Bool-cases (nat_eq i j)) [
  | inl same ↦ let e : i ≡ j = ground arith in rw same (rw (← e) (get_or-set_self s.have i below))
  | inr other ↦ rw other (get_or-set_ne s.have i j (ground arith) ∙ p.flags j)
]

-- What storing a chunk not seen before does to an entry.
module _ (a : ChunkAssembler) (s : InboundState) (c : ChunkedPayload)
    (unseen : get_or s.have c.chunk_index false ≡ false) where
  abbrev after : ChunkAssembler × OfferResult
  after = store_part a s c

  store_more :
      (s.received + 1) % 2 ^ 32 < s.total_chunks
      → (after.1 ≡ accept none)
        × (lookup c.correlation_id after.0.inbound ≡ some (with_part s c.chunk_index c.payload))
  unfolding store_part
  store_more h = ground (
    arith,
    lookup-insert c.correlation_id c.correlation_id (with_part s c.chunk_index c.payload) a.inbound,
    eq_iff c.correlation_id c.correlation_id,
  )

  store_last :
      s.total_chunks ≤ (s.received + 1) % 2 ^ 32
      → (after.1 ≡ accept (some (join (with_part s c.chunk_index c.payload).parts)))
        × (lookup c.correlation_id after.0.inbound ≡ none)
  unfolding store_part
  store_last h = ground (
    arith,
    lookup-erase c.correlation_id c.correlation_id a.inbound,
    eq_iff c.correlation_id c.correlation_id,
  )

entry_for_found :
    (a : ChunkAssembler) (corr : String) (s : InboundState)
    → lookup corr a.inbound ≡ some s
    → (entry_for a corr s.total_chunks).1 ≡ s
unfolding entry_for
entry_for_found a corr s found = rw (found, entry_for) (ground arith)

-- One step, on the reassembly that would be opened for the chunk.
pub record Steps (total : ℕ) (seen : List ℕ) (c : ChunkedPayload) (r : ChunkAssembler × OfferResult)
    : Type 0 where
  pub accepted : r.1.accepted ≡ true
  pub goes_on :
      length seen + 1 < total
      → (r.1.payload ≡ none)
        × Progress (c.chunk_index ∷ seen) (entry_for r.0 c.correlation_id total).1
  pub ends :
      length seen + 1 ≡ total
      → (lookup c.correlation_id r.0.inbound ≡ none) × (p : Bytes) × (r.1.payload ≡ some p)

pub store_part-accepted :
    (a : ChunkAssembler) (s : InboundState) (c : ChunkedPayload)
    → (store_part a s c).1.accepted ≡ true
unfolding store_part
store_part-accepted a s c = ground arith

store_part-Steps :
    (limit : ℕ) (a : ChunkAssembler) (s : InboundState) (c : ChunkedPayload) (seen : List ℕ)
    → limit < 2 ^ 32
    → IsPartial limit s
    → c.chunk_index < s.total_chunks
    → contains c.chunk_index seen ≡ false
    → Progress seen s
    → Steps s.total_chunks seen c (store_part a s c)
store_part-Steps limit a s c seen small fit below new p =
    let unseen = p.flags c.chunk_index ∙ new in
    let s' = with_part s c.chunk_index c.payload in
    let fits : s.total_chunks ≤ limit = fit.within in
    let count : s.received ≡ length seen = p.received in
    record {
      accepted = store_part-accepted a s c;
      goes_on = λ h.
          let (result, found) = store_more a s c unseen (omega (arith, count, fits)) in
          let now : Progress (c.chunk_index ∷ seen) s' = record {
            received = omega (arith, count, fits);
            flags = λ j.
                with_part-flags seen s c.chunk_index j c.payload p (omega (arith, fit.have_len));
          } in
          (
            ap (λ r. r.payload) result,
            rw (entry_for_found (store_part a s c).0 c.correlation_id s' found) now,
          );
      ends = λ h.
          let (result, gone) = store_last a s c unseen (omega (arith, count, fits)) in
          (gone, join s'.parts, ap (λ r. r.payload) result);
    }

pub offer-Steps :
    (a : ChunkAssembler) (c : ChunkedPayload) (seen : List ℕ)
    → a.cfg.max_total_chunks < 2 ^ 32
    → IsValid a
    → 1 < c.total_chunks
    → c.total_chunks ≤ a.cfg.max_total_chunks
    → c.chunk_index < c.total_chunks
    → contains c.chunk_index seen ≡ false
    → Progress seen (entry_for a c.correlation_id c.total_chunks).1
    → Steps c.total_chunks seen c (offer_inbound a c)
offer-Steps a c seen small v more fits below new p =
    offer_cases (Steps c.total_chunks seen c) a c (λ bad. absurd (ground arith))
      (λ _ one. absurd (omega arith))
      λ _ _ _.
        let e = entry_for a c.correlation_id c.total_chunks in
        let o = entry_for-Opened a c.correlation_id c.total_chunks v more fits in
        let fit = o.valid.partial c.correlation_id e.1 o.found in
        subst (λ n. Steps n seen c (store_part e.0 e.1 c)) o.framing
          (store_part-Steps e.0.cfg.max_total_chunks e.0 e.1 c seen (rw o.same_cfg small) fit
            (rw o.framing below) new p)
