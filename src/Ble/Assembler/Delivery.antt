-- ===== src/Ble/Assembler/Delivery.antt =====
-- What `OfferInbound` returns on the last chunk of a message.
use mathlib.Core.List.{append-nil}
use strixcam.Prelude.{
  ℕ, ◌^◌, ◌<◌, ◌≤◌, String, true, false, some, List, [], ◌∷◌, ◌≡◌, refl, ◌⊎◌, inl, inr, arith,
  length, length-set, get_elem?, get_or, nat_eq, text_keys, eq_iff, ◌==◌, Bool-cases, Option-cases,
  sym, ap, ◌∙◌, subst,
}
use strixcam.Prelude.Assoc.{lookup, lookup-erase, lookup-insert}
use strixcam.Ble.Assembler.{
  ChunkAssembler, ChunkedPayload, InboundState, evict, entry_for, fresh, store_part, with_part,
  offer_inbound, OfferResult, Bytes, join,
}
use strixcam.Ble.Assembler.Invariant.{IsValid, count_true-set, evict-Evicted}
use strixcam.Ble.Assembler.Entries.{entry_for-Opened, offer_cases}
use strixcam.Ble.Assembler.Reassembly.{
  Agrees, AgreesAt, IsPartOf, with_part-Agrees, complete-parts, fresh-Agrees,
}

-- The entry that is opened was there before with the same framing, or it is fresh.
pub entry_state :
    (a : ChunkAssembler) (corr : String) (total : ℕ)
    → ((s : InboundState) × (lookup corr a.inbound ≡ some s) × ((entry_for a corr total).1 ≡ s))
      ⊎ ((entry_for a corr total).1 ≡ fresh total)
unfolding entry_for
entry_state a corr total = elim (Option-cases (lookup corr a.inbound)) [
  | inl missing ↦ rw (missing, entry_for) (inr refl)
  | inr (s, found) ↦ elim (Bool-cases (nat_eq s.total_chunks total)) [
    | inl same ↦ inl (s, found, rw (found, same, entry_for))
    | inr changed ↦ rw (found, changed, entry_for) (inr refl)
  ]
]

entry_other :
    (a : ChunkAssembler) (corr k : String) (total : ℕ) (t : InboundState)
    → IsValid a
    → (corr == k) ≡ false
    → lookup k (entry_for a corr total).0.inbound ≡ some t
    → lookup k a.inbound ≡ some t
unfolding entry_for
entry_other a corr k total t v ne h =
    let ev =
      evict-Evicted a.cfg.max_inflight_inbound a.inbound a.inbound_order v.ordered v.distinct in
    let r = evict a.cfg.max_inflight_inbound a.inbound a.inbound_order in
    ground (
      arith,
      lookup-insert corr k (fresh total) r.0,
      lookup-insert corr k (fresh total) a.inbound,
      ev.kept k t,
    )

module _ (a : ChunkAssembler) (s : InboundState) (c : ChunkedPayload) where
  abbrev pub next : InboundState
  next = with_part s c.chunk_index c.payload

  stored_other :
      (k : String)
      → (c.correlation_id == k) ≡ false
      → lookup k (store_part a s c).0.inbound ≡ lookup k a.inbound
  unfolding store_part
  stored_other k ne = ground (
    arith,
    lookup-insert c.correlation_id k next a.inbound,
    lookup-erase c.correlation_id k a.inbound,
  )

  stored_same :
      (t : InboundState)
      → lookup c.correlation_id a.inbound ≡ some s
      → lookup c.correlation_id (store_part a s c).0.inbound ≡ some t
      → (t ≡ s) ⊎ (t ≡ next)
  unfolding store_part
  stored_same t found h = ground (
    arith,
    lookup-insert c.correlation_id c.correlation_id next a.inbound,
    lookup-erase c.correlation_id c.correlation_id a.inbound,
    eq_iff c.correlation_id c.correlation_id,
  )

  pub stored_payload :
      (p : Bytes)
      → (store_part a s c).1.payload ≡ some p
      → (get_or s.have c.chunk_index false ≡ false)
        × (next.total_chunks ≤ next.received)
        × (p ≡ join next.parts)
  unfolding store_part
  stored_payload p h = ground arith

-- The step, once the entry is open.
store_part-delivers :
    (src : List Bytes) (a : ChunkAssembler) (s : InboundState) (c : ChunkedPayload)
    → a.cfg.max_total_chunks < 2 ^ 32
    → IsValid a
    → lookup c.correlation_id a.inbound ≡ some s
    → c.chunk_index < s.total_chunks
    → Agrees src s
    → get_elem? src c.chunk_index ≡ some c.payload
    → AgreesAt src c.correlation_id (store_part a s c).0
      × ((p : Bytes) → (store_part a s c).1.payload ≡ some p → p ≡ join src)
store_part-delivers src a s c small v found below ag this =
    let fit = v.partial c.correlation_id s found in
    let agrees = with_part-Agrees src s c.chunk_index c.payload fit.parts_len below ag this in
    (
      λ t h. elim (stored_same a s c t found h) [ inl old ↦ rw old ag | inr new ↦ rw new agrees ],
      λ p h.
          let (unseen, done, eq) = stored_payload a s c p h in
          let n = next a s c in
          let more = count_true-set s.have c.chunk_index unseen (omega (arith, fit.have_len)) in
          eq
          ∙ ap join (
              complete-parts src n agrees
                (length-set s.parts c.chunk_index c.payload ∙ fit.parts_len)
                (length-set s.have c.chunk_index true ∙ fit.have_len)
                (omega (arith, more, done, fit.counted, fit.incomplete, fit.within, fit.have_len))),
    )

-- The entry that is opened for a chunk of the message agrees with the message.
entry_for-Agrees :
    (src : List Bytes) (corr : String) (a : ChunkAssembler) (total : ℕ)
    → AgreesAt src corr a
    → total ≡ length src
    → Agrees src (entry_for a corr total).1
entry_for-Agrees src corr a total ag e = elim (entry_state a corr total) [
  | inl (s, found, old) ↦ rw old (ag s found)
  | inr new ↦ rw new (fresh-Agrees src total e)
]

join-single :
    (src : List Bytes) (p : Bytes) → 1 ≡ length src → get_elem? src 0 ≡ some p → p ≡ join src
unfolding join
join-single [] p e h = absurd (omega arith)
join-single (x ∷ []) p e h = ground (arith, append-nil x)
join-single (x ∷ y ∷ r) p e h = absurd (omega arith)

abbrev Delivers : List Bytes → String → ChunkedPayload → ChunkAssembler × OfferResult → Type 0
Delivers src corr c r =
    AgreesAt src corr r.0
    × (c.correlation_id ≡ corr → (p : Bytes) → r.1.payload ≡ some p → p ≡ join src)

offer_own :
    (src : List Bytes) (a : ChunkAssembler) (c : ChunkedPayload)
    → a.cfg.max_total_chunks < 2 ^ 32
    → IsValid a
    → AgreesAt src c.correlation_id a
    → IsPartOf src c
    → Delivers src c.correlation_id c (offer_inbound a c)
offer_own src a c small v ag part =
    offer_cases (Delivers src c.correlation_id c) a c (λ _. (ag, λ _ p h. absurd (cc)))
      (λ good one. (
        ag,
        λ _ p h.
            let first : c.chunk_index ≡ 0 = ground arith in
            join-single src p (sym one ∙ part.0) (rw first at part.1 ∙ h),
      ))
      λ more fits below.
        let o = entry_for-Opened a c.correlation_id c.total_chunks v more fits in
        let r =
          store_part-delivers src _ _ c (rw o.same_cfg small) o.valid o.found (rw o.framing below)
            (entry_for-Agrees src c.correlation_id a c.total_chunks ag part.0) part.1 in
        (r.0, λ _. r.1)

offer_other :
    (src : List Bytes) (corr : String) (a : ChunkAssembler) (c : ChunkedPayload)
    → IsValid a
    → AgreesAt src corr a
    → (c.correlation_id == corr) ≡ false
    → Delivers src corr c (offer_inbound a c)
offer_other src corr a c v ag ne =
    let differs : c.correlation_id ≡ corr → ⊥ = λ e. ground (arith, eq_iff c.correlation_id corr) in
    offer_cases (Delivers src corr c) a c (λ _. (ag, λ e. absurd (differs e)))
      (λ _ _. (ag, λ e. absurd (differs e)))
      λ more fits below. (
        λ t h. ag t (
            entry_other a c.correlation_id corr c.total_chunks t v ne
              (sym (stored_other _ _ c corr ne) ∙ h)),
        λ e. absurd (differs e),
      )

-- One chunk offered: if what has arrived for `corr` agrees with the parts of a message, and the
-- chunk is one of that message's if it is for `corr`, it still agrees, and a payload returned for
-- `corr` is the whole message.
pub offer-delivers :
    (src : List Bytes) (corr : String) (a : ChunkAssembler) (c : ChunkedPayload)
    → a.cfg.max_total_chunks < 2 ^ 32
    → IsValid a
    → AgreesAt src corr a
    → (c.correlation_id ≡ corr → IsPartOf src c)
    → AgreesAt src corr (offer_inbound a c).0
      × (c.correlation_id ≡ corr
          → (p : Bytes) → (offer_inbound a c).1.payload ≡ some p
          → p ≡ join src)
offer-delivers src corr a c small v ag part = elim (Bool-cases (c.correlation_id == corr)) [
  | inl same ↦
      let e : c.correlation_id ≡ corr = (eq_iff c.correlation_id corr).0 same in
      subst (λ k. Delivers src k c (offer_inbound a c)) e
        (offer_own src a c small v (subst (λ k. AgreesAt src k a) (sym e) ag) (part e))
  | inr other ↦ offer_other src corr a c v ag other
]
