-- ===== src/Ble/Assembler/Entries.antt =====
-- One inbound chunk: the entry that `OfferInbound` opens, and what storing the chunk leaves.
use strixcam.Prelude.{
  ℕ, ◌^◌, ◌<◌, ◌≤◌, String, true, false, ◌||◌, none, some, ◌≡◌, refl, inl, inr, arith, length-set,
  get_or, ltb, leb, nat_eq, text_keys, eq_iff, Bool-cases, Option-cases, ◌∙◌,
}
use strixcam.Prelude.Assoc.{
  lookup, keys-insert, lookup-insert, length-insert_new, insert_all, append-Distinct,
  lookup-none_iff,
}
use strixcam.Ble.Assembler.{
  ChunkAssembler, ChunkedPayload, InboundState, evict, entry_for, fresh, store_part, with_part,
  offer_inbound, OfferResult, Bytes, well_formed, accept, reject,
}
use strixcam.Ble.Assembler.Invariant.{
  IsPartial, IsValid, count_true-set, fresh-IsPartial, evict-Evicted, lookup-kept_none,
  overwrite-IsValid, drop-IsValid,
}

-- An entry that `entry_for` hands out.
pub record Opened (a : ChunkAssembler) (corr : String) (total : ℕ)
    (r : ChunkAssembler × InboundState) : Type 0 where
  pub valid : IsValid r.0
  pub same_cfg : r.0.cfg ≡ a.cfg
  pub found : lookup corr r.0.inbound ≡ some r.1
  pub framing : r.1.total_chunks ≡ total

open_new :
    (a : ChunkAssembler) (corr : String) (total : ℕ)
    → IsValid a
    → 1 < total
    → total ≤ a.cfg.max_total_chunks
    → lookup corr a.inbound ≡ none
    → Opened a corr total (entry_for a corr total)
unfolding entry_for
open_new a corr total v more fits missing =
    let ev =
      evict-Evicted a.cfg.max_inflight_inbound a.inbound a.inbound_order v.ordered v.distinct in
    let r = evict a.cfg.max_inflight_inbound a.inbound a.inbound_order in
    let gone = lookup-kept_none corr a.cfg.max_inflight_inbound a.inbound r ev missing in
    let absent = lookup-none_iff corr r.0 gone in
    rw (missing, entry_for)
      (record {
        valid = record {
          ordered = keys-insert corr (fresh total) r.0 ∙ rw (absent, ev.ordered);
          distinct = append-Distinct corr r.1 (rw ev.ordered at absent) ev.distinct;
          bounded = ground (arith, length-insert_new corr (fresh total) r.0 gone, ev.room);
          partial = λ k t h.
              insert_all (IsPartial a.cfg.max_total_chunks) corr k (fresh total) t r.0 h
                (fresh-IsPartial a.cfg.max_total_chunks total more fits)
                (λ e. v.partial k t (ev.kept k t e));
        };
        same_cfg = refl;
        found = ground (arith, lookup-insert corr corr (fresh total) r.0, eq_iff corr corr);
        framing = refl;
      })

open_old :
    (a : ChunkAssembler) (corr : String) (total : ℕ) (s : InboundState)
    → IsValid a
    → 1 < total
    → total ≤ a.cfg.max_total_chunks
    → lookup corr a.inbound ≡ some s
    → Opened a corr total (entry_for a corr total)
unfolding entry_for
open_old a corr total s v more fits found = elim (Bool-cases (nat_eq s.total_chunks total)) [
  | inl same ↦
      rw (found, same, entry_for)
        (record { valid = v; same_cfg = refl; found = found; framing = ground arith })
  | inr changed ↦
      rw (found, changed, entry_for)
        (record {
          valid =
              overwrite-IsValid a corr s (fresh total) v found
                (fresh-IsPartial a.cfg.max_total_chunks total more fits);
          same_cfg = refl;
          found = ground (arith, lookup-insert corr corr (fresh total) a.inbound, eq_iff corr corr);
          framing = refl;
        })
]

pub entry_for-Opened :
    (a : ChunkAssembler) (corr : String) (total : ℕ)
    → IsValid a
    → 1 < total
    → total ≤ a.cfg.max_total_chunks
    → Opened a corr total (entry_for a corr total)
entry_for-Opened a corr total v more fits = elim (Option-cases (lookup corr a.inbound)) [
  | inl missing ↦ open_new a corr total v more fits missing
  | inr (s, found) ↦ open_old a corr total s v more fits found
]

pub with_part-IsPartial :
    (limit : ℕ) (s : InboundState) (i : ℕ) (part : Bytes)
    → limit < 2 ^ 32
    → IsPartial limit s
    → i < s.total_chunks
    → get_or s.have i false ≡ false
    → (with_part s i part).received < s.total_chunks
    → IsPartial limit (with_part s i part)
with_part-IsPartial limit s i part small p below unseen more = record {
  parts_len = length-set s.parts i part ∙ p.parts_len;
  have_len = length-set s.have i true ∙ p.have_len;
  counted = omega (
    arith,
    count_true-set s.have i unseen (omega (arith, p.have_len)),
    p.counted,
    p.incomplete,
    p.within,
  );
  incomplete = more;
  within = p.within;
}

store_part-IsValid :
    (a : ChunkAssembler) (s : InboundState) (c : ChunkedPayload)
    → a.cfg.max_total_chunks < 2 ^ 32
    → IsValid a
    → lookup c.correlation_id a.inbound ≡ some s
    → c.chunk_index < s.total_chunks
    → IsValid (store_part a s c).0
unfolding store_part
store_part-IsValid a s c small v found below =
    elim (Bool-cases (get_or s.have c.chunk_index false)) [
      | inl seen ↦ rw seen v
      | inr unseen ↦
          let s' = with_part s c.chunk_index c.payload in
          elim (Bool-cases (ltb s'.received s'.total_chunks)) [
            | inl more ↦
                rw (unseen, more)
                  (overwrite-IsValid a c.correlation_id s s' v found (
                    with_part-IsPartial a.cfg.max_total_chunks s c.chunk_index c.payload small
                      (v.partial c.correlation_id s found) below unseen (ground arith)))
            | inr done ↦ rw (unseen, done) (drop-IsValid a c.correlation_id v)
          ]
    ]

module _ {ℓ} (P : ChunkAssembler × OfferResult → Type ℓ) (a : ChunkAssembler)
    (c : ChunkedPayload) where
  -- The three ways through `OfferInbound`: rejected, complete in one chunk, or stored.
  pub offer_cases :
      (well_formed a.cfg c ≡ false → P (a, reject))
      → (well_formed a.cfg c ≡ true → c.total_chunks ≡ 1 → P (a, accept (some c.payload)))
      → (1 < c.total_chunks
          → c.total_chunks ≤ a.cfg.max_total_chunks
          → c.chunk_index < c.total_chunks
          → P (
              store_part
                (entry_for a c.correlation_id c.total_chunks).0
                (entry_for a c.correlation_id c.total_chunks).1
                c))
      → P (offer_inbound a c)
  unfolding offer_inbound
  offer_cases bad one many =
      elim (Bool-cases (nat_eq c.total_chunks 0 || ltb a.cfg.max_total_chunks c.total_chunks)) [
        | inl t ↦ rw t (bad (rw t refl))
        | inr t ↦ elim (Bool-cases (leb c.total_chunks c.chunk_index)) [
          | inl i ↦ rw (t, i) (bad (ground arith))
          | inr i ↦ elim (Bool-cases (nat_eq c.total_chunks 1)) [
            | inl o ↦ rw (t, i, o) (one (ground arith) (ground arith))
            | inr o ↦ rw (t, i, o) (many (ground arith) (ground arith) (ground arith))
          ]
        ]
      ]

-- With a cap on the chunks that 32 bits hold, whatever chunk comes in, a valid assembler stays
-- valid: the eviction order lists the incomplete reassemblies, each once; there are at most
-- `max(max_inflight_inbound, 1)` of them; and each has a part and a flag for every chunk, with
-- fewer received than it needs.
pub offer_inbound-IsValid :
    (a : ChunkAssembler) (c : ChunkedPayload)
    → a.cfg.max_total_chunks < 2 ^ 32
    → IsValid a
    → IsValid (offer_inbound a c).0
offer_inbound-IsValid a c small v =
    offer_cases (λ r. IsValid r.0) a c (λ _. v) (λ _ _. v)
      λ more fits below.
        let o = entry_for-Opened a c.correlation_id c.total_chunks v more fits in
        store_part-IsValid _ _ c (rw o.same_cfg small) o.valid o.found (rw o.framing below)

-- No chunk changes the configuration.
pub cfg-offer_inbound :
    (a : ChunkAssembler) (c : ChunkedPayload) → (offer_inbound a c).0.cfg ≡ a.cfg
unfolding offer_inbound
cfg-offer_inbound a c = ground arith
