-- ===== src/Ble/Assembler/Flow.antt =====
-- Outbound flow control: `OnAck` and what is still to be sent.
pub mod Transfer
use strixcam.Prelude.{
  ℕ, zero, suc, ◌+◌, ◌-◌, ◌%◌, ◌^◌, ◌<◌, ◌≤◌, String, Bool, true, false, Option, none, some, List,
  [], ◌∷◌, ◌++◌, map, ◌≡◌, ◌≢◌, refl, inl, inr, arith, length, get_elem?, drop, drop-all, replicate,
  ltb, nat_eq, text_keys, eq_iff, Option-cases, Bool-cases, sym, ap, ◌∙◌,
}
use mathlib.Core.Path.{ap₂}
use strixcam.Ble.Assembler.Split.{total_of, length-split, chunk_count-lt}
use strixcam.Prelude.Assoc.{lookup, insert, erase, lookup-insert, lookup-erase, insert_all}
use strixcam.Ble.Assembler.{
  ChunkAssembler, ChunkedPayload, OutboundState, Bytes, Sent, emit, on_ack, begin_outbound, split,
  chunk_size,
}

-- A pending transfer: chunk 0 is out, and the indices fit in 32 bits.
pub record IsPending (s : OutboundState) : Type 0 where
  pub started : 0 < s.next_to_send
  pub within : s.next_to_send ≤ length s.chunks
  pub small : length s.chunks < 2 ^ 32

abbrev pub IsSending : ChunkAssembler → Type 0
IsSending a = (k : String) (s : OutboundState) → lookup k a.outbound ≡ some s → IsPending s

-- What the callback gets when chunks are sent.
abbrev pub through : Option ℕ → List ChunkedPayload → Sent
through none cs = []
through (some f) cs = map (λ c. (f, c)) cs

-- What a transfer still has to send.
abbrev pub unsent_of : Option OutboundState → Sent
unsent_of none = []
unsent_of (some s) = through s.send (drop s.next_to_send s.chunks)

unfoldable pub unsent : ChunkAssembler → String → Sent
unsent a corr = unsent_of (lookup corr a.outbound)

through-nil : (f : Option ℕ) → through f [] ≡ []
through-nil none = refl
through-nil (some f) = refl

-- One more element off a list.
emit-drop :
    (f : Option ℕ) (cs : List ChunkedPayload) (n : ℕ)
    → n < length cs
    → emit f (get_elem? cs n) ++ through f (drop (n + 1) cs) ≡ through f (drop n cs)
emit-drop f [] n h = absurd (omega arith)
emit-drop none (c ∷ cs) n h = ground arith
emit-drop (some f) (c ∷ cs) zero h = refl
emit-drop (some f) (c ∷ cs) (suc n) h =
    let e : suc n + 1 ≡ suc (n + 1) = omega arith in rw e (emit-drop (some f) cs n (omega arith))

last_sent : (n : ℕ) → 0 < n → n < 2 ^ 32 → (n + 2 ^ 32 - 1) % 2 ^ 32 ≡ n - 1
last_sent n h l = omega arith

-- The three things that an acknowledgement can do, on the transfer of its id.
pub data Acked (a : ChunkAssembler) (corr : String) (i : ℕ) (s : OutboundState)
    (r : ChunkAssembler × Bool × Sent) : Type 0 where
  ignored : i + 1 ≢ s.next_to_send → r ≡ (a, false, []) → Acked a corr i s r
  released :
      i + 1 ≡ s.next_to_send
      → s.next_to_send < length s.chunks
      → r ≡ (
        record a {
          outbound = insert corr (record s { next_to_send = s.next_to_send + 1 }) a.outbound;
        },
        false,
        emit s.send (get_elem? s.chunks s.next_to_send),
      )
      → Acked a corr i s r
  finished :
      i + 1 ≡ s.next_to_send
      → s.next_to_send ≡ length s.chunks
      → r ≡ (record a { outbound = erase corr a.outbound }, true, [])
      → Acked a corr i s r

-- An acknowledgement of a pending transfer: of the chunk sent last it releases the next chunk or,
-- after the last chunk, ends the transfer; any other index is ignored.
pub on_ack-Acked :
    (a : ChunkAssembler) (corr : String) (i : ℕ) (s : OutboundState)
    → IsPending s
    → lookup corr a.outbound ≡ some s
    → Acked a corr i s (on_ack a corr i)
unfolding on_ack
on_ack-Acked a corr i s p found =
    let expected = last_sent s.next_to_send p.started (omega (arith, p.within, p.small)) in
    elim (Bool-cases (nat_eq i (s.next_to_send - 1))) [
      | inl hit ↦ elim (Bool-cases (ltb s.next_to_send (length s.chunks))) [
        | inl more ↦
            let room : s.next_to_send < length s.chunks = ground arith in
            let e : (s.next_to_send + 1) % 2 ^ 32 ≡ s.next_to_send + 1 =
              omega (arith, room, p.small) in
            released (ground (arith, p.started)) room (rw (found, expected, hit, more, e, on_ack))
        | inr last ↦
            finished (ground (arith, p.started)) (ground (arith, p.within))
              (rw (found, expected, hit, last, on_ack))
      ]
      | inr miss ↦ ignored (ground (arith, p.started)) (rw (found, expected, miss, on_ack))
    ]

acked-IsSending :
    (a : ChunkAssembler) (corr : String) (i : ℕ) (s : OutboundState)
    → IsSending a
    → lookup corr a.outbound ≡ some s
    → IsSending (on_ack a corr i).0
acked-IsSending a corr i s v found k t h = elim (on_ack-Acked a corr i s (v corr s found) found) [
  | ignored _ e ↦ v k t (rw e at h)
  | released _ more e ↦
      let s' = record s { next_to_send = s.next_to_send + 1 } in
      let p = v corr s found in
      let p' : IsPending s' = record {
        started = omega arith;
        within = omega (arith, more);
        small = p.small;
      } in
      insert_all IsPending corr k s' t a.outbound (rw e at h) p' (v k t)
  | finished _ _ e ↦
      v k t (ground (arith, lookup-erase corr k a.outbound, ap (λ r. lookup k r.0.outbound) e))
]

unsent_of-on_ack :
    (a : ChunkAssembler) (corr : String) (i : ℕ) (s : OutboundState)
    → IsPending s
    → lookup corr a.outbound ≡ some s
    → (on_ack a corr i).2 ++ unsent (on_ack a corr i).0 corr ≡ unsent a corr
unfolding unsent
unsent_of-on_ack a corr i s p found = elim (on_ack-Acked a corr i s p found) [
  | ignored _ e ↦ rw e
  | released _ more e ↦
      let s' = record s { next_to_send = s.next_to_send + 1 } in
      let here : lookup corr (insert corr s' a.outbound) ≡ some s' =
        ground (arith, lookup-insert corr corr s' a.outbound, eq_iff corr corr) in
      rw (e, here, found) (emit-drop s.send s.chunks s.next_to_send more)
  | finished _ last e ↦
      let gone : lookup corr (erase corr a.outbound) ≡ none =
        ground (arith, lookup-erase corr corr a.outbound, eq_iff corr corr) in
      let nothing : drop s.next_to_send s.chunks ≡ [] =
        drop-all s.next_to_send s.chunks (omega (arith, last)) in
      rw (e, gone, found, nothing) (sym (through-nil s.send))
]

on_ack_unknown :
    (a : ChunkAssembler) (corr : String) (i : ℕ)
    → lookup corr a.outbound ≡ none
    → on_ack a corr i ≡ (a, false, [])
unfolding on_ack
on_ack_unknown a corr i missing = rw (missing, on_ack)

-- One acknowledgement, of any id and index: what it sends for the id, followed by what is then
-- still to be sent, is what was to be sent before. Nothing is skipped, repeated or reordered.
pub on_ack-unsent :
    (a : ChunkAssembler) (corr : String) (i : ℕ)
    → IsSending a
    → ((on_ack a corr i).2 ++ unsent (on_ack a corr i).0 corr ≡ unsent a corr)
      × IsSending (on_ack a corr i).0
on_ack-unsent a corr i v = elim (Option-cases (lookup corr a.outbound)) [
  | inl missing ↦ rw (on_ack_unknown a corr i missing) (refl, v)
  | inr (s, found) ↦
      (unsent_of-on_ack a corr i s (v corr s found) found, acked-IsSending a corr i s v found)
]
