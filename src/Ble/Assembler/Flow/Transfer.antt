-- ===== src/Ble/Assembler/Flow/Transfer.antt =====
-- A whole outbound transfer, from `BeginOutbound` to the acknowledgement of its last chunk.
use strixcam.Prelude.{
  ℕ, zero, suc, ◌+◌, ◌-◌, ◌<◌, String, Bool, true, false, none, some, List, [], ◌∷◌, ◌++◌, map, ◌≡◌,
  refl, arith, length, get_elem?, drop, drop-all, replicate, ltb, text_keys, eq_iff, sym, ap, ◌∙◌,
}
use mathlib.Core.Path.{ap₂}
use strixcam.Ble.Assembler.Split.{total_of, length-split, chunk_count-lt}
use strixcam.Prelude.Assoc.{lookup, insert, erase, lookup-insert, lookup-erase}
use strixcam.Ble.Assembler.{
  ChunkAssembler, ChunkedPayload, OutboundState, Bytes, Sent, emit, on_ack, begin_outbound, split,
  chunk_size,
}
use strixcam.Ble.Assembler.Flow.{on_ack-Acked, IsPending, ignored, released, finished}

-- The acknowledgements `i`, `i + 1`, … of one id, with what each of them sends.
unfoldable pub ack_run : ChunkAssembler → String → ℕ → ℕ → ChunkAssembler × List Bool × List Sent
ack_run a corr i zero = (a, [], [])
ack_run a corr i (suc n) =
    let (a', done, sent) = on_ack a corr i in
    let (a'', dones, more) = ack_run a' corr (i + 1) n in (a'', done ∷ dones, sent ∷ more)

-- One call of the callback `f` for each chunk.
abbrev pub one_each : ℕ → List ChunkedPayload → List Sent
one_each f = map (λ c. (f, c) ∷ [])

emit-one_each :
    (f : ℕ) (cs : List ChunkedPayload) (n : ℕ)
    → n < length cs
    → emit (some f) (get_elem? cs n) ∷ one_each f (drop (n + 1) cs) ≡ one_each f (drop n cs)
emit-one_each f [] n h = absurd (omega arith)
emit-one_each f (c ∷ cs) zero h = refl
emit-one_each f (c ∷ cs) (suc n) h =
    let e : suc n + 1 ≡ suc (n + 1) = omega arith in rw e (emit-one_each f cs n (omega arith))

on_ack_last :
    (a : ChunkAssembler) (corr : String) (i : ℕ) (s : OutboundState)
    → IsPending s
    → lookup corr a.outbound ≡ some s
    → s.next_to_send ≡ i + 1
    → s.next_to_send ≡ length s.chunks
    → on_ack a corr i ≡ (record a { outbound = erase corr a.outbound }, true, [])
on_ack_last a corr i s p found at last = elim (on_ack-Acked a corr i s p found) [
  | ignored ne _ ↦ absurd (ne (sym at))
  | released _ more _ ↦ absurd (omega arith)
  | finished _ _ e ↦ e
]

on_ack_more :
    (a : ChunkAssembler) (corr : String) (i : ℕ) (s : OutboundState)
    → IsPending s
    → lookup corr a.outbound ≡ some s
    → s.next_to_send ≡ i + 1
    → s.next_to_send < length s.chunks
    → ((on_ack a corr i).1 ≡ false)
      × ((on_ack a corr i).2 ≡ emit s.send (get_elem? s.chunks s.next_to_send))
      × (lookup corr (on_ack a corr i).0.outbound
          ≡ some (record s { next_to_send = s.next_to_send + 1 }))
on_ack_more a corr i s p found at more = elim (on_ack-Acked a corr i s p found) [
  | ignored ne _ ↦ absurd (ne (sym at))
  | released _ _ e ↦
      let s' = record s { next_to_send = s.next_to_send + 1 } in
      rw e (refl, refl, ground (arith, lookup-insert corr corr s' a.outbound, eq_iff corr corr))
  | finished _ last _ ↦ absurd (omega arith)
]

-- The rest of a transfer.
ack_run-finishes :
    (a : ChunkAssembler) (corr : String) (n i f : ℕ) (s : OutboundState)
    → IsPending s
    → s.send ≡ some f
    → lookup corr a.outbound ≡ some s
    → s.next_to_send ≡ i + 1
    → i + suc n ≡ length s.chunks
    → let r = ack_run a corr i (suc n) in
      (r.1 ≡ replicate n false ++ true ∷ [])
      × (r.2 ≡ one_each f (drop s.next_to_send s.chunks) ++ [] ∷ [])
      × (lookup corr r.0.outbound ≡ none)
unfolding ack_run
ack_run-finishes a corr zero i f s p through_f found at last =
    let e = on_ack_last a corr i s p found at (omega arith) in
    let gone : lookup corr (on_ack a corr i).0.outbound ≡ none =
      rw e (ground (arith, lookup-erase corr corr a.outbound, eq_iff corr corr)) in
    let nothing : drop s.next_to_send s.chunks ≡ [] =
      drop-all s.next_to_send s.chunks (omega arith) in
    (
      ap (λ r. r.1 ∷ []) e,
      ap (λ r. r.2 ∷ []) e ∙ sym (ap (λ cs. one_each f cs ++ [] ∷ []) nothing),
      gone,
    )
ack_run-finishes a corr (suc n) i f s p through_f found at last =
    let (more, sent, next) = on_ack_more a corr i s p found at (omega arith) in
    let s' : OutboundState = record s { next_to_send = s.next_to_send + 1 } in
    let p' : IsPending s' = record {
      started = omega arith;
      within = omega arith;
      small = p.small;
    } in
    let (dones, rest, gone) =
      ack_run-finishes (on_ack a corr i).0 corr n (i + 1) f s' p' through_f next (omega arith)
        (omega arith) in
    let this : (on_ack a corr i).2 ≡ emit (some f) (get_elem? s.chunks s.next_to_send) =
      sent ∙ ap (λ send. emit send (get_elem? s.chunks s.next_to_send)) through_f in
    (
      ap₂ ◌∷◌ more dones,
      ap₂ ◌∷◌ this rest
          ∙ ap (λ l. l ++ [] ∷ []) (emit-one_each f s.chunks s.next_to_send (omega arith)),
      gone,
    )

begin_several :
    (a : ChunkAssembler) (corr : String) (bytes : Bytes) (f : ℕ)
    → 1 < total_of a.cfg bytes
    → let chunks = split a.cfg corr bytes in
      let s : OutboundState = record { chunks = chunks; next_to_send = 1; send = some f } in
      begin_outbound a corr bytes (some f) ≡ (
        record a { outbound = insert corr s a.outbound },
        suc (total_of a.cfg bytes - 1),
        emit (some f) (get_elem? chunks 0),
      )
unfolding begin_outbound
begin_several a corr bytes f several =
    let test : ltb 1 (total_of a.cfg bytes) ≡ true = ground arith in
    let e : suc (total_of a.cfg bytes - 1) ≡ total_of a.cfg bytes = omega arith in rw (test, e)

-- A payload of several chunks: `BeginOutbound` sends chunk 0 alone, and then each acknowledgement of
-- its chunks in order sends the next chunk alone, the last one nothing; the last of them alone
-- reports the transfer complete, and then nothing of it is pending.
pub transfer_lem :
    (a : ChunkAssembler) (corr : String) (bytes : Bytes) (f : ℕ)
    → 1 < total_of a.cfg bytes
    → let chunks = split a.cfg corr bytes in
      let b = begin_outbound a corr bytes (some f) in
      let r = ack_run b.0 corr 0 b.1 in
      (b.2 ∷ r.2 ≡ one_each f chunks ++ [] ∷ [])
      × (r.1 ≡ replicate (b.1 - 1) false ++ true ∷ [])
      × (lookup corr r.0.outbound ≡ none)
transfer_lem a corr bytes f several =
    let n = total_of a.cfg bytes in
    let chunks = split a.cfg corr bytes in
    let s : OutboundState = record { chunks = chunks; next_to_send = 1; send = some f } in
    let count = length-split a.cfg corr bytes in
    let begun = begin_several a corr bytes f several in
    let p : IsPending s = record {
      started = omega arith;
      within = omega (arith, count);
      small = omega (arith, count, chunk_count-lt (chunk_size a.cfg) bytes);
    } in
    let a1 : ChunkAssembler = record a { outbound = insert corr s a.outbound } in
    let here : lookup corr a1.outbound ≡ some s =
      ground (arith, lookup-insert corr corr s a.outbound, eq_iff corr corr) in
    let (dones, rest, gone) =
      ack_run-finishes a1 corr (n - 1) 0 f s p refl here (omega arith) (omega (arith, count)) in
    let one_less : suc (n - 1) - 1 ≡ n - 1 = omega arith in
    rw begun (
      ap (λ l. emit (some f) (get_elem? chunks 0) ∷ l) rest
          ∙ ap (λ l. l ++ [] ∷ []) (emit-one_each f chunks 0 (omega (arith, count))),
      rw one_less dones,
      gone,
    )
