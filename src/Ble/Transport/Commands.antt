-- ===== src/Ble/Transport/Commands.antt =====
-- A command that arrives in chunks, through the transport.
use mathlib.Core.List.{append_assoc, append-nil}
use strixcam.Prelude.{
  ℕ, ◌-◌, ◌^◌, ◌<◌, ◌≤◌, String, true, false, Option, none, some, List, [], ◌∷◌, ◌++◌, map, take,
  get_elem?, length, replicate, All, ◌≡◌, refl, sym, ap, ◌∙◌, subst, arith, text_keys, nat_keys,
  nat_eq,
}
use strixcam.Prelude.Assoc.{lookup, Distinct}
use strixcam.Ble.Assembler.{
  Bytes, ChunkAssembler, ChunkedPayload, ChunkAssemblerConfig, offer_inbound, entry_for, split,
  begin_outbound, emit,
}
use strixcam.Ble.Assembler.Invariant.{IsValid}
use strixcam.Ble.Assembler.Entries.{offer_cases, cfg-offer_inbound}
use strixcam.Ble.Assembler.Completion.{store_part-accepted}
use strixcam.Ble.Assembler.Messages.{
  offer_each, IsChunkOf, indices, replies, offer_each-completes, chunk-facts,
}
use strixcam.Ble.Assembler.Split.{total_of}
use strixcam.Ble.Transport.{
  BleTransport, WirePorts, on_raw_command, send_response, run_command, receive, offer,
  send_inbound_ack, send_all, send_closure, parsed,
}

offer_inbound-accepted :
    (a : ChunkAssembler) (c : ChunkedPayload)
    → 1 < c.total_chunks
    → c.total_chunks ≤ a.cfg.max_total_chunks
    → c.chunk_index < c.total_chunks
    → (offer_inbound a c).1.accepted ≡ true
offer_inbound-accepted a c several fits below =
    offer_cases (λ r. r.1.accepted ≡ true) a c (λ bad. absurd (ground arith)) (λ _ _. refl)
      (λ _ _ _.
        store_part-accepted (entry_for a c.correlation_id c.total_chunks).0
          (entry_for a c.correlation_id c.total_chunks).1 c)

-- The chunk belongs to a message of several chunks, within the limit.
abbrev Framed : ℕ → ChunkedPayload → Type 0
Framed limit c = (1 < c.total_chunks) × (c.total_chunks ≤ limit) × (c.chunk_index < c.total_chunks)

All-Framed :
    (cfg : ChunkAssemblerConfig) (corr : String) (bytes : Bytes)
    → 1 < total_of cfg bytes
    → (limit : ℕ) → total_of cfg bytes ≤ limit
    → (cs : List ChunkedPayload) → All (IsChunkOf cfg corr bytes) cs
    → All (Framed limit) cs
All-Framed cfg corr bytes several limit fits [] parts = tt
All-Framed cfg corr bytes several limit fits (c ∷ cs) parts =
    let f = chunk-facts cfg corr bytes c parts.0 in
    (
      (omega (arith, f.total), omega (arith, f.total), f.below),
      All-Framed cfg corr bytes several limit fits cs parts.1,
    )

abbrev pub acked : {C Q : Type 0} → WirePorts C Q → ChunkedPayload → Bytes
acked wire c =
    wire.ack_bytes (record { correlation_id = c.correlation_id; chunk_index = c.chunk_index })

module _ {C Q W : Type 0} (wire : WirePorts C Q) where
  abbrev pub write_each : List Bytes → BleTransport C Q W × W → BleTransport C Q W × W
  write_each [] s = s
  write_each (bytes ∷ more) (t, w) = write_each more (on_raw_command wire bytes t w)

  -- The transport after the chunks, each acknowledged.
  abbrev pub with_chunks :
      ChunkAssembler → List ChunkedPayload → BleTransport C Q W → BleTransport C Q W
  with_chunks a cs t = record t { assembler = a; notified = t.notified ++ map (acked wire) cs }

  on_raw_command-chunk :
      (t : BleTransport C Q W) (w : W) (bytes : Bytes) (c : ChunkedPayload)
      → wire.parse_chunk bytes ≡ some c
      → t.gatt_app ≡ true
      → t.central_present ≡ true
      → nat_eq c.total_chunks 0 ≡ false
      → (offer_inbound t.assembler c).1.accepted ≡ true
      → on_raw_command wire bytes t w
        ≡ run_command wire t.on_command
            (parsed wire.parse_command (offer_inbound t.assembler c).1.payload)
            (with_chunks (offer_inbound t.assembler c).0 (c ∷ []) t)
            w
  unfolding on_raw_command receive offer send_inbound_ack
  on_raw_command-chunk t w bytes c e gatt there chunk accepted =
      ground (arith, e, gatt, there, chunk, accepted)

  module _ (command : C → W → W × Q) (printed : ChunkedPayload → Bytes) (bytes : Bytes) (cmd : C)
      (is_command : wire.parse_command bytes ≡ some cmd) where
    -- The transport is up, knows of the phone, and has the command handler.
    pub record IsServing (t : BleTransport C Q W) : Type 0 where
      pub gatt_app : t.gatt_app ≡ true
      pub central_present : t.central_present ≡ true
      pub on_command : t.on_command ≡ some command

    abbrev pub Parses : ChunkedPayload → Type 0
    Parses c = wire.parse_chunk (printed c) ≡ some c

    -- The transport and the world once the command has run.
    abbrev pub answered :
        ChunkAssembler → List ChunkedPayload → BleTransport C Q W → W → BleTransport C Q W × W
    answered a cs t w =
        let (after, response) = command cmd w in
        (send_response wire response (with_chunks a cs t), after)

    command_runs :
        (payload : Option Bytes) (t next : BleTransport C Q W) (w : W)
        → IsServing t
        → payload ≡ some bytes
        → run_command wire t.on_command (parsed wire.parse_command payload) next w
          ≡ (let (after, response) = command cmd w in (send_response wire response next, after))
    unfolding run_command
    command_runs payload t next w serving e = ground (arith, e, is_command, serving.on_command)

    nothing_runs :
        (payload : Option Bytes) (t next : BleTransport C Q W) (w : W)
        → payload ≡ none
        → run_command wire t.on_command (parsed wire.parse_command payload) next w ≡ (next, w)
    unfolding run_command
    nothing_runs payload t next w e = ground (arith, e)

    chunks-answered :
        (c : ChunkedPayload) (cs : List ChunkedPayload) (t : BleTransport C Q W) (w : W)
        → IsServing t
        → All Parses (c ∷ cs)
        → All (Framed t.assembler.cfg.max_total_chunks) (c ∷ cs)
        → replies (offer_each t.assembler (c ∷ cs)).1
          ≡ replicate (length cs) none ++ some bytes ∷ []
        → write_each (map printed (c ∷ cs)) (t, w)
          ≡ answered (offer_each t.assembler (c ∷ cs)).0 (c ∷ cs) t w
    unfolding offer_each
    chunks-answered c [] t w serving parses framed replied =
        let (several, fits, below) = framed.0 in
        let a = t.assembler in
        let payload : (offer_inbound a c).1.payload ≡ some bytes = cc (replied) in
        on_raw_command-chunk t w (printed c) c parses.0 serving.gatt_app serving.central_present
          (ground arith) (offer_inbound-accepted a c several fits below)
        ∙ command_runs (offer_inbound a c).1.payload t
            (with_chunks (offer_inbound a c).0 (c ∷ []) t) w serving payload
    chunks-answered c (c' ∷ cs) t w serving parses framed replied =
        let (several, fits, below) = framed.0 in
        let a = t.assembler in
        let next = with_chunks (offer_inbound a c).0 (c ∷ []) t in
        let payload : (offer_inbound a c).1.payload ≡ none = cc (replied) in
        let more : replies (offer_each (offer_inbound a c).0 (c' ∷ cs)).1
            ≡ replicate (length cs) none ++ some bytes ∷ [] =
          cc (replied) in
        ap (write_each (map printed (c' ∷ cs))) (
          on_raw_command-chunk t w (printed c) c parses.0 serving.gatt_app serving.central_present
            (ground arith) (offer_inbound-accepted a c several fits below)
          ∙ nothing_runs (offer_inbound a c).1.payload t next w payload)
        ∙ chunks-answered c' cs next w
            (record {
              gatt_app = serving.gatt_app;
              central_present = serving.central_present;
              on_command = serving.on_command;
            })
            parses.1
            (subst (λ cfg. All (Framed cfg.max_total_chunks) (c' ∷ cs))
              (sym (cfg-offer_inbound a c)) framed.1)
            more
        ∙ ap
            (λ sent.
              let (after, response) = command cmd w in
              (
                send_response wire response (record t {
                  assembler = (offer_each t.assembler (c ∷ c' ∷ cs)).0;
                  notified = sent;
                }),
                after,
              ))
            (append_assoc t.notified (acked wire c ∷ []) (map (acked wire) (c' ∷ cs)))

    cfg-offer_each :
        (a : ChunkAssembler) (cs : List ChunkedPayload) → (offer_each a cs).0.cfg ≡ a.cfg
    unfolding offer_each
    cfg-offer_each a [] = refl
    cfg-offer_each a (c ∷ cs) = cfg-offer_each (offer_inbound a c).0 cs ∙ cfg-offer_inbound a c

    -- What a response puts on the wire at once: its first chunk.
    abbrev pub first_chunk : ChunkAssemblerConfig → Q → List Bytes
    first_chunk cfg response =
        map wire.chunk_bytes
          (take 1 (split cfg (wire.response_id response) (wire.response_bytes response)))

    emitted :
        (chunks : List ChunkedPayload) (t : BleTransport C Q W)
        → t.gatt_app ≡ true
        → (send_all wire (emit (some send_closure) (get_elem? chunks 0)) t).notified
          ≡ t.notified ++ map wire.chunk_bytes (take 1 chunks)
    unfolding send_all
    emitted [] t gatt = sym (append-nil t.notified)
    emitted (c ∷ cs) t gatt = ground (arith, gatt)

    send_response-first_chunk :
        (response : Q) (t : BleTransport C Q W)
        → t.gatt_app ≡ true
        → (send_response wire response t).notified
          ≡ t.notified ++ first_chunk t.assembler.cfg response
    unfolding send_response begin_outbound
    send_response-first_chunk response t gatt =
        let id = wire.response_id response in
        let bytes = wire.response_bytes response in
        let begun = begin_outbound t.assembler id bytes (some send_closure) in
        let sent : (send_response wire response t).notified
            ≡ (send_all wire begun.2 (record t { assembler = begun.0 })).notified =
          ground (arith, gatt) in
        let chunks : begun.2
            ≡ emit (some send_closure) (get_elem? (split t.assembler.cfg id bytes) 0) =
          ground arith in
        sent
        ∙ ap (λ l. (send_all wire l (record t { assembler = begun.0 })).notified) chunks
        ∙ emitted (split t.assembler.cfg id bytes) (record t { assembler = begun.0 }) gatt

    -- The chunks of a command of several chunks, within the transport's limit, written each once
    -- and in any order to a serving transport whose assembler holds nothing for the command's id:
    -- just these go out: an acknowledgement of every chunk, in the order of the writes, and then the
    -- first chunk of the response, which the handler gives when it runs the command once. What the
    -- phone writes for a chunk parses to the chunk, and the message's bytes to the command.
    pub write_each-answered :
        (cfg : ChunkAssemblerConfig) (corr : String) (t : BleTransport C Q W) (w : W)
        (c : ChunkedPayload) (cs : List ChunkedPayload)
        → length bytes < 2 ^ 32
        → 1 < total_of cfg bytes
        → t.assembler.cfg.max_total_chunks < 2 ^ 32
        → total_of cfg bytes ≤ t.assembler.cfg.max_total_chunks
        → IsValid t.assembler
        → lookup corr t.assembler.inbound ≡ none
        → length (c ∷ cs) ≡ total_of cfg bytes
        → All (IsChunkOf cfg corr bytes) (c ∷ cs)
        → Distinct (indices (c ∷ cs))
        → IsServing t
        → All Parses (c ∷ cs)
        → let (next, world) = write_each (map printed (c ∷ cs)) (t, w) in
          let (after, response) = command cmd w in
          (next.notified
            ≡ (t.notified ++ map (acked wire) (c ∷ cs)) ++ first_chunk t.assembler.cfg response)
          × (world ≡ after)
    write_each-answered cfg corr t w c cs short several small fits v absent count parts d serving
          parses =
        let done =
          offer_each-completes cfg corr bytes short several t.assembler (c ∷ cs) small fits v absent
            count parts d in
        let one_less : length (c ∷ cs) - 1 ≡ length cs = omega arith in
        let ran : write_each (map printed (c ∷ cs)) (t, w)
            ≡ answered (offer_each t.assembler (c ∷ cs)).0 (c ∷ cs) t w =
          chunks-answered c cs t w serving parses
            (All-Framed cfg corr bytes several t.assembler.cfg.max_total_chunks fits (c ∷ cs) parts)
            (done.0 ∙ ap (λ n. replicate n none ++ some bytes ∷ []) one_less) in
        let held = with_chunks (offer_each t.assembler (c ∷ cs)).0 (c ∷ cs) t in
        let response = (command cmd w).1 in
        (
          ap (λ r. r.0.notified) ran
              ∙ send_response-first_chunk response held serving.gatt_app
              ∙ ap (λ g. held.notified ++ first_chunk g response)
                  (cfg-offer_each t.assembler (c ∷ cs)),
          ap (λ r. r.1) ran,
        )
