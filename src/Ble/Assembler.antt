-- ===== src/Ble/Assembler.antt =====
-- src/adapters/control/ble/bluez/chunk-assembler.hpp and chunk-assembler.cpp. Bytes are numbers;
-- a non-null send callback is a number that names it, and what is sent through it comes back as
-- a list. An unordered map is an association list. Logging is left out.
pub mod Invariant
pub mod Entries
pub mod Reassembly
pub mod Flow
pub mod Split
pub mod Delivery
pub mod Completion
pub mod Messages
use strixcam.Prelude.{
  ℕ, zero, suc, ◌+◌, ◌-◌, ◌*◌, ◌/◌, ◌%◌, ◌^◌, String, Bool, true, false, ◌||◌, Option, none, some,
  List, [], ◌∷◌, ◌++◌, length, get_elem?, get_or, set, take, drop, replicate, ltb, leb, nat_eq, max,
  text_keys, if◌then◌else◌,
}
use strixcam.Prelude.Assoc.{Assoc, lookup, insert, erase, remove}

abbrev pub Bytes : Type 0
Bytes = List ℕ

-- sst_cam::ChunkedPayload
pub record ChunkedPayload : Type 0 where
  pub correlation_id : String
  pub chunk_index : ℕ
  pub total_chunks : ℕ
  pub payload : Bytes

pub record ChunkAssemblerConfig : Type 0 where
  pub max_chunk_payload_bytes : ℕ
  pub max_inflight_inbound : ℕ
  pub max_total_chunks : ℕ

abbrev pub default_config : ChunkAssemblerConfig
default_config = record {
  max_chunk_payload_bytes = 400;
  max_inflight_inbound = 16;
  max_total_chunks = 8192;
}

pub record OfferResult : Type 0 where
  pub accepted : Bool
  pub payload : Option Bytes

pub record InboundState : Type 0 where
  pub total_chunks : ℕ
  pub received : ℕ
  pub parts : List Bytes
  pub have : List Bool

pub record OutboundState : Type 0 where
  pub chunks : List ChunkedPayload
  pub next_to_send : ℕ
  pub send : Option ℕ

pub record ChunkAssembler : Type 0 where
  pub cfg : ChunkAssemblerConfig
  pub inbound : Assoc String InboundState
  pub inbound_order : List String
  pub outbound : Assoc String OutboundState

unfoldable pub make : ChunkAssemblerConfig → ChunkAssembler
make cfg = record { cfg = cfg; inbound = []; inbound_order = []; outbound = [] }

-- The loop of `EvictOldestInboundIfFull`, over the insertion order.
unfoldable pub evict :
    ℕ → Assoc String InboundState → List String → Assoc String InboundState × List String
evict limit inbound [] = (inbound, [])
evict limit inbound (victim ∷ rest) =
    let later = evict limit (erase victim inbound) rest in
    if leb limit (length inbound) then later else (inbound, victim ∷ rest)

pub evict_oldest_inbound_if_full : ChunkAssembler → ChunkAssembler
evict_oldest_inbound_if_full a =
    let (inbound, order) = evict a.cfg.max_inflight_inbound a.inbound a.inbound_order in
    record a { inbound = inbound; inbound_order = order }

-- A reassembly with nothing received.
abbrev pub fresh : ℕ → InboundState
fresh total = record {
  total_chunks = total;
  received = 0;
  parts = replicate total [];
  have = replicate total false;
}

-- The entry of a correlation id: found, made after an eviction, or reset to the new framing.
unfoldable pub entry_for : ChunkAssembler → String → ℕ → ChunkAssembler × InboundState
unfolding evict_oldest_inbound_if_full
entry_for a corr total = elim (lookup corr a.inbound) [
  | none ↦
      let a' = evict_oldest_inbound_if_full a in
      let state = fresh total in
      (
        record a' {
          inbound = insert corr state a'.inbound;
          inbound_order = a'.inbound_order ++ corr ∷ [];
        },
        state,
      )
  | some state ↦
      if nat_eq state.total_chunks total
      then (a, state)
      else (record a { inbound = insert corr (fresh total) a.inbound }, fresh total)
]

abbrev pub accept : Option Bytes → OfferResult
accept p = record { accepted = true; payload = p }

abbrev pub reject : OfferResult
reject = record { accepted = false; payload = none }

-- The loop that joins the parts.
unfoldable pub join : List Bytes → Bytes
join [] = []
join (part ∷ parts) = part ++ join parts

-- `state.parts[index] = data; state.have[index] = true; ++state.received`
abbrev pub with_part : InboundState → ℕ → Bytes → InboundState
with_part state index part = record state {
  parts = set state.parts index part;
  have = set state.have index true;
  received = (state.received + 1) % 2 ^ 32;
}

unfoldable pub store_part :
    ChunkAssembler → InboundState → ChunkedPayload → ChunkAssembler × OfferResult
unfolding join
store_part a state chunk =
    if get_or state.have chunk.chunk_index false
    then (a, accept none)
    else let state' = with_part state chunk.chunk_index chunk.payload in
      if ltb state'.received state'.total_chunks
      then (record a { inbound = insert chunk.correlation_id state' a.inbound }, accept none)
      else (
        record a {
          inbound = erase chunk.correlation_id a.inbound;
          inbound_order = remove chunk.correlation_id a.inbound_order;
        },
        accept (some (join state'.parts)),
      )

-- The framing checks of `OfferInbound`.
abbrev pub well_formed : ChunkAssemblerConfig → ChunkedPayload → Bool
well_formed cfg chunk =
    if nat_eq chunk.total_chunks 0 || ltb cfg.max_total_chunks chunk.total_chunks
    then false
    else ltb chunk.chunk_index chunk.total_chunks

unfoldable pub offer_inbound : ChunkAssembler → ChunkedPayload → ChunkAssembler × OfferResult
unfolding entry_for store_part
offer_inbound a chunk =
    if nat_eq chunk.total_chunks 0 || ltb a.cfg.max_total_chunks chunk.total_chunks
    then (a, reject)
    else if leb chunk.total_chunks chunk.chunk_index
    then (a, reject)
    else if nat_eq chunk.total_chunks 1
    then (a, accept (some chunk.payload))
    else let (a', state) = entry_for a chunk.correlation_id chunk.total_chunks in
      store_part a' state chunk

-- The number of chunks of a payload.
unfoldable pub chunk_count : ℕ → Bytes → ℕ
chunk_count size [] = 1
chunk_count size bytes = ((length bytes + size - 1) / size) % 2 ^ 32

abbrev pub nth_chunk : String → ℕ → ℕ → Bytes → ℕ → ChunkedPayload
nth_chunk corr size total bytes i = record {
  correlation_id = corr;
  chunk_index = i;
  total_chunks = total;
  payload = take size (drop (i * size) bytes);
}

-- The loop of `BeginOutbound`, from chunk `i` with `left` rounds to go.
unfoldable pub split_from : String → ℕ → ℕ → Bytes → ℕ → ℕ → List ChunkedPayload
split_from corr size total bytes i zero = []
split_from corr size total bytes i (suc left) =
    nth_chunk corr size total bytes i ∷ split_from corr size total bytes (i + 1) left

abbrev pub chunk_size : ChunkAssemblerConfig → ℕ
chunk_size cfg = max cfg.max_chunk_payload_bytes 1

unfoldable pub split : ChunkAssemblerConfig → String → Bytes → List ChunkedPayload
unfolding split_from chunk_count
split cfg corr bytes =
    let total = chunk_count (chunk_size cfg) bytes in
    split_from corr (chunk_size cfg) total bytes 0 total

-- What a call hands to a send callback.
abbrev pub Sent : Type 0
Sent = List (ℕ × ChunkedPayload)

-- `if (send) send(chunks[i])`
abbrev pub emit : Option ℕ → Option ChunkedPayload → Sent
emit none c = []
emit (some f) none = []
emit (some f) (some c) = (f, c) ∷ []

unfoldable pub begin_outbound :
    ChunkAssembler → String → Bytes → Option ℕ → ChunkAssembler × ℕ × Sent
begin_outbound a corr bytes send =
    let total = chunk_count (chunk_size a.cfg) bytes in
    let chunks = split a.cfg corr bytes in
    let sent = emit send (get_elem? chunks 0) in
    let state : OutboundState = record { chunks = chunks; next_to_send = 1; send = send } in
    if ltb 1 total
    then (record a { outbound = insert corr state a.outbound }, total, sent)
    else (a, total, sent)

-- The result: the new state, whether the transfer is complete, and what was sent.
abbrev pub release_next : ChunkAssembler → String → OutboundState → ChunkAssembler × Bool × Sent
release_next a corr state =
    if ltb state.next_to_send (length state.chunks)
    then (
      record a {
        outbound =
            insert corr (record state { next_to_send = (state.next_to_send + 1) % 2 ^ 32 })
              a.outbound;
      },
      false,
      emit state.send (get_elem? state.chunks state.next_to_send),
    )
    else (record a { outbound = erase corr a.outbound }, true, [])

unfoldable pub on_ack : ChunkAssembler → String → ℕ → ChunkAssembler × Bool × Sent
on_ack a corr index = elim (lookup corr a.outbound) [
  | none ↦ (a, false, [])
  | some state ↦
      if nat_eq index ((state.next_to_send + 2 ^ 32 - 1) % 2 ^ 32)
      then release_next a corr state
      else (a, false, [])
]

unfoldable pub reset : ChunkAssembler → ChunkAssembler
reset a = record a { inbound = []; inbound_order = []; outbound = [] }
