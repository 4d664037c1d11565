-- ===== src/Tests/Ble.antt =====
-- Runs of src/adapters/control/ble/bluez/chunk-assembler.cpp.
use strixcam.Prelude.{
  ℕ, ◌-◌, true, false, some, none, List, [], ◌∷◌, ◌++◌, ◌≡◌, refl, arith, replicate, text_keys,
  nat_keys, All, sym, eq_iff,
}
use strixcam.Prelude.Assoc.{lookup, contains, Distinct}
use strixcam.Ble.Assembler.{
  ChunkAssembler, ChunkAssemblerConfig, ChunkedPayload, Bytes, make, split, split_from, chunk_count,
  offer_inbound, begin_outbound,
}
use strixcam.Ble.Assembler.Invariant.{IsValid}
use strixcam.Ble.Assembler.Entries.{offer_inbound-IsValid}
use strixcam.Ble.Assembler.Split.{total_of}
use strixcam.Ble.Assembler.Messages.{
  ReturnsOnly, offers-ReturnsOnly, offer_each-completes, IsChunkOf, Finishes,
}
use strixcam.Ble.Assembler.Flow.{IsSending}
use strixcam.Ble.Assembler.Flow.Transfer.{ack_run, one_each, transfer_lem}

abbrev pub config : ChunkAssemblerConfig
config = record { max_chunk_payload_bytes = 2; max_inflight_inbound = 1; max_total_chunks = 8 }

abbrev pub message : Bytes
message = 1 ∷ 2 ∷ 3 ∷ 4 ∷ 5 ∷ []

abbrev pub chunk : ℕ → Bytes → ChunkedPayload
chunk i data_bytes = record {
  correlation_id = "a";
  chunk_index = i;
  total_chunks = 3;
  payload = data_bytes;
}

abbrev pub out_of_order : List ChunkedPayload
out_of_order = chunk 2 (5 ∷ []) ∷ chunk 0 (1 ∷ 2 ∷ []) ∷ chunk 1 (3 ∷ 4 ∷ []) ∷ []

-- A chunk of another transfer, which evicts the first.
abbrev stranger : ChunkedPayload
stranger = record { correlation_id = "b"; chunk_index = 1; total_chunks = 2; payload = 9 ∷ [] }

abbrev pub empty : ChunkAssembler
empty = record { cfg = config; inbound = []; inbound_order = []; outbound = [] }

make_lem : make config ≡ empty
unfolding make
make_lem = refl

pub empty-IsValid : IsValid empty
unfolding lookup
empty-IsValid = record {
  ordered = refl;
  distinct = tt;
  bounded = omega arith;
  partial = λ k s h. absurd (cc);
}

split_lem :
    split config "a" message ≡ chunk 0 (1 ∷ 2 ∷ []) ∷ chunk 1 (3 ∷ 4 ∷ []) ∷ chunk 2 (5 ∷ []) ∷ []
unfolding split split_from chunk_count
split_lem = refl

pub count_lem : total_of config message ≡ 3
unfolding chunk_count
count_lem = refl

pub nothing_held : lookup "a" empty.inbound ≡ none
unfolding lookup
nothing_held = refl

pub are_chunks : All (IsChunkOf config "a" message) out_of_order
are_chunks = rw split_lem (refl, (refl, (refl, tt)))

offers-ReturnsOnly_example :
    ReturnsOnly "a" message empty (chunk 2 (5 ∷ []) ∷ stranger ∷ out_of_order)
offers-ReturnsOnly_example =
    offers-ReturnsOnly config "a" message empty (chunk 2 (5 ∷ []) ∷ stranger ∷ out_of_order)
      (omega arith) (omega arith) empty-IsValid nothing_held
      (
        λ _. are_chunks.0,
        (
          λ e. absurd (ground (arith, eq_iff "b" "a")),
          (λ _. are_chunks.0, (λ _. are_chunks.1.0, (λ _. are_chunks.1.1.0, tt))),
        ),
      )

pub arrived-Distinct : Distinct {K = ℕ} (2 ∷ 0 ∷ 1 ∷ [])
unfolding contains
arrived-Distinct = (refl, (refl, (refl, tt)))

offer_each-completes_example :
    Finishes config "a" message (omega arith) (rw count_lem (omega arith)) empty out_of_order
offer_each-completes_example =
    offer_each-completes config "a" message (omega arith) (rw count_lem (omega arith)) empty
      out_of_order (omega arith) (rw count_lem (omega arith)) empty-IsValid nothing_held
      (sym count_lem) are_chunks arrived-Distinct

offer_inbound-IsValid_example : IsValid (offer_inbound empty stranger).0
offer_inbound-IsValid_example = offer_inbound-IsValid empty stranger (omega arith) empty-IsValid

transfer_lem_example :
    let chunks = split config "a" message in
    let b = begin_outbound empty "a" message (some 7) in
    let r = ack_run b.0 "a" 0 b.1 in
    (b.2 ∷ r.2 ≡ one_each 7 chunks ++ [] ∷ [])
    × (r.1 ≡ replicate (b.1 - 1) false ++ true ∷ [])
    × (lookup "a" r.0.outbound ≡ none)
transfer_lem_example = transfer_lem empty "a" message 7 (rw count_lem (omega arith))

-- After chunk 0 was sent.
abbrev sending : ChunkAssembler
sending = record empty {
  outbound =
      (
        "a",
        record {
          chunks = chunk 0 (1 ∷ 2 ∷ []) ∷ chunk 1 (3 ∷ 4 ∷ []) ∷ [];
          next_to_send = 1;
          send = some 7;
        },
      )
      ∷ [];
}

sending-IsSending : IsSending sending
unfolding lookup
sending-IsSending k s h = record {
  started = ground arith;
  within = ground arith;
  small = ground arith;
}
