-- ===== src/Ble/Assembler/Split.antt =====
-- The chunks that `BeginOutbound` cuts a payload into.
use mathlib.Core.List.{map}
use strixcam.Prelude.{
  ℕ, zero, suc, ◌+◌, ◌-◌, ◌*◌, ◌/◌, ◌%◌, ◌^◌, ◌<◌, ◌≤◌, String, some, List, [], ◌∷◌, ◌++◌, ◌≡◌,
  refl, ap, ◌∙◌, arith, length, get_elem?, take, drop, drop-add, drop_at, drop-all,
  take-append-drop, sym,
}
use strixcam.Ble.Assembler.{
  ChunkAssemblerConfig, ChunkedPayload, Bytes, join, split, split_from, chunk_count, chunk_size,
  nth_chunk,
}

abbrev pub payloads : List ChunkedPayload → List Bytes
payloads = map (λ c. c.payload)

module _ (corr : String) (size total : ℕ) (bytes : Bytes) where
  pub length-split_from : (i left : ℕ) → length (split_from corr size total bytes i left) ≡ left
  unfolding split_from
  length-split_from i zero = refl
  length-split_from i (suc left) = ap suc (length-split_from (i + 1) left)

  pub get_elem?-split_from :
      (i left k : ℕ)
      → k < left
      → get_elem? (split_from corr size total bytes i left) k
        ≡ some (nth_chunk corr size total bytes (i + k))
  unfolding split_from
  get_elem?-split_from i zero k h = elim h [ ]
  get_elem?-split_from i (suc left) zero h =
      ap (λ n. some (nth_chunk corr size total bytes n)) (omega arith)
  get_elem?-split_from i (suc left) (suc k) h =
      get_elem?-split_from (i + 1) left k (omega arith)
      ∙ ap (λ n. some (nth_chunk corr size total bytes n)) (omega arith)

  join-split_from :
      (i left : ℕ)
      → length bytes ≤ (i + left) * size
      → join (payloads (split_from corr size total bytes i left)) ≡ drop (i * size) bytes
  unfolding split_from join
  join-split_from i zero h = sym (drop-all (i * size) bytes (omega arith))
  join-split_from i (suc left) h =
      let rest = join-split_from (i + 1) left (omega arith) in
      let next : drop ((i + 1) * size) bytes ≡ drop size (drop (i * size) bytes) =
        drop_at ((i + 1) * size) (i * size + size) bytes (omega arith)
        ∙ drop-add (i * size) size bytes in
      ap (◌++◌ (take size (drop (i * size) bytes))) (rest ∙ next)
      ∙ take-append-drop size (drop (i * size) bytes)

ceil-covers : (n size : ℕ) → 0 < size → n ≤ (n + size - 1) / size * size
ceil-covers n size pos = omega arith

ceil-le : (n size : ℕ) → 0 < n → 0 < size → (n + size - 1) / size ≤ n
ceil-le n size some_ pos = grind arith

-- The chunks are enough for the bytes.
pub chunk_count-covers :
    (size : ℕ) (bytes : Bytes)
    → 0 < size
    → length bytes < 2 ^ 32
    → length bytes ≤ chunk_count size bytes * size
unfolding chunk_count
chunk_count-covers size [] pos small = omega arith
chunk_count-covers size (b ∷ bytes) pos small =
    let n = length (b ∷ bytes) in
    let q = (n + size - 1) / size in
    let fits : q % 2 ^ 32 ≡ q = omega (arith, ceil-le n size (omega arith) pos) in
    rw fits (ceil-covers n size pos)

-- For a payload below 4 GiB the payloads of the chunks, in order, join to the payload.
pub join-split :
    (cfg : ChunkAssemblerConfig) (corr : String) (bytes : Bytes)
    → length bytes < 2 ^ 32
    → join (payloads (split cfg corr bytes)) ≡ bytes
unfolding split
join-split cfg corr bytes small =
    join-split_from corr (chunk_size cfg) (chunk_count (chunk_size cfg) bytes) bytes 0
      (chunk_count (chunk_size cfg) bytes)
      (omega (arith, chunk_count-covers (chunk_size cfg) bytes (omega arith) small))
    ∙ drop_at (0 * chunk_size cfg) 0 bytes (omega arith)

abbrev pub total_of : ChunkAssemblerConfig → Bytes → ℕ
total_of cfg bytes = chunk_count (chunk_size cfg) bytes

pub length-split :
    (cfg : ChunkAssemblerConfig) (corr : String) (bytes : Bytes)
    → length (split cfg corr bytes) ≡ total_of cfg bytes
unfolding split
length-split cfg corr bytes =
    length-split_from corr (chunk_size cfg) (total_of cfg bytes) bytes 0 (total_of cfg bytes)

-- The count is a `std::uint32_t`.
pub chunk_count-lt : (size : ℕ) (bytes : Bytes) → chunk_count size bytes < 2 ^ 32
unfolding chunk_count
chunk_count-lt size [] = omega arith
chunk_count-lt size (b ∷ bytes) = omega arith
