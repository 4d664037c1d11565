-- ===== src/Ble/Assembler/Invariant.antt =====
-- The inbound maps of the assembler: well-formedness, and the eviction loop.
use strixcam.Prelude.{
  ℕ, zero, suc, ◌+◌, ◌<◌, ◌≤◌, String, Bool, true, false, none, some, List, [], ◌∷◌, ◌≡◌, refl, ◌⊎◌,
  inl, inr, arith, length, length-replicate, get_or, set, replicate, leb, max, text_keys,
  Bool-cases, Option-cases, ap, ◌∙◌,
}
use strixcam.Prelude.Assoc.{
  Assoc, Distinct, lookup, insert, erase, remove, keys, keys-erase, keys-insert, lookup-erase,
  remove-head, remove-Distinct, lookup-some-contains, length-erase-le, length-insert_old,
  insert_all,
}
use strixcam.Ble.Assembler.{ChunkAssembler, InboundState, evict, fresh}

abbrev pub count_true : List Bool → ℕ
count_true [] = 0
count_true (true ∷ bs) = suc (count_true bs)
count_true (false ∷ bs) = count_true bs

-- An incomplete reassembly: one part and one flag to a chunk, and `received` counts the flags.
pub record IsPartial (limit : ℕ) (s : InboundState) : Type 0 where
  pub parts_len : length s.parts ≡ s.total_chunks
  pub have_len : length s.have ≡ s.total_chunks
  pub counted : count_true s.have ≡ s.received
  pub incomplete : s.received < s.total_chunks
  pub within : s.total_chunks ≤ limit

-- The insertion order lists the keys of the map, each once; the map is within its cap.
pub record IsValid (a : ChunkAssembler) : Type 0 where
  pub ordered : keys a.inbound ≡ a.inbound_order
  pub distinct : Distinct a.inbound_order
  pub bounded : length a.inbound ≤ max a.cfg.max_inflight_inbound 1
  pub partial :
      (k : String) (s : InboundState)
      → lookup k a.inbound ≡ some s
      → IsPartial a.cfg.max_total_chunks s

count_true-replicate : (n : ℕ) → count_true (replicate n false) ≡ 0
count_true-replicate zero = refl
count_true-replicate (suc n) = count_true-replicate n

pub count_true-set :
    (bs : List Bool) (i : ℕ)
    → get_or bs i false ≡ false
    → i < length bs
    → count_true (set bs i true) ≡ count_true bs + 1
count_true-set [] i h l = absurd (omega arith)
count_true-set (true ∷ bs) zero h l = absurd (ground arith)
count_true-set (false ∷ bs) zero h l = omega arith
count_true-set (true ∷ bs) (suc i) h l = omega (arith, count_true-set bs i h (omega arith))
count_true-set (false ∷ bs) (suc i) h l = omega (arith, count_true-set bs i h (omega arith))

pub fresh-IsPartial : (limit total : ℕ) → 1 < total → total ≤ limit → IsPartial limit (fresh total)
fresh-IsPartial limit total h l = record {
  parts_len = length-replicate total [];
  have_len = length-replicate total false;
  counted = count_true-replicate total;
  incomplete = omega arith;
  within = l;
}

length-keys : (m : Assoc String InboundState) → length (keys m) ≡ length m
length-keys [] = refl
length-keys (x ∷ m) = ap suc (length-keys m)

-- What the eviction loop leaves.
pub record Evicted (limit : ℕ) (m : Assoc String InboundState)
    (r : Assoc String InboundState × List String) : Type 0 where
  pub ordered : keys r.0 ≡ r.1
  pub distinct : Distinct r.1
  pub room : (length r.0 < limit) ⊎ (length r.0 ≡ 0)
  pub kept : (k : String) (s : InboundState) → lookup k r.0 ≡ some s → lookup k m ≡ some s

pub erase-kept :
    (v k : String) (m : Assoc String InboundState) (s : InboundState)
    → lookup k (erase v m) ≡ some s
    → lookup k m ≡ some s
erase-kept v k m s h = ground (arith, lookup-erase v k m)

pub evict-Evicted :
    (limit : ℕ) (m : Assoc String InboundState) (order : List String)
    → keys m ≡ order
    → Distinct order
    → Evicted limit m (evict limit m order)
unfolding evict
evict-Evicted limit m [] e d = record {
  ordered = e;
  distinct = tt;
  room = inr (omega (arith, length-keys m, ap length e));
  kept = λ k s h. h;
}
evict-Evicted limit m (v ∷ rest) e d = elim (Bool-cases (leb limit (length m))) [
  | inl full ↦
      let e' : keys (erase v m) ≡ rest = rw (keys-erase v m, e) (remove-head v rest d.0) in
      let later = evict-Evicted limit (erase v m) rest e' d.1 in
      rw full (record {
        ordered = later.ordered;
        distinct = later.distinct;
        room = later.room;
        kept = λ k s h. erase-kept v k m s (later.kept k s h);
      })
  | inr room ↦
      rw room (record { ordered = e; distinct = d; room = inl (ground arith); kept = λ k s h. h })
]

pub lookup-kept_none :
    (corr : String) (limit : ℕ) (m : Assoc String InboundState)
    (r : Assoc String InboundState × List String)
    → Evicted limit m r
    → lookup corr m ≡ none
    → lookup corr r.0 ≡ none
lookup-kept_none corr limit m r ev h = elim (Option-cases (lookup corr r.0)) [
  | inl e ↦ e
  | inr (s, e) ↦ absurd (cc (ev.kept corr s e))
]

-- Writing the entry of a known key.
pub overwrite-IsValid :
    (a : ChunkAssembler) (corr : String) (s s' : InboundState)
    → IsValid a
    → lookup corr a.inbound ≡ some s
    → IsPartial a.cfg.max_total_chunks s'
    → IsValid (record a { inbound = insert corr s' a.inbound })
overwrite-IsValid a corr s s' v found fit = record {
  ordered =
      rw (keys-insert corr s' a.inbound, lookup-some-contains corr s a.inbound found) v.ordered;
  distinct = v.distinct;
  bounded = rw (length-insert_old corr s' s a.inbound found) v.bounded;
  partial = λ k t h.
      insert_all (IsPartial a.cfg.max_total_chunks) corr k s' t a.inbound h fit (v.partial k t);
}

-- Dropping an entry.
pub drop-IsValid :
    (a : ChunkAssembler) (corr : String)
    → IsValid a
    → IsValid
        (record a { inbound = erase corr a.inbound; inbound_order = remove corr a.inbound_order })
drop-IsValid a corr v = record {
  ordered = keys-erase corr a.inbound ∙ ap (remove corr) v.ordered;
  distinct = remove-Distinct corr a.inbound_order v.distinct;
  bounded = omega (arith, length-erase-le corr a.inbound, v.bounded);
  partial = λ k t h. v.partial k t (erase-kept corr k a.inbound t h);
}
