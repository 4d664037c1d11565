-- ===== src/Buffer/Slot/Refines.antt =====
-- A `LatestOnlySlot` beside a `DropOldestRing` of capacity 1.
use strixcam.Prelude.{Option, none, some, List, [], ◌∷◌, ◌≡◌, refl, arith}
use strixcam.Buffer.Port.{Call, pushes, pops, tries, closes, step, run, drop_oldest}
use strixcam.Buffer.Ring.{Ring, ring_buffer}
use strixcam.Buffer.Ring
use strixcam.Buffer.Slot.{Slot, slot_buffer, push, pop, try_pop, close, stats}

module _ {ℓ} {A : Type ℓ} where
  abbrev pub held : Option A → List A
  held none = []
  held (some a) = a ∷ []

  abbrev pub as_ring : Slot A → Ring A
  as_ring s = record {
    queue = held s.slot;
    capacity = 1;
    is_closed = s.is_closed;
    pushed = s.pushed;
    popped = s.popped;
    dropped = s.dropped;
  }

  step-as_ring :
      (s : Slot A) (c : Call A)
      → step ring_buffer (as_ring s) c
        ≡ (as_ring (step slot_buffer s c).0, (step slot_buffer s c).1)
  unfolding step push pop try_pop close Ring.push Ring.pop Ring.try_pop Ring.close
  step-as_ring s (pushes a) = ground arith
  step-as_ring s pops = ground arith
  step-as_ring s tries = ground arith
  step-as_ring s closes = refl

  -- Whatever is called, the slot and the ring of capacity 1 reply alike and hold alike.
  pub run-as_ring :
      (s : Slot A) (cs : List (Call A))
      → run ring_buffer (as_ring s) cs
        ≡ (as_ring (run slot_buffer s cs).0, (run slot_buffer s cs).1)
  unfolding run
  run-as_ring s [] = refl
  run-as_ring s (c ∷ cs) = ground (arith, step-as_ring s c, run-as_ring (step slot_buffer s c).0 cs)

  -- So do their statistics, but for the policy.
  pub stats-as_ring :
      (s : Slot A) → Ring.stats (as_ring s) ≡ record (stats s) { policy = drop_oldest }
  unfolding stats Ring.stats
  stats-as_ring s = ground arith
