-- ===== src/Buffer/Slot.antt =====
-- src/domain/buffer/services/latest-only-slot.hpp
pub mod Refines
use strixcam.Prelude.{ℕ, Bool, true, false, Option, none, some, ◌||◌, if◌then◌else◌}
use strixcam.Buffer.Port.{BufferStats, latest_only, bump, FrameBuffer}

pub record Slot {ℓ} (A : Type ℓ) : Type ℓ where
  pub slot : Option A
  pub is_closed : Bool
  pub pushed : ℕ
  pub popped : ℕ
  pub dropped : ℕ

module _ {ℓ} {A : Type ℓ} where
  abbrev pub has_value : Option A → Bool
  has_value none = false
  has_value (some a) = true

  unfoldable pub make : Slot A
  make = record { slot = none; is_closed = false; pushed = 0; popped = 0; dropped = 0 }

  displace : Slot A → Slot A × Bool
  displace s =
      if has_value s.slot then (record s { dropped = bump s.dropped }, false) else (s, true)

  emplace : A → Slot A → Slot A
  emplace value s = record s { slot = some value; pushed = bump s.pushed }

  unfoldable pub push : A → Slot A → Slot A × Bool
  unfolding displace emplace
  push value s =
      if s.is_closed
      then (record s { dropped = bump s.dropped }, false)
      else let (s', clean) = displace s in (emplace value s', clean)

  unfoldable pub take_value : Slot A → Slot A × Option A
  take_value s = elim s.slot [
    | none ↦ (s, none)
    | some a ↦ (record s { slot = none; popped = bump s.popped }, some a)
  ]

  unfoldable pub pop : Slot A → Slot A × Option A
  unfolding take_value
  pop s = if has_value s.slot || s.is_closed then take_value s else (s, none)

  unfoldable pub try_pop : Slot A → Slot A × Option A
  unfolding take_value
  try_pop s = take_value s

  unfoldable pub close : Slot A → Slot A
  close s = record s { is_closed = true }

  unfoldable pub stats : Slot A → BufferStats
  stats s = record {
    policy = latest_only;
    capacity = 1;
    depth = if has_value s.slot then 1 else 0;
    pushed = s.pushed;
    popped = s.popped;
    dropped = s.dropped;
  }

  abbrev pub slot_buffer : FrameBuffer A
  slot_buffer = record {
    Store = Slot A;
    push = push;
    pop = pop;
    try_pop = try_pop;
    close = close;
    stats = stats;
  }
