-- ===== src/Buffer/Port.antt =====
-- src/app/buffer/ports/frame-buffer.hpp, domain/buffer/models: the interface that the pipeline
-- uses, and the histories of calls on a buffer.
use strixcam.Prelude.{ℕ, ◌+◌, ◌%◌, ◌^◌, Bool, Option, some, List, [], ◌∷◌, ◌++◌}

pub data BufferPolicy : Type 0 where
  latest_only drop_oldest : BufferPolicy

pub record BufferStats : Type 0 where
  pub policy : BufferPolicy
  pub capacity : ℕ
  pub depth : ℕ
  pub pushed : ℕ
  pub popped : ℕ
  pub dropped : ℕ

-- `++n` on a `std::uint64_t`.
unfoldable pub bump : ℕ → ℕ
bump n = (n + 1) % 2 ^ 64

-- `Pop` returns when its wait ends: `woken` is the state of the buffer at that moment.
pub record FrameBuffer {ℓ} (A : Type ℓ) : Type (ℓ + 1) where
  pub Store : Type ℓ
  pub push : A → Store → Store × Bool
  pub pop : Store → Store × Option A
  pub try_pop : Store → Store × Option A
  pub close : Store → Store
  pub stats : Store → BufferStats

-- One call on a buffer, by any thread.
pub data Call {ℓ} (A : Type ℓ) : Type ℓ where
  pushes : A → Call A
  pops tries closes : Call A

-- What a call returns.
pub data Reply {ℓ} (A : Type ℓ) : Type ℓ where
  stored : Bool → Reply A
  taken : Option A → Reply A
  closed : Reply A

module _ {ℓ} {A : Type ℓ} where
  abbrev pub delivered : Reply A → List A
  delivered (taken (some a)) = a ∷ []
  delivered _ = []

  abbrev pub offered : Call A → List A
  offered (pushes a) = a ∷ []
  offered _ = []

  abbrev pub all_delivered : List (Reply A) → List A
  all_delivered [] = []
  all_delivered (r ∷ rs) = delivered r ++ all_delivered rs

  abbrev pub all_offered : List (Call A) → List A
  all_offered [] = []
  all_offered (c ∷ cs) = offered c ++ all_offered cs

  module _ (b : FrameBuffer A) where
    unfoldable pub step : b.Store → Call A → b.Store × Reply A
    step s (pushes a) = let (s', clean) = b.push a s in (s', stored clean)
    step s pops = let (s', out) = b.pop s in (s', taken out)
    step s tries = let (s', out) = b.try_pop s in (s', taken out)
    step s closes = (b.close s, closed)

    unfoldable pub run : b.Store → List (Call A) → b.Store × List (Reply A)
    run s [] = (s, [])
    run s (c ∷ cs) = let (s', r) = step s c in let (s'', rs) = run s' cs in (s'', r ∷ rs)
