-- ===== src/Buffer/Ring.antt =====
-- src/domain/buffer/services/drop-oldest-ring.hpp. The counters wrap as `std::uint64_t` does.
pub mod Order
pub mod Counters
use strixcam.Prelude.{
  ℕ, ◌<◌, ◌≤◌, Bool, true, false, not, Option, none, some, List, [], ◌∷◌, ◌++◌, ◌||◌, ◌≡◌, arith,
  length, leb, nat_eq, if◌then◌else◌,
}
use strixcam.Buffer.Port.{BufferStats, drop_oldest, bump, FrameBuffer}

pub record Ring {ℓ} (A : Type ℓ) : Type ℓ where
  pub queue : List A
  pub capacity : ℕ
  pub is_closed : Bool
  pub pushed : ℕ
  pub popped : ℕ
  pub dropped : ℕ

module _ {ℓ} {A : Type ℓ} where
  abbrev pub pop_front : List A → List A
  pop_front [] = []
  pop_front (x ∷ xs) = xs

  abbrev pub is_empty : List A → Bool
  is_empty [] = true
  is_empty (x ∷ xs) = false

  -- The constructor: it throws on a capacity of 0.
  unfoldable pub make : ℕ → Option (Ring A)
  make capacity =
      if nat_eq capacity 0
      then none
      else some (record {
        queue = [];
        capacity = capacity;
        is_closed = false;
        pushed = 0;
        popped = 0;
        dropped = 0;
      })

  make_room : Ring A → Ring A × Bool
  make_room r =
      if leb r.capacity (length r.queue)
      then (record r { queue = pop_front r.queue; dropped = bump r.dropped }, false)
      else (r, true)

  append : A → Ring A → Ring A
  append value r = record r { queue = r.queue ++ value ∷ []; pushed = bump r.pushed }

  unfoldable pub push : A → Ring A → Ring A × Bool
  unfolding make_room append
  push value r =
      if r.is_closed
      then (record r { dropped = bump r.dropped }, false)
      else let (r', clean) = make_room r in (append value r', clean)

  unfoldable pub take_front : Ring A → Ring A × Option A
  take_front r = elim r.queue [
    | [] ↦ (r, none)
    | front ∷ rest ↦ (record r { queue = rest; popped = bump r.popped }, some front)
  ]

  -- The wait ends with the predicate true, or by the timeout with the predicate false.
  unfoldable pub pop : Ring A → Ring A × Option A
  unfolding take_front
  pop r = if not (is_empty r.queue) || r.is_closed then take_front r else (r, none)

  unfoldable pub try_pop : Ring A → Ring A × Option A
  unfolding take_front
  try_pop r = take_front r

  unfoldable pub close : Ring A → Ring A
  close r = record r { is_closed = true }

  unfoldable pub stats : Ring A → BufferStats
  stats r = record {
    policy = drop_oldest;
    capacity = r.capacity;
    depth = length r.queue;
    pushed = r.pushed;
    popped = r.popped;
    dropped = r.dropped;
  }

  abbrev pub ring_buffer : FrameBuffer A
  ring_buffer = record {
    Store = Ring A;
    push = push;
    pop = pop;
    try_pop = try_pop;
    close = close;
    stats = stats;
  }
