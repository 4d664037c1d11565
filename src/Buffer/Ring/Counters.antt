-- ===== src/Buffer/Ring/Counters.antt =====
-- The counters of `Stats`, modulo 2^64.
use strixcam.Prelude.{
  ℕ, ◌+◌, ◌%◌, ◌^◌, List, [], ◌∷◌, ◌≡◌, arith, length, length-append, if◌then◌else◌,
}
use strixcam.Buffer.Port.{Call, pushes, pops, tries, closes, step, run, bump}
use strixcam.Buffer.Ring.{Ring, push, try_pop, close, take_front, ring_buffer, pop_front}
use strixcam.Buffer.Ring.Order.{IsBounded, step-IsBounded, pop-eq-take_front, length-pop_front}

module _ {ℓ} {A : Type ℓ} where
  -- 1 for a push on a closed ring: it is counted as dropped and never as pushed.
  abbrev pub refused : Ring A → Call A → ℕ
  refused r (pushes a) = if r.is_closed then 1 else 0
  refused r _ = 0

  abbrev pub all_refused : Ring A → List (Call A) → ℕ
  all_refused r [] = 0
  all_refused r (c ∷ cs) = refused r c + all_refused (step ring_buffer r c).0 cs

  -- The counters agree: what went in came out, was dropped, or is still there.
  abbrev pub Balance : ℕ → Ring A → Type 0
  Balance late r = (r.pushed + late) % 2 ^ 64 ≡ (r.popped + r.dropped + length r.queue) % 2 ^ 64

  push-Balance :
      (late : ℕ) (a : A) (r : Ring A)
      → IsBounded r
      → Balance late r
      → Balance (late + refused r (pushes a)) (push a r).0
  unfolding push bump
  push-Balance late a r v h = ground (
    arith,
    length-pop_front r.queue,
    length-append r.queue (a ∷ []),
    length-append (pop_front r.queue) (a ∷ []),
  )

  take_front-Balance : (late : ℕ) (r : Ring A) → Balance late r → Balance late (take_front r).0
  unfolding take_front bump
  take_front-Balance late r h = ground arith

  step-Balance :
      (late : ℕ) (r : Ring A) (c : Call A)
      → IsBounded r
      → Balance late r
      → Balance (late + refused r c) (step ring_buffer r c).0
  unfolding step close try_pop
  step-Balance late r (pushes a) v h = push-Balance late a r v h
  step-Balance late r pops v h = rw pop-eq-take_front (omega (arith, take_front-Balance late r h))
  step-Balance late r tries v h = omega (arith, take_front-Balance late r h)
  step-Balance late r closes v h = omega arith

  -- From a ring within its capacity whose counters balance, after any calls they balance again,
  -- once the pushes that came after `Close` are counted: pushed plus refused is popped plus
  -- dropped plus what the ring holds, modulo 2^64.
  pub run-Balance :
      (late : ℕ) (r : Ring A) (cs : List (Call A))
      → IsBounded r
      → Balance late r
      → Balance (late + all_refused r cs) (run ring_buffer r cs).0
  unfolding run
  run-Balance late r [] v h = omega arith
  run-Balance late r (c ∷ cs) v h = omega (
    arith,
    run-Balance (late + refused r c) (step ring_buffer r c).0 cs (step-IsBounded r c v)
        (step-Balance late r c v h),
  )
