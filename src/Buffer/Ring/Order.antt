-- ===== src/Buffer/Ring/Order.antt =====
-- What a `DropOldestRing` delivers, in which order, and how much it holds.
use mathlib.Core.List.{Sublist, append_assoc, append-nil, sublist-append_left}
use mathlib.Core.List.Sublist
use strixcam.Prelude.{
  ◌<◌, ◌≤◌, ◌-◌, false, List, [], ◌∷◌, ◌++◌, ◌≡◌, refl, arith, length, length-append, drop, inl,
  inr, leb, Bool-cases,
}
use strixcam.Buffer.Port.{
  Call, pushes, pops, tries, closes, taken, step, run, all_delivered, all_offered, delivered,
  offered,
}
use strixcam.Buffer.Ring.{Ring, push, pop, try_pop, close, take_front, ring_buffer, pop_front}

module _ {ℓ} {A : Type ℓ} where
  -- The capacity is positive, and the queue stays within it.
  pub record IsBounded (r : Ring A) : Type 0 where
    pub positive : 0 < r.capacity
    pub within : length r.queue ≤ r.capacity

  pub length-pop_front : (xs : List A) → length (pop_front xs) ≡ length xs - 1
  length-pop_front [] = omega arith
  length-pop_front (x ∷ xs) = omega arith

  pop_front-drop :
      (xs : List A) (value : A)
      → 0 < length xs
      → pop_front xs ++ value ∷ [] ≡ drop 1 (xs ++ value ∷ [])
  pop_front-drop [] value h = absurd (omega arith)
  pop_front-drop (x ∷ xs) value h = refl

  -- A push on an open ring keeps the newest `capacity` values of the queue and the new value.
  pub push-queue :
      (value : A) (r : Ring A)
      → IsBounded r
      → r.is_closed ≡ false
      → (push value r).0.queue
        ≡ drop (length (r.queue ++ value ∷ []) - r.capacity) (r.queue ++ value ∷ [])
  unfolding push
  push-queue value r v h = elim (Bool-cases (leb r.capacity (length r.queue))) [
    | inl full ↦
        let e : length (r.queue ++ value ∷ []) - r.capacity ≡ 1 =
          ground (arith, length-append r.queue (value ∷ [])) in
        rw (h, full, e) (pop_front-drop r.queue value (ground arith))
    | inr room ↦
        let e : length (r.queue ++ value ∷ []) - r.capacity ≡ 0 =
          ground (arith, length-append r.queue (value ∷ [])) in
        rw (h, room, e)
  ]

  pub step-IsBounded : (r : Ring A) (c : Call A) → IsBounded r → IsBounded (step ring_buffer r c).0
  unfolding step push pop try_pop close
  step-IsBounded r (pushes a) v = ground (
    arith,
    length-pop_front r.queue,
    length-append r.queue (a ∷ []),
    length-append (pop_front r.queue) (a ∷ []),
  )
  step-IsBounded r pops v = ground arith
  step-IsBounded r tries v = ground arith
  step-IsBounded r closes v = ground arith

  -- A ring with a positive capacity that is within it stays so, whatever is called.
  pub run-IsBounded :
      (r : Ring A) (cs : List (Call A)) → IsBounded r → IsBounded (run ring_buffer r cs).0
  unfolding run
  run-IsBounded r [] v = v
  run-IsBounded r (c ∷ cs) v = run-IsBounded (step ring_buffer r c).0 cs (step-IsBounded r c v)

  pop_front-sublist : (xs : List A) → Sublist (pop_front xs) xs
  pop_front-sublist [] = Sublist.refl []
  pop_front-sublist (x ∷ xs) = Sublist.cons x (Sublist.refl xs)

  pub take_front-sublist :
      (r : Ring A)
      → Sublist (delivered (taken (take_front r).1) ++ (take_front r).0.queue) (r.queue ++ [])
  unfolding take_front
  take_front-sublist r = from r.queue refl
    where
      from :
          (xs : List A)
          → r.queue ≡ xs
          → Sublist (delivered (taken (take_front r).1) ++ (take_front r).0.queue) (r.queue ++ [])
      from [] e = rw (append-nil, e) (Sublist.refl [])
      from (x ∷ xs) e = rw (append-nil, e) (Sublist.refl (x ∷ xs))

  -- The wait of `Pop` changes nothing: with the queue empty there is nothing to take.
  pub pop-eq-take_front : (r : Ring A) → pop r ≡ take_front r
  unfolding pop take_front
  pop-eq-take_front r = ground arith

  pub push-sublist : (a : A) (r : Ring A) → Sublist (push a r).0.queue (r.queue ++ a ∷ [])
  unfolding push
  push-sublist a r = ground (
    arith,
    Sublist.append (pop_front-sublist r.queue) (Sublist.refl (a ∷ [])),
    Sublist.refl (r.queue ++ a ∷ []),
    sublist-append_left r.queue (a ∷ []),
  )

  step-sublist :
      (r : Ring A) (c : Call A)
      → let (r', out) = step ring_buffer r c in
        Sublist (delivered out ++ r'.queue) (r.queue ++ offered c)
  unfolding step close try_pop
  step-sublist r (pushes a) = push-sublist a r
  step-sublist r pops = rw pop-eq-take_front (take_front-sublist r)
  step-sublist r tries = take_front-sublist r
  step-sublist r closes = rw append-nil (Sublist.refl r.queue)

  -- What a ring has delivered, followed by what it still holds, is a subsequence of what it held
  -- before, followed by what was pushed: values leave in the order in which they came, each once.
  pub run-sublist :
      (r : Ring A) (cs : List (Call A))
      → let (r', out) = run ring_buffer r cs in
        Sublist (all_delivered out ++ r'.queue) (r.queue ++ all_offered cs)
  unfolding run
  run-sublist r [] = rw append-nil (Sublist.refl r.queue)
  run-sublist r (c ∷ cs) =
      let (r', out) = step ring_buffer r c in
      let rest = run ring_buffer r' cs in
      let later = Sublist.append (Sublist.refl (delivered out)) (run-sublist r' cs) in
      let now = Sublist.append (step-sublist r c) (Sublist.refl (all_offered cs)) in
      rw (append_assoc (delivered out) (all_delivered rest.1) rest.0.queue) (
        Sublist.trans later (
          rw
            (
              ← append_assoc (delivered out) r'.queue (all_offered cs),
              ← append_assoc r.queue (offered c) (all_offered cs),
            )
            now))
