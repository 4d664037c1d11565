-- ===== src/Recording/RawSink/Files.antt =====
-- What stands in the files of a raw capture.
use mathlib.Core.List.{Sublist, append_assoc, append-nil}
use mathlib.Core.List.Sublist
use strixcam.Prelude.{
  ℕ, zero, suc, Bool, true, false, if◌then◌else◌, ◌&&◌, none, some, List, [], ◌∷◌, ◌++◌, length,
  ◌≡◌, refl, sym, ap, ◌∙◌, subst, arith, Bool-cases, inl, inr,
}
use strixcam.Buffer.Ring.{Ring, try_pop, close, take_front}
use strixcam.Buffer.Port.{bump}
use strixcam.Buffer.Ring.Order.{pop-eq-take_front}
use strixcam.Recording.RawSink.{
  CameraWriter, writer_turn, drain, finish_writer, write_frame, written,
}

module _ {F : Type 0} where
  write_frame-Sublist :
      (lands : Bool) (frame : F) (w : CameraWriter F) (rest : List F)
      → Sublist ((write_frame lands frame w).file ++ rest) (w.file ++ frame ∷ rest)
  write_frame-Sublist lands frame w rest = elim (Bool-cases (w.good && lands)) [
    | inl lands_now ↦
        subst (λ xs. Sublist xs (w.file ++ frame ∷ rest))
          (sym (append_assoc w.file (frame ∷ []) rest)
            ∙ ap (λ f. f ++ rest) (ground (arith, lands_now)))
          (Sublist.refl (w.file ++ frame ∷ rest))
    | inr lost ↦
        subst (λ f. Sublist (f ++ rest) (w.file ++ frame ∷ rest)) (ground (arith, lost))
          (Sublist.append (Sublist.refl w.file) (Sublist.cons frame (Sublist.refl rest)))
  ]

  pub write_frame-ring :
      (lands : Bool) (frame : F) (w : CameraWriter F)
      → ((write_frame lands frame w).ring ≡ w.ring) × ((write_frame lands frame w).name ≡ w.name)
  write_frame-ring lands frame w = ground arith

  pub record Keeps (after before : CameraWriter F) : Type 0 where
    pub held : Sublist (after.file ++ after.ring.queue) (before.file ++ before.ring.queue)
    pub name : after.name ≡ before.name

  take_front_nil : (r : Ring F) → r.queue ≡ [] → take_front r ≡ (r, none)
  unfolding take_front
  take_front_nil r e = ground (arith, e)

  abbrev without_front : Ring F → List F → Ring F
  without_front r xs = record r { queue = xs; popped = bump r.popped }

  take_front_cons :
      (r : Ring F) (x : F) (xs : List F)
      → r.queue ≡ x ∷ xs
      → take_front r ≡ (without_front r xs, some x)
  unfolding take_front
  take_front_cons r x xs e = ground (arith, e)

  front-Keeps :
      (lands : Bool) (w : CameraWriter F) (x : F) (xs : List F)
      → w.ring.queue ≡ x ∷ xs
      → Keeps (write_frame lands x (record w { ring = without_front w.ring xs })) w
  front-Keeps lands w x xs e =
      let taken = record w { ring = without_front w.ring xs } in
      let (ring, name) = write_frame-ring lands x taken in
      let after = write_frame lands x taken in
      record {
        held =
            subst (λ q. Sublist (after.file ++ q) (w.file ++ w.ring.queue))
              (ap (λ r. r.queue) (sym ring))
              (subst (λ q. Sublist (after.file ++ xs) (w.file ++ q)) (sym e)
                (write_frame-Sublist lands x taken xs));
        name = name;
      }

  written-Keeps :
      (lands : Bool) (w : CameraWriter F) (xs : List F)
      → w.ring.queue ≡ xs
      → Keeps (written lands w (take_front w.ring)) w
  written-Keeps lands w [] e =
      subst (λ r. Keeps (written lands w r) w) (sym (take_front_nil w.ring e))
        (record { held = Sublist.refl (w.file ++ w.ring.queue); name = refl })
  written-Keeps lands w (x ∷ xs) e =
      subst (λ r. Keeps (written lands w r) w) (sym (take_front_cons w.ring x xs e))
        (front-Keeps lands w x xs e)

  pub writer_turn-Keeps : (lands : Bool) (w : CameraWriter F) → Keeps (writer_turn lands w) w
  unfolding writer_turn
  writer_turn-Keeps lands w =
      subst (λ r. Keeps (written lands w r) w) (sym (pop-eq-take_front w.ring))
        (written-Keeps lands w w.ring.queue refl)

  drain_nil : (n : ℕ) (lands : Bool) (w : CameraWriter F) → w.ring.queue ≡ [] → drain n lands w ≡ w
  unfolding drain try_pop
  drain_nil zero lands w e = refl
  drain_nil (suc n) lands w e = rw (take_front_nil w.ring e, drain) refl

  drain_cons :
      (n : ℕ) (lands : Bool) (w : CameraWriter F) (x : F) (xs : List F)
      → w.ring.queue ≡ x ∷ xs
      → drain (suc n) lands w
        ≡ drain n lands (write_frame lands x (record w { ring = without_front w.ring xs }))
  unfolding drain try_pop
  drain_cons n lands w x xs e = ground (arith, take_front_cons w.ring x xs e)

  -- Drained of all that is queued.
  drain-empties :
      (lands : Bool) (w : CameraWriter F) (xs : List F)
      → w.ring.queue ≡ xs
      → ((drain (length xs) lands w).ring.queue ≡ []) × Keeps (drain (length xs) lands w) w
  drain-empties lands w [] e =
      let same = drain_nil 0 lands w e in
      subst (λ v. (v.ring.queue ≡ []) × Keeps v w) (sym same)
        (e, record { held = Sublist.refl (w.file ++ w.ring.queue); name = refl })
  drain-empties lands w (x ∷ xs) e =
      let next = write_frame lands x (record w { ring = without_front w.ring xs }) in
      let (ring, _) = write_frame-ring lands x (record w { ring = without_front w.ring xs }) in
      let front = front-Keeps lands w x xs e in
      let (empty, rest) = drain-empties lands next xs (ap (λ r. r.queue) ring) in
      subst (λ v. (v.ring.queue ≡ []) × Keeps v w) (sym (drain_cons (length xs) lands w x xs e))
        (empty, record { held = Sublist.trans rest.held front.held; name = rest.name ∙ front.name })

  write_frame-lands :
      (lands : Bool) (frame : F) (w : CameraWriter F)
      → (w.good && lands) ≡ true
      → ((write_frame lands frame w).file ≡ w.file ++ frame ∷ [])
        × (((write_frame lands frame w).good && lands) ≡ true)
  write_frame-lands lands frame w h = ground (arith, h)

  -- Where the writes land, a good file gets the whole queue.
  drain-writes :
      (lands : Bool) (w : CameraWriter F) (xs : List F)
      → w.ring.queue ≡ xs
      → (w.good && lands) ≡ true
      → (drain (length xs) lands w).file ≡ w.file ++ xs
  drain-writes lands w [] e h = ap (λ v. v.file) (drain_nil 0 lands w e) ∙ sym (append-nil w.file)
  drain-writes lands w (x ∷ xs) e h =
      let taken = record w { ring = without_front w.ring xs } in
      let next = write_frame lands x taken in
      let (file, good) = write_frame-lands lands x taken h in
      let (ring, _) = write_frame-ring lands x taken in
      ap (λ v. v.file) (drain_cons (length xs) lands w x xs e)
      ∙ drain-writes lands next xs (ap (λ r. r.queue) ring) good
      ∙ ap (λ l. l ++ xs) file
      ∙ append_assoc w.file (x ∷ []) xs

  write_frame-fails :
      (lands : Bool) (frame : F) (w : CameraWriter F)
      → (w.good && lands) ≡ false
      → ((write_frame lands frame w).file ≡ w.file)
        × (((write_frame lands frame w).good && lands) ≡ false)
  write_frame-fails lands frame w h = ground (arith, h)

  drain-loses :
      (lands : Bool) (w : CameraWriter F) (xs : List F)
      → w.ring.queue ≡ xs
      → (w.good && lands) ≡ false
      → (drain (length xs) lands w).file ≡ w.file
  drain-loses lands w [] e h = ap (λ v. v.file) (drain_nil 0 lands w e)
  drain-loses lands w (x ∷ xs) e h =
      let taken = record w { ring = without_front w.ring xs } in
      let next = write_frame lands x taken in
      let (file, lost) = write_frame-fails lands x taken h in
      let (ring, _) = write_frame-ring lands x taken in
      ap (λ v. v.file) (drain_cons (length xs) lands w x xs e)
      ∙ drain-loses lands next xs (ap (λ r. r.queue) ring) lost
      ∙ file

  -- A finished file has got the whole queue, in its order, where it was good and the writes land.
  pub finish_writer-writes :
      (lands : Bool) (w : CameraWriter F)
      → (finish_writer lands w).file ≡ (if w.good && lands then w.file ++ w.ring.queue else w.file)
  unfolding finish_writer close
  finish_writer-writes lands w =
      let closed = record w { ring = close w.ring } in
      elim (Bool-cases (w.good && lands)) [
        | inl all ↦ rw all (drain-writes lands closed w.ring.queue refl all)
        | inr lost ↦ rw lost (drain-loses lands closed w.ring.queue refl lost)
      ]

  -- A finished file holds frames of the file before and of the queue, and the queue is empty.
  pub finish_writer-Keeps :
      (lands : Bool) (w : CameraWriter F)
      → ((finish_writer lands w).ring.queue ≡ []) × Keeps (finish_writer lands w) w
  unfolding finish_writer close
  finish_writer-Keeps lands w =
      let (empty, kept) =
        drain-empties lands (record w { ring = close w.ring }) w.ring.queue refl in
      (empty, record { held = kept.held; name = kept.name })
