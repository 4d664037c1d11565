-- ===== src/Recording/RawSink/Cameras.antt =====
-- A camera's writer over the calls of a raw capture.
use mathlib.Core.List.{Sublist, append_assoc, sublist-append_left}
use mathlib.Core.List.Sublist
use strixcam.Prelude.{
  ℕ, zero, suc, Bool, true, false, not, ◌||◌, some, List, [], ◌∷◌, ◌++◌, length, get_elem?, nat_eq,
  leb, if◌then◌else◌, ◌≡◌, refl, sym, ap, ◌∙◌, subst, arith, Bool-cases, inl, inr,
}
use strixcam.Prelude.Bytes.{Bytes}
use strixcam.Buffer.Ring as Ring
use strixcam.Buffer.Ring.Order.{push-sublist}
use strixcam.Recording.RawSink.{
  CameraWriter, RawCaptureSink, push_camera, update_at, writer_turn, pushed_to,
}
use strixcam.Recording.RawSink.Files.{writer_turn-Keeps}

pub data SinkCall (F : Type 0) : Type 0 where
  pushes : Bool → ℕ → F → SinkCall F
  turns : ℕ → Bool → SinkCall F

module _ {F : Type 0} where
  abbrev pub step : SinkCall F → RawCaptureSink F → RawCaptureSink F
  step (pushes free i frame) s = push_camera free i frame s
  step (turns i lands) s = record s { writers = update_at i (writer_turn lands) s.writers }

  abbrev pub run : List (SinkCall F) → RawCaptureSink F → RawCaptureSink F
  run [] s = s
  run (c ∷ cs) s = run cs (step c s)

  -- The frames that the calls push to a camera.
  abbrev pub offered : ℕ → List (SinkCall F) → List F
  offered i [] = []
  offered i (pushes free j frame ∷ cs) =
      let rest = offered i cs in if nat_eq j i then frame ∷ rest else rest
  offered i (turns j lands ∷ cs) = offered i cs

  -- The frames in a writer's file and queue are some of these, in their order.
  abbrev pub Holds : CameraWriter F → List F → Type 0
  Holds w frames = Sublist (w.file ++ w.ring.queue) frames

  get_elem?-update_at :
      (ws : List (CameraWriter F)) (i j : ℕ) (f : CameraWriter F → CameraWriter F)
      (w : CameraWriter F)
      → get_elem? ws i ≡ some w
      → get_elem? (update_at j f ws) i ≡ some (if nat_eq j i then f w else w)
  unfolding update_at
  get_elem?-update_at [] i j f w h = absurd (ground arith)
  get_elem?-update_at (x ∷ xs) zero zero f w h = ground arith
  get_elem?-update_at (x ∷ xs) zero (suc j) f w h = ground arith
  get_elem?-update_at (x ∷ xs) (suc i) zero f w h = ground arith
  get_elem?-update_at (x ∷ xs) (suc i) (suc j) f w h =
      ground (arith, get_elem?-update_at xs i j f w h)

  -- The camera's writer at some moment, with the frames pushed to the camera so far.
  pub record Camera (i : ℕ) (name : Bytes) (frames : List F) (s : RawCaptureSink F) : Type 0 where
    pub writer : CameraWriter F
    pub there : get_elem? s.writers i ≡ some writer
    pub named : writer.name ≡ name
    pub holds : Holds writer frames

  turn-Camera :
      (i j : ℕ) (lands : Bool) (name : Bytes) (frames : List F) (s : RawCaptureSink F)
      → Camera i name frames s
      → Camera i name frames (step (turns j lands) s)
  turn-Camera i j lands name frames s c = elim (Bool-cases (nat_eq j i)) [
    | inl same ↦
        let kept = writer_turn-Keeps lands c.writer in
        record {
          writer = writer_turn lands c.writer;
          there =
              get_elem?-update_at s.writers i j (writer_turn lands) c.writer c.there
              ∙ ap (λ b. some (if b then writer_turn lands c.writer else c.writer)) same;
          named = kept.name ∙ c.named;
          holds = Sublist.trans kept.held c.holds;
        }
    | inr other ↦ record {
      writer = c.writer;
      there =
          get_elem?-update_at s.writers i j (writer_turn lands) c.writer c.there
          ∙ ap (λ b. some (if b then writer_turn lands c.writer else c.writer)) other;
      named = c.named;
      holds = c.holds;
    }
  ]

  Camera-weaken :
      (i : ℕ) (name : Bytes) (frames more : List F) (s : RawCaptureSink F)
      → Camera i name frames s
      → Camera i name (frames ++ more) s
  Camera-weaken i name frames more s c = record {
    writer = c.writer;
    there = c.there;
    named = c.named;
    holds = Sublist.trans c.holds (sublist-append_left frames more);
  }

  pushed-Holds :
      (frame : F) (w : CameraWriter F) (frames : List F)
      → Holds w frames
      → Holds (pushed_to frame w) (frames ++ frame ∷ [])
  pushed-Holds frame w frames h =
      Sublist.trans
        (subst (λ xs. Sublist (w.file ++ (Ring.push frame w.ring).0.queue) xs)
          (sym (append_assoc w.file w.ring.queue (frame ∷ [])))
          (Sublist.append (Sublist.refl w.file) (push-sublist frame w.ring)))
        (Sublist.append h (Sublist.refl (frame ∷ [])))

  push_camera-skips :
      (free : Bool) (j : ℕ) (frame : F) (s : RawCaptureSink F)
      → (not free || not s.capturing || leb (length s.writers) j) ≡ true
      → push_camera free j frame s ≡ s
  unfolding push_camera
  push_camera-skips free j frame s h = ground (arith, h)

  push_camera-pushes :
      (free : Bool) (j : ℕ) (frame : F) (s : RawCaptureSink F)
      → (not free || not s.capturing || leb (length s.writers) j) ≡ false
      → push_camera free j frame s ≡ record s { writers = update_at j (pushed_to frame) s.writers }
  unfolding push_camera
  push_camera-pushes free j frame s h = ground (arith, h)

  push-Camera :
      (free : Bool) (i j : ℕ) (frame : F) (name : Bytes) (frames : List F) (s : RawCaptureSink F)
      → Camera i name frames s
      → Camera i name (frames ++ offered i (pushes free j frame ∷ [])) (push_camera free j frame s)
  push-Camera free i j frame name frames s c =
      let more = offered i (pushes free j frame ∷ []) in
      elim (Bool-cases (not free || not s.capturing || leb (length s.writers) j)) [
        | inl skips ↦
            subst (Camera i name (frames ++ more)) (sym (push_camera-skips free j frame s skips))
              (Camera-weaken i name frames more s c)
        | inr goes ↦
            let found = get_elem?-update_at s.writers i j (pushed_to frame) c.writer c.there in
            subst (Camera i name (frames ++ more)) (sym (push_camera-pushes free j frame s goes))
              (elim (Bool-cases (nat_eq j i)) [
                | inl same ↦ record {
                  writer = pushed_to frame c.writer;
                  there =
                      found
                      ∙ ap (λ b. some (if b then pushed_to frame c.writer else c.writer)) same;
                  named = c.named;
                  holds =
                      subst
                        (λ b.
                          Holds (pushed_to frame c.writer)
                            (frames ++ (if b then frame ∷ [] else [])))
                        (sym same) (pushed-Holds frame c.writer frames c.holds);
                }
                | inr other ↦ record {
                  writer = c.writer;
                  there =
                      found
                      ∙ ap (λ b. some (if b then pushed_to frame c.writer else c.writer)) other;
                  named = c.named;
                  holds = Sublist.trans c.holds (sublist-append_left frames more);
                }
              ])
      ]

  offered-cons :
      (i : ℕ) (c : SinkCall F) (cs : List (SinkCall F))
      → offered i (c ∷ cs) ≡ offered i (c ∷ []) ++ offered i cs
  offered-cons i (pushes free j frame) cs = ground arith
  offered-cons i (turns j lands) cs = refl

  pub run-Camera :
      (i : ℕ) (name : Bytes) (frames : List F) (cs : List (SinkCall F)) (s : RawCaptureSink F)
      → Camera i name frames s
      → Camera i name (frames ++ offered i cs) (run cs s)
  run-Camera i name frames [] s c = Camera-weaken i name frames [] s c
  run-Camera i name frames (pushes free j frame ∷ cs) s c =
      subst (λ xs. Camera i name xs (run cs (push_camera free j frame s)))
        (append_assoc frames (offered i (pushes free j frame ∷ [])) (offered i cs)
          ∙ ap (λ xs. frames ++ xs) (sym (offered-cons i (pushes free j frame) cs)))
        (run-Camera i name (frames ++ offered i (pushes free j frame ∷ [])) cs
          (push_camera free j frame s) (push-Camera free i j frame name frames s c))
  run-Camera i name frames (turns j lands ∷ cs) s c =
      run-Camera i name frames cs (step (turns j lands) s) (turn-Camera i j lands name frames s c)
