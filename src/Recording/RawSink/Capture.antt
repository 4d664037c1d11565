-- ===== src/Recording/RawSink/Capture.antt =====
-- A raw capture from its start to its stop.
use mathlib.Core.List.{Sublist, append-nil}
use mathlib.Core.List.Sublist
use strixcam.Prelude.{
  ℕ, zero, suc, ◌+◌, ◌<◌, Bool, true, ◌&&◌, if◌then◌else◌, some, List, [], ◌∷◌, ◌++◌, get_elem?,
  map, ◌≡◌, refl, sym, ap, ◌∙◌, subst, arith, Option-cases, inl, inr,
}
use strixcam.Prelude.Bytes.{Bytes}
use strixcam.Network.Naming.{file_name}
use strixcam.Recording.RawSink.{
  CameraWriter, RawCaptureSink, start, finish_writer, stop, open_writers, fresh_writer,
}
use strixcam.Recording.RawSink.Files.{finish_writer-Keeps, finish_writer-writes}
use strixcam.Recording.RawSink.Cameras.{SinkCall, run, offered, Camera, run-Camera}

module _ {F : Type 0} where
  abbrev fresh_from : Bytes → ℕ → ℕ → List (CameraWriter F)
  fresh_from group first zero = []
  fresh_from group first (suc n) = fresh_writer group first ∷ fresh_from group (suc first) n

  open_writers_all :
      (opens : Bytes → Bool) (group : Bytes) (first n : ℕ) (ws : List (CameraWriter F))
      → open_writers opens group first n ≡ some ws
      → ws ≡ fresh_from group first n
  unfolding open_writers
  open_writers_all opens group first zero ws e = cc
  open_writers_all opens group first (suc n) ws e =
      elim (Option-cases (open_writers {F = F} opens group (suc first) n)) [
        | inl stops ↦ absurd (ground (arith, e, stops))
        | inr (rest, goes) ↦
            let tail = open_writers_all opens group (suc first) n rest goes in
            ground (arith, e, goes, tail)
      ]

  get_elem?-fresh_from :
      (group : Bytes) (first n i : ℕ)
      → i < n
      → get_elem? (fresh_from group first n) i ≡ some (fresh_writer group (first + i))
  get_elem?-fresh_from group first zero i h = absurd (omega arith)
  get_elem?-fresh_from group first (suc n) zero h =
      ap (λ k. some (fresh_writer group k)) (omega arith)
  get_elem?-fresh_from group first (suc n) (suc i) h =
      get_elem?-fresh_from group (suc first) n i (omega arith)
      ∙ ap (λ k. some (fresh_writer group k)) (omega arith)

  started :
      (makes_dir : Bool) (opens : Bytes → Bool) (group : Bytes) (s : RawCaptureSink F)
      → (start makes_dir opens group s).1 ≡ true
      → (start makes_dir opens group s).0.writers ≡ fresh_from group 0 s.camera_count
  unfolding start
  started makes_dir opens group s h =
      elim (Option-cases (open_writers {F = F} opens group 0 s.camera_count)) [
        | inl stops ↦ absurd (ground (arith, h, stops))
        | inr (ws, goes) ↦
            let all_fresh = open_writers_all opens group 0 s.camera_count ws goes in
            ground (arith, h, goes, all_fresh)
      ]

  get_elem?-map :
      (f : CameraWriter F → CameraWriter F) (ws : List (CameraWriter F)) (i : ℕ)
      (w : CameraWriter F)
      → get_elem? ws i ≡ some w
      → get_elem? (map f ws) i ≡ some (f w)
  get_elem?-map f [] i w h = absurd (ground arith)
  get_elem?-map f (x ∷ xs) zero w h = ground arith
  get_elem?-map f (x ∷ xs) (suc i) w h = get_elem?-map f xs i w h

  stopped :
      (lands : Bool) (s : RawCaptureSink F)
      → (stop lands s).2 ≡ true
      → (stop lands s).1 ≡ map (finish_writer lands) s.writers
  unfolding stop
  stopped lands s h = ground (arith, h)

  -- What the file of a camera has become since the stop began: it is named after the group and the
  -- camera, and holds frames that were pushed to this camera, in their order, each once. Where the
  -- file was good and the writes land, it has got the whole queue; else it is as it was.
  pub record Captured (lands : Bool) (group : Bytes) (i : ℕ) (cs : List (SinkCall F))
      (before files : List (CameraWriter F)) : Type 0 where
    pub waiting : CameraWriter F
    pub was : get_elem? before i ≡ some waiting
    pub writer : CameraWriter F
    pub there : get_elem? files i ≡ some writer
    pub named : writer.name ≡ file_name (record { capture_group_id = group; camera_index = i })
    pub frames : Sublist writer.file (offered i cs)
    pub flushed :
        writer.file
        ≡ (if waiting.good && lands then waiting.file ++ waiting.ring.queue else waiting.file)
    pub drained : writer.ring.queue ≡ []

  -- From a start that succeeds, through any pushes and turns of the writers, to a stop that
  -- succeeds: each camera's file is named after the group and the camera, and holds frames that were
  -- pushed to this camera, in their order, each once. The stop adds all that is still queued for the
  -- camera to its file where the file is good and its writes land, and nothing where not; then the
  -- queue is empty.
  pub stop-Captured :
      (makes_dir lands : Bool) (opens : Bytes → Bool) (group : Bytes) (s : RawCaptureSink F)
      (cs : List (SinkCall F)) (i : ℕ)
      → (start makes_dir opens group s).1 ≡ true
      → i < s.camera_count
      → (stop lands (run cs (start makes_dir opens group s).0)).2 ≡ true
      → let last = run cs (start makes_dir opens group s).0 in
        Captured lands group i cs last.writers (stop lands last).1
  stop-Captured makes_dir lands opens group s cs i starts below stops =
      let begun = (start makes_dir opens group s).0 in
      let name = file_name (record { capture_group_id = group; camera_index = i }) in
      let first : Camera i name [] begun = record {
        writer = fresh_writer group i;
        there =
            ap (λ ws. get_elem? ws i) (started makes_dir opens group s starts)
            ∙ get_elem?-fresh_from group 0 s.camera_count i below
            ∙ ap (λ k. some (fresh_writer group k)) (omega arith);
        named = refl;
        holds = Sublist.refl [];
      } in
      let last = run-Camera i name [] cs begun first in
      let (empty, kept) = finish_writer-Keeps lands last.writer in
      let finished = finish_writer lands last.writer in
      record {
        waiting = last.writer;
        was = last.there;
        writer = finished;
        there =
            ap (λ ws. get_elem? ws i) (stopped lands (run cs begun) stops)
            ∙ get_elem?-map (finish_writer lands) (run cs begun).writers i last.writer last.there;
        named = kept.name ∙ last.named;
        frames =
            Sublist.trans
              (subst (λ q. Sublist finished.file (finished.file ++ q)) (sym empty)
                (subst (λ xs. Sublist finished.file xs) (sym (append-nil finished.file))
                  (Sublist.refl finished.file)))
              (Sublist.trans kept.held last.holds);
        flushed = finish_writer-writes lands last.writer;
        drained = empty;
      }
