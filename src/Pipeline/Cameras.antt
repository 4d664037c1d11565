-- ===== src/Pipeline/Cameras.antt =====
-- PipelineOrchestrator::Start and Stop: which cameras run.
use strixcam.Prelude.{Bool, false, List, [], ◌∷◌, ◌≡◌, refl, All, Bool-cases, inl, inr}
use strixcam.Pipeline.{CapturePorts, Pipeline, start_cameras, start, stop, stop_cameras}

module _ {C : Type 0} (ports : CapturePorts C)
    (stops : (c : C) → ports.is_running (ports.stop c) ≡ false) where
  -- Every camera runs, or none does.
  abbrev pub Uniform : Bool → List C → Type 0
  Uniform on = All (λ c. ports.is_running c ≡ on)

  start_cameras-Uniform :
      (cs : List C)
      → Uniform false cs
      → Uniform (start_cameras ports cs).1 (start_cameras ports cs).0
  unfolding start_cameras
  start_cameras-Uniform [] off = off
  start_cameras-Uniform (c ∷ cs) (off, rest) =
      let later = start_cameras-Uniform cs rest in
      elim (Bool-cases (ports.is_running (ports.start c))) [
        | inr failed ↦ rw failed (failed, rest)
        | inl runs ↦ elim (Bool-cases (start_cameras ports cs).1) [
          | inl good ↦ rw (runs, good) (runs, rw good at later)
          | inr bad ↦ rw (runs, bad) (stops (ports.start c), rw bad at later)
        ]
      ]

  stop_cameras-Uniform : (cs : List C) → Uniform false (stop_cameras ports cs)
  stop_cameras-Uniform [] = tt
  stop_cameras-Uniform (c ∷ cs) = (stops c, stop_cameras-Uniform cs)

  -- `Start` and `Stop` of a pipeline that is not running.
  start_off :
      (cs : List C)
      → Uniform false cs
      → let p : Pipeline C = record { cameras = cs; running = false } in
        ((start ports p).1 ≡ (start ports p).0.running)
        × Uniform (start ports p).0.running (start ports p).0.cameras
        × Uniform (stop ports p).running (stop ports p).cameras
  unfolding start stop
  start_off [] u = (refl, tt, tt)
  start_off (c ∷ cs) u = (refl, start_cameras-Uniform (c ∷ cs) u, u)

  -- Where `Stop` of a camera stops it: from a pipeline whose cameras all run or all rest, as its
  -- running flag says, `Start` returns the flag that it leaves, and after it and after `Stop` all
  -- cameras are again as the flag says; a failed start leaves none running.
  pub start-Uniform :
      (p : Pipeline C)
      → Uniform p.running p.cameras
      → ((start ports p).1 ≡ (start ports p).0.running)
        × Uniform (start ports p).0.running (start ports p).0.cameras
        × Uniform (stop ports p).running (stop ports p).cameras
  unfolding start stop
  start-Uniform p u = elim (Bool-cases p.running) [
    | inl on ↦ rw on (refl, rw on at u, stop_cameras-Uniform p.cameras)
    | inr off ↦ rw off (start_off p.cameras (rw off at u))
  ]
