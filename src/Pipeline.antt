-- ===== src/Pipeline.antt =====
-- src/app/pipeline/services/orchestrator and src/app/decision/services/static_decision: the
-- capture of the cameras and one turn of the consumer's loop. Threads are left out: the turn takes
-- the bundles that it popped from the cameras' slots.
pub mod Presenting
pub mod Capture
pub mod Producer
pub mod Cameras
use strixcam.Prelude.{
  ℕ, Bool, true, false, ◌||◌, not, Option, none, some, List, [], ◌∷◌, nat_eq, if◌then◌else◌,
  get_elem?,
}

-- ICaptureSource over a source `C`.
pub record CapturePorts (C : Type 0) : Type 0 where
  pub start : C → C
  pub is_running : C → Bool
  pub stop : C → C

pub record Pipeline (C : Type 0) : Type 0 where
  pub cameras : List C
  pub running : Bool

module _ {C : Type 0} (ports : CapturePorts C) where
  -- The loop of `Start`, with the roll-back of the cameras before one that failed; they are
  -- stopped here from the last to the first.
  unfoldable pub start_cameras : List C → List C × Bool
  start_cameras [] = ([], true)
  start_cameras (c ∷ cs) =
      let (rest, good) = start_cameras cs in
      if not (ports.is_running (ports.start c))
      then (ports.start c ∷ cs, false)
      else if good
      then (ports.start c ∷ rest, true)
      else (ports.stop (ports.start c) ∷ rest, false)

  abbrev is_nil : List C → Bool
  is_nil [] = true
  is_nil (c ∷ cs) = false

  unfoldable pub start : Pipeline C → Pipeline C × Bool
  unfolding start_cameras
  start p =
      if p.running
      then (p, true)
      else if is_nil p.cameras
      then (p, false)
      else let (cameras, good) = start_cameras p.cameras in
        (record { cameras = cameras; running = good }, good)

  abbrev stop_cameras : List C → List C
  stop_cameras [] = []
  stop_cameras (c ∷ cs) = ports.stop c ∷ stop_cameras cs

  unfoldable pub stop : Pipeline C → Pipeline C
  stop p = if not p.running then p else record { cameras = stop_cameras p.cameras; running = false }

pub record CropRect : Type 0 where
  pub x : ℕ
  pub y : ℕ
  pub width : ℕ
  pub height : ℕ

pub record CameraChoice : Type 0 where
  pub camera_index : ℕ
  pub crop : CropRect

-- A bundle with a source frame `F`, whose geometry is a width and a height.
pub record FrameBundle (F : Type 0) : Type 0 where
  pub source_frame : F
  pub width : ℕ
  pub height : ℕ

abbrev full_frame : {F : Type 0} → FrameBundle F → Option CameraChoice
full_frame bundle =
    if nat_eq bundle.width 0 || nat_eq bundle.height 0
    then none
    else some (record {
      camera_index = 0;
      crop = record { x = 0; y = 0; width = bundle.width; height = bundle.height };
    })

-- `StaticDecision::Decide`.
unfoldable pub static_decide : {F : Type 0} → List (Option (FrameBundle F)) → Option CameraChoice
static_decide [] = none
static_decide (none ∷ others) = none
static_decide (some bundle ∷ others) = full_frame bundle

-- The postprocessor, the compositor and the sink, over frames `F`, overlays `O` and a sink `K`.
pub record ConsumerPorts (F O K : Type 0) : Type 0 where
  pub decide : List (Option (FrameBundle F)) → Option CameraChoice
  pub process : F → CropRect → Option F
  pub composite : F → O → Option F
  pub push : F → K → K

pub record Consumer (F K : Type 0) : Type 0 where
  pub latest_frame : Option F
  pub sink : K

module _ {F O K : Type 0} (ports : ConsumerPorts F O K) where
  abbrev or_frame : F → Option F → F
  or_frame frame none = frame
  or_frame frame (some other) = other

  -- An overlay, where there is a source and it has one.
  abbrev pub composited : Option O → F → F
  composited none frame = frame
  composited (some overlay) frame = or_frame frame (ports.composite frame overlay)

  abbrev deliver : Option O → Option F → Consumer F K → Consumer F K
  deliver overlay none c = c
  deliver overlay (some frame) c = record {
    latest_frame = some (composited overlay frame);
    sink = ports.push (composited overlay frame) c.sink;
  }

  -- The index is tested against the length by `get_elem?`.
  abbrev present :
      Option O → Option (Option (FrameBundle F)) → CropRect → Consumer F K → Consumer F K
  present overlay none crop c = c
  present overlay (some none) crop c = c
  present overlay (some (some bundle)) crop c =
      deliver overlay (ports.process bundle.source_frame crop) c

  -- One turn of `ConsumerLoop` on the bundles popped.
  unfoldable pub consume : Option O → List (Option (FrameBundle F)) → Consumer F K → Consumer F K
  consume overlay latest c = elim (ports.decide latest) [
    | none ↦ c
    | some choice ↦ present overlay (get_elem? latest choice.camera_index) choice.crop c
  ]
