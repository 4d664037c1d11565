-- ===== src/Pipeline/Producer.antt =====
-- The producer's loop of src/app/pipeline/services/orchestrator, the copy of a frame in
-- src/domain/buffer/services/materialize-frame.cpp, and the fan-out of src/app/buffer/services. A
-- bundle is `B` with a source frame; the capture, the preprocessor and the sinks are parameters.
use strixcam.Prelude.{
  ℕ, ◌+◌, Bool, Option, none, some, List, [], ◌∷◌, ◌++◌, take, replicate, if◌then◌else◌, ltb,
}
use strixcam.Prelude.Bytes.{Bytes}

-- A plane: its bytes, where there are any, its size and its stride.
pub record SourcePlane : Type 0 where
  pub data_ : Option Bytes
  pub size : ℕ
  pub stride : ℕ

-- A plane of the copy: where it begins in the buffer.
pub record CopiedPlane : Type 0 where
  pub offset : ℕ
  pub size : ℕ
  pub stride : ℕ

unfoldable pub total_size : List SourcePlane → ℕ
total_size [] = 0
total_size (p ∷ ps) = p.size + total_size ps

-- What the buffer holds for a plane: it was made of zeros.
abbrev pub plane_content : SourcePlane → Bytes
plane_content p = elim p.data_ [
  | none ↦ replicate p.size 0
  | some bytes ↦ if ltb 0 p.size then take p.size bytes else []
]

-- The loop over the planes from an offset on: the buffer from there, and the planes.
unfoldable pub copy_planes : ℕ → List SourcePlane → Bytes × List CopiedPlane
copy_planes offset [] = ([], [])
copy_planes offset (p ∷ ps) =
    let (bytes, planes) = copy_planes (offset + p.size) ps in
    (
      plane_content p ++ bytes,
      record { offset = offset; size = p.size; stride = p.stride } ∷ planes,
    )

unfoldable pub materialize_frame : List SourcePlane → Bytes × List CopiedPlane
unfolding copy_planes
materialize_frame planes = copy_planes 0 planes

-- A null sink is `none`.
unfoldable pub fan_out : {F K : Type 0} → (F → K → K) → F → List (Option K) → List (Option K)
fan_out push frame [] = []
fan_out push frame (none ∷ sinks) = none ∷ fan_out push frame sinks
fan_out push frame (some sink ∷ sinks) = some (push frame sink) ∷ fan_out push frame sinks

-- The camera's preprocessor, the copy of a frame, the raw sink and the slot, over a world `W`.
pub record ProducerPorts (F B W : Type 0) : Type 0 where
  pub process : F → Option B
  pub source_frame : B → F
  pub with_source_frame : F → B → B
  pub materialize : F → F
  pub push_camera : ℕ → F → W → W
  pub push_slot : ℕ → B → W → W

module _ {F B W : Type 0} (ports : ProducerPorts F B W) where
  -- `has_raw_sink` is whether there is one.
  abbrev handed_on : Bool → ℕ → Option B → W → W
  handed_on has_raw_sink camera none w = w
  handed_on has_raw_sink camera (some bundle) w =
      let frame = ports.materialize (ports.source_frame bundle) in
      let owned = ports.with_source_frame frame bundle in
      ports.push_slot camera owned
        (if has_raw_sink then ports.push_camera camera (ports.source_frame owned) w else w)

  -- A turn, on what the capture gave.
  unfoldable pub producer_turn : Bool → ℕ → Option F → W → W
  producer_turn has_raw_sink camera none w = w
  producer_turn has_raw_sink camera (some raw) w =
      handed_on has_raw_sink camera (ports.process raw) w
