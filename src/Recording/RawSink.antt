-- ===== src/Recording/RawSink.antt =====
-- src/adapters/storage/raw_capture/filesystem-raw-capture-sink.cpp: one file for each camera, written
-- by a thread of its own behind a ring. Frames are values of `F`; a file is the list of the frames
-- written to it, and the file system answers by outcomes. The calls of the threads are a sequence.
pub mod Files
pub mod Cameras
pub mod Capture
use strixcam.Prelude.{
  ℕ, zero, suc, ◌+◌, Bool, true, false, not, ◌&&◌, ◌||◌, Option, none, some, List, [], ◌∷◌, ◌++◌,
  length, get_elem?, map, leb, if◌then◌else◌,
}
use strixcam.Prelude.Bytes.{Bytes}
use strixcam.Session.Paths.{is_empty}
use strixcam.Network.Naming.{RawCaptureIdentity, file_name}
use strixcam.Buffer.Ring.{Ring, pop, try_pop, close}
use strixcam.Buffer.Ring as Ring

abbrev pub queue_capacity : ℕ
queue_capacity = 8

-- `good` is the state of the stream: a failed one takes no more.
pub record CameraWriter (F : Type 0) : Type 0 where
  pub name : Bytes
  pub file : List F
  pub good : Bool
  pub ring : Ring F

pub record RawCaptureSink (F : Type 0) : Type 0 where
  pub camera_count : ℕ
  pub capturing : Bool
  pub capture_group_id : Bytes
  pub writers : List (CameraWriter F)

module _ {F : Type 0} where
  -- A ring of a capacity that is not 0, as constructed.
  abbrev pub fresh_ring : Ring F
  fresh_ring = record {
    queue = [];
    capacity = queue_capacity;
    is_closed = false;
    pushed = 0;
    popped = 0;
    dropped = 0;
  }

  abbrev pub fresh_writer : Bytes → ℕ → CameraWriter F
  fresh_writer group i = record {
    name = file_name (record { capture_group_id = group; camera_index = i });
    file = [];
    good = true;
    ring = fresh_ring;
  }

  abbrev prepended :
      CameraWriter F → Option (List (CameraWriter F)) → Option (List (CameraWriter F))
  prepended w none = none
  prepended w (some ws) = some (w ∷ ws)

  -- The loop over the cameras from `i` on; a file that does not open ends it, and the files before
  -- are closed with the vector.
  unfoldable pub open_writers : (Bytes → Bool) → Bytes → ℕ → ℕ → Option (List (CameraWriter F))
  open_writers opens group i zero = some []
  open_writers opens group i (suc left) =
      let w = fresh_writer group i in
      let rest = open_writers opens group (suc i) left in
      if opens w.name then prepended w rest else none

  -- `makes_dir` is whether the directory is there or can be made.
  unfoldable pub start : Bool → (Bytes → Bool) → Bytes → RawCaptureSink F → RawCaptureSink F × Bool
  unfolding open_writers
  start makes_dir opens group s =
      if s.capturing || is_empty group || not makes_dir
      then (s, false)
      else elim (open_writers opens group 0 s.camera_count) [
        | none ↦ (s, false)
        | some writers ↦
            (record s { capturing = true; capture_group_id = group; writers = writers }, true)
      ]

  abbrev pub pushed_to : F → CameraWriter F → CameraWriter F
  pushed_to frame w = record w { ring = (Ring.push frame w.ring).0 }

  unfoldable pub update_at :
      ℕ → (CameraWriter F → CameraWriter F) → List (CameraWriter F) → List (CameraWriter F)
  update_at i f [] = []
  update_at zero f (w ∷ ws) = f w ∷ ws
  update_at (suc i) f (w ∷ ws) = w ∷ update_at i f ws

  -- `free` is whether the lock is to be had. An index out of range changes nothing.
  unfoldable pub push_camera : Bool → ℕ → F → RawCaptureSink F → RawCaptureSink F
  unfolding update_at
  push_camera free i frame s =
      if not free || not s.capturing || leb (length s.writers) i
      then s
      else record s { writers = update_at i (pushed_to frame) s.writers }

  -- WriteFramePlanes; `lands` is whether the stream is good after it.
  abbrev pub write_frame : Bool → F → CameraWriter F → CameraWriter F
  write_frame lands frame w =
      if w.good && lands
      then record w { file = w.file ++ frame ∷ [] }
      else record w { good = false }

  abbrev written : Bool → CameraWriter F → Ring F × Option F → CameraWriter F
  written lands w (ring, none) = record w { ring = ring }
  written lands w (ring, some frame) = write_frame lands frame (record w { ring = ring })

  -- A turn of WriterLoop.
  unfoldable pub writer_turn : Bool → CameraWriter F → CameraWriter F
  writer_turn lands w = written lands w (pop w.ring)

  -- The loop that drains what is left; `lands` is whether its writes land. The queue's length is
  -- turns enough.
  unfoldable pub drain : ℕ → Bool → CameraWriter F → CameraWriter F
  drain zero lands w = w
  drain (suc left) lands w =
      let (ring, out) = try_pop w.ring in
      elim out [
        | none ↦ w
        | some frame ↦ drain left lands (write_frame lands frame (record w { ring = ring }))
      ]

  unfoldable pub finish_writer : Bool → CameraWriter F → CameraWriter F
  unfolding drain
  finish_writer lands w =
      let closed = record w { ring = close w.ring } in drain (length w.ring.queue) lands closed

  -- With the writers that are finished and closed.
  unfoldable pub stop : Bool → RawCaptureSink F → RawCaptureSink F × List (CameraWriter F) × Bool
  unfolding finish_writer
  stop lands s = if not s.capturing then (s, [], false) else (
    record s { capturing = false; capture_group_id = []; writers = [] },
    map (finish_writer lands) s.writers,
    true,
  )
