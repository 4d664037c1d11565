-- ===== src/Recording/Recorder/Feed.antt =====
-- What the recorder's source is fed in a recording.
use strixcam.Prelude.{
  ℕ, Bool, true, false, not, ◌&&◌, List, [], ◌∷◌, ◌++◌, ◌≡◌, refl, arith, if◌then◌else◌, String,
}
use strixcam.Session.Paths.{FilePath}
use strixcam.Recording.Recorder.{
  GstContinuousRecorder, RecordedFrame, RecorderLaunch, Fed, caps, buffer, start, pause, resume,
  stop, push, teardown, gst_format_for,
}

pub data RecorderCall : Type 0 where
  starts : RecorderLaunch → FilePath → RecorderCall
  pauses : RecorderCall
  resumes : Bool → RecorderCall
  stops : RecorderCall
  pushes : Bool → Bool → RecordedFrame → RecorderCall

abbrev pub step : RecorderCall → GstContinuousRecorder → GstContinuousRecorder
step (starts o output) r = (start o output r).0
step pauses r = pause r
step (resumes pad) r = resume pad r
step stops r = (stop r).0
step (pushes allocated taken frame) r = push allocated taken frame r

abbrev pub run : List RecorderCall → GstContinuousRecorder → GstContinuousRecorder
run [] r = r
run (c ∷ cs) r = run cs (step c r)

unfoldable pub only_buffers : List Fed → Bool
only_buffers [] = true
only_buffers (caps _ _ _ ∷ fed) = false
only_buffers (buffer _ ∷ fed) = only_buffers fed

-- The caps come first, and once.
unfoldable pub caps_first : List Fed → Bool
unfolding only_buffers
caps_first [] = false
caps_first (caps _ _ _ ∷ fed) = only_buffers fed
caps_first (buffer _ ∷ fed) = false

unfoldable pub nothing_fed : List Fed → Bool
nothing_fed [] = true
nothing_fed (x ∷ fed) = false

-- A running recorder has its pipeline and its source, a resting one none of its elements; the
-- source of a running one has been fed the caps and then buffers, or nothing.
pub record IsFeeding (r : GstContinuousRecorder) : Type 0 where
  pub elements :
      (if r.running
        then r.pipeline && r.appsrc
        else not r.pipeline && not r.appsrc && not r.encoder)
      ≡ true
  pub feed :
      (if r.running then (if r.caps_set then caps_first r.fed else nothing_fed r.fed) else true)
      ≡ true

only_buffers-append :
    (fed : List Fed) (bytes : List ℕ)
    → only_buffers fed ≡ true
    → only_buffers (fed ++ buffer bytes ∷ []) ≡ true
unfolding only_buffers
only_buffers-append [] bytes h = refl
only_buffers-append (caps _ _ _ ∷ fed) bytes h = h
only_buffers-append (buffer _ ∷ fed) bytes h = only_buffers-append fed bytes h

caps_first-append :
    (fed : List Fed) (bytes : List ℕ)
    → caps_first fed ≡ true
    → caps_first (fed ++ buffer bytes ∷ []) ≡ true
unfolding caps_first
caps_first-append [] bytes h = absurd (ground arith)
caps_first-append (caps _ _ _ ∷ fed) bytes h = only_buffers-append fed bytes h
caps_first-append (buffer _ ∷ fed) bytes h = h

caps_first-caps :
    (fed : List Fed) (format : String) (width height : ℕ)
    → nothing_fed fed ≡ true
    → caps_first (fed ++ caps format width height ∷ []) ≡ true
unfolding caps_first nothing_fed only_buffers
caps_first-caps [] format width height h = refl
caps_first-caps (x ∷ fed) format width height h = absurd (ground arith)

push-planes :
    (allocated taken : Bool) (frame : RecordedFrame) (r : GstContinuousRecorder)
    (planes : List (List ℕ))
    → frame.planes ≡ planes
    → IsFeeding r
    → IsFeeding (push allocated taken frame r)
unfolding push
push-planes allocated taken frame r [] e h = record {
  elements = ground (arith, e, h.elements);
  feed = ground (arith, e, h.feed);
}
push-planes allocated taken frame r (plane ∷ planes) e h =
    let cap = caps (gst_format_for frame.format) frame.width frame.height in
    let first = caps_first-caps r.fed (gst_format_for frame.format) frame.width frame.height in
    record {
      elements = ground (arith, e, h.elements);
      feed = ground (
        arith,
        e,
        h.feed,
        first,
        caps_first-append r.fed plane,
        caps_first-append (r.fed ++ cap ∷ []) plane,
      );
    }

step-IsFeeding : (c : RecorderCall) (r : GstContinuousRecorder) → IsFeeding r → IsFeeding (step c r)
unfolding start pause resume stop teardown nothing_fed
step-IsFeeding (starts o output) r h = record {
  elements = ground (arith, h.elements);
  feed = ground (arith, h.feed);
}
step-IsFeeding pauses r h = record { elements = h.elements; feed = h.feed }
step-IsFeeding (resumes pad) r h = record {
  elements = ground (arith, h.elements);
  feed = ground (arith, h.feed);
}
step-IsFeeding stops r h = record {
  elements = ground (arith, h.elements);
  feed = ground (arith, h.feed);
}
step-IsFeeding (pushes allocated taken frame) r h =
    push-planes allocated taken frame r frame.planes refl h

-- Whatever is called and whatever GStreamer does: a running recorder has its pipeline and its
-- source, a resting one none of its elements; and a running recorder's source has been fed nothing
-- in this recording, or the caps once and then only buffers.
pub run-IsFeeding :
    (cs : List RecorderCall) (r : GstContinuousRecorder) → IsFeeding r → IsFeeding (run cs r)
run-IsFeeding [] r h = h
run-IsFeeding (c ∷ cs) r h = run-IsFeeding cs (step c r) (step-IsFeeding c r h)
