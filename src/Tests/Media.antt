-- ===== src/Tests/Media.antt =====
-- Runs of the buffers, the recording and streaming services and the pipeline.
use strixcam.Prelude.{
  ℕ, ◌+◌, Bool, true, false, some, List, [], ◌∷◌, ◌++◌, map, ◌≡◌, refl, arith, ◌≤◌, ◌<◌, ◌||◌, leb,
}
use strixcam.Prelude.Int.{pos}
use mathlib.Core.List.{Sublist}
use strixcam.Buffer.Port.{Call, pushes, pops, tries, closes, run, all_delivered, all_offered}
use strixcam.Buffer.Ring.{Ring, ring_buffer, push}
use strixcam.Buffer.Ring.Order.{IsBounded, run-sublist}
use strixcam.Buffer.Ring.Counters.{Balance, all_refused, run-Balance}
use strixcam.Buffer.Slot.{Slot}
use strixcam.Recording.Protocol.{
  Answers, ServiceCall, starts, pauses, resumes, stops, pushes as frames, serve_all, InOrder,
  fresh_start, serve_all_fresh-InOrder,
}
use strixcam.Streaming.{default_platform, stop_streaming, is_app_stream_running}
use strixcam.Streaming.Mirror.{IsMirrored, StreamCall, step-IsMirrored, stop_streaming_lem}
use strixcam.Streaming.Mirror.{step as stream_step, starts as start_stream}
use strixcam.Pipeline.{CapturePorts, Pipeline, start, stop}
use strixcam.Pipeline.Cameras.{Uniform, start-Uniform}
use strixcam.Recording.RawSink.{
  RawCaptureSink, start as start_sink, stop as stop_sink, open_writers, drain, update_at,
  writer_turn, push_camera, finish_writer,
}
use strixcam.Recording.RawSink.Cameras.{SinkCall, pushes as push_frame, turns}
use strixcam.Recording.RawSink.Capture.{Captured, stop-Captured}
use strixcam.Recording.RawSink.Cameras.{run as run_sink}
use strixcam.Pipeline.Capture.{FramePlane, planes_of, plane_of, end_of}
use strixcam.Pipeline.Capture.Planes.{planes_of-apart}
use strixcam.Tests.Session.{streams, live, live-IsMirrored}

abbrev ring : Ring ℕ
ring = record {
  queue = 1 ∷ 2 ∷ [];
  capacity = 2;
  is_closed = false;
  pushed = 2;
  popped = 0;
  dropped = 0;
}

ring-IsBounded : IsBounded ring
ring-IsBounded = record { positive = omega arith; within = omega arith }

abbrev calls : List (Call ℕ)
calls = pushes 3 ∷ pops ∷ closes ∷ pushes 4 ∷ tries ∷ []

run-sublist_example :
    let (r', out) = run ring_buffer ring calls in
    Sublist (all_delivered out ++ r'.queue) (ring.queue ++ all_offered calls)
run-sublist_example = run-sublist ring calls

balanced : Balance 0 ring
balanced = omega arith

run-Balance_example : Balance (0 + all_refused ring calls) (run ring_buffer ring calls).0
run-Balance_example = run-Balance 0 ring calls ring-IsBounded balanced

abbrev slot : Slot ℕ
slot = record { slot = some 1; is_closed = false; pushed = 1; popped = 0; dropped = 0 }

abbrev answers : Answers
answers = record { space = λ n. true; starts = λ n. true; stops = λ n. true; writes = λ n. true }

abbrev service_calls : List (ServiceCall ℕ)
service_calls =
    starts (b'v' ∷ []) (b't' ∷ []) ∷ pauses ∷ pauses ∷ frames 1 ∷ resumes ∷ stops ∷ pauses ∷ []

serve_all_fresh-InOrder_example :
    InOrder answers (serve_all answers (fresh_start answers) service_calls)
serve_all_fresh-InOrder_example = serve_all_fresh-InOrder answers service_calls

abbrev second : StreamCall ℕ Bool
second = start_stream (record default_platform { stream_id = pos 2; name = "more" }) (some false)

step-IsMirrored_example : IsMirrored (stream_step streams live second)
step-IsMirrored_example = step-IsMirrored streams live second live-IsMirrored

stop_streaming_lem_example :
    let r = stop_streaming streams live in
    (is_app_stream_running streams r.0 ≡ false)
    × (r.0.platform_streams ≡ [])
    × (r.0.active_names ≡ [])
    × (r.1 ≡ map (λ e. streams.stop e.1) live.platform_streams)
stop_streaming_lem_example = stop_streaming_lem streams (λ a. refl) live live-IsMirrored

-- A camera that works, if its flag says so, and whether it runs.
abbrev captures : CapturePorts (Bool × Bool)
captures = record { start = λ c. (c.0, c.0); is_running = λ c. c.1; stop = λ c. (c.0, false) }

abbrev pipeline : Pipeline (Bool × Bool)
pipeline = record { cameras = (true, false) ∷ (false, false) ∷ []; running = false }

start-Uniform_example :
    ((start captures pipeline).1 ≡ (start captures pipeline).0.running)
    × Uniform captures
        (λ c. refl)
        (start captures pipeline).0.running
        (start captures pipeline).0.cameras
    × Uniform captures (λ c. refl) (stop captures pipeline).running (stop captures pipeline).cameras
start-Uniform_example = start-Uniform captures (λ c. refl) pipeline (refl, (refl, tt))

abbrev sink : RawCaptureSink ℕ
sink = record { camera_count = 2; capturing = false; capture_group_id = []; writers = [] }

abbrev sink_calls : List (SinkCall ℕ)
sink_calls =
    push_frame true 1 5
    ∷ push_frame true 0 6
    ∷ turns 1 true
    ∷ push_frame true 1 7
    ∷ push_frame false 1 8
    ∷ []

abbrev begun : RawCaptureSink ℕ × Bool
begun = start_sink true (λ name. true) (b'g' ∷ []) sink

begun_lem : begun.1 ≡ true
unfolding start_sink open_writers
begun_lem = refl

ended_lem : (stop_sink true (run_sink sink_calls begun.0)).2 ≡ true
unfolding start_sink stop_sink open_writers push_camera update_at writer_turn finish_writer drain
    push
ended_lem = refl

stop-Captured_example :
    let last = run_sink sink_calls begun.0 in
    Captured true (b'g' ∷ []) 1 sink_calls last.writers (stop_sink true last).1
stop-Captured_example =
    stop-Captured true true (λ name. true) (b'g' ∷ []) sink sink_calls 1 begun_lem (omega arith)
      ended_lem

-- The two planes of an NV12 picture of 4 by 2.
abbrev luma : FramePlane
luma = record { offset = 0; size = 8; stride = 4 }

abbrev chroma : FramePlane
chroma = record { offset = 8; size = 4; stride = 4 }

planes_lem : planes_of 12 ((4, 0) ∷ (4, 8) ∷ []) ((4, 0) ∷ (4, 8) ∷ []) ≡ some (luma ∷ chroma ∷ [])
unfolding planes_of plane_of end_of
planes_lem = refl

planes_of-apart_example :
    (0 < luma.size)
    × (luma.offset + luma.size ≤ 12)
    × ((leb chroma.offset luma.offset || leb (luma.offset + luma.size) chroma.offset) ≡ true)
planes_of-apart_example =
    planes_of-apart 12 ((4, 0) ∷ (4, 8) ∷ []) (luma ∷ chroma ∷ []) 0 1 luma chroma planes_lem refl
      refl
