-- ===== src/Tests/Adapters.antt =====
-- Runs of the transport, the RTMP streamer, the recorder and the disk guard.
use strixcam.Prelude.{
  ◌++◌, ℕ, ◌≤◌, Bool, true, false, Option, none, some, List, [], ◌∷◌, map, ◌≡◌, refl, arith, sym,
  ◌==◌, text_keys,
}
use strixcam.Prelude.Bytes.{Bytes, codes, bytes_keys}
use strixcam.Session.Paths.{FilePath}
use strixcam.Ble.Assembler.{ChunkedPayload}
use strixcam.Ble.Transport.{BleTransport, WirePorts}
use strixcam.Ble.Transport.Commands.{write_each, acked, first_chunk, IsServing, write_each-answered}
use strixcam.Ble.Transport.Linked.{TransportCall, writes, stops, IsLinked, run, run-IsLinked}
use strixcam.Control.Message.{error}
use strixcam.Control.StreamingHandler.{StreamingHandler, streaming_start, control, handle}
use strixcam.Control.StreamingHandler.Egress.{active}
use strixcam.Control.StreamingHandler.Uplink.{rtmp_ports, start-uplink_fails}
use strixcam.Streaming.{StreamPorts}
use strixcam.Streaming.Rtmp.{
  RtmpStreamer, LaunchOutcome, idle_streamer, WatcherTurn, watcher_loop, base_backoff, max_backoff,
}
use strixcam.Streaming.Rtmp.Backoff.{capped, failures, watcher_loop-backoff}
use strixcam.Recording.Recorder.{GstContinuousRecorder, RecordedFrame, RecorderLaunch, bgr8}
use strixcam.Recording.Recorder.Feed.{
  RecorderCall, IsFeeding, run-IsFeeding, starts as rolls, pauses, resumes, stops as halts,
  pushes as frames,
}
use strixcam.Recording.Recorder.Feed.{run as run_recorder}
use strixcam.Recording.DiskGuard.{resolve_existing_path}
use strixcam.Recording.DiskGuard.Ancestor.{IsResult, resolve_existing_path_ends}
use strixcam.Tests.Ble.{
  config, message, chunk, out_of_order, empty, empty-IsValid, count_lem, nothing_held, are_chunks,
  arrived-Distinct,
}

-- A message is its correlation id's place, its index, its number of chunks and its payload.
abbrev parse : Bytes → Option ChunkedPayload
parse (i ∷ total ∷ payload) =
    some (record { correlation_id = "a"; chunk_index = i; total_chunks = total; payload = payload })
parse _ = none

abbrev printed : ChunkedPayload → Bytes
printed c = c.chunk_index ∷ c.total_chunks ∷ c.payload

abbrev wire : WirePorts Bytes Bytes
wire = record {
  parse_chunk = parse;
  chunk_bytes = printed;
  ack_bytes = λ ack. 0 ∷ ack.chunk_index ∷ [];
  parse_command = λ bytes. some bytes;
  response_bytes = λ response. response;
  response_id = λ response. "r";
}

-- The world is whether a phone is linked; a command is echoed.
abbrev echo : Bytes → Bool → Bool × Bytes
echo command linked = (linked, command)

abbrev connect : Bool → Bool
connect linked = true

abbrev disconnect : Bool → Bool
disconnect linked = false

abbrev serving : BleTransport Bytes Bytes Bool
serving = record {
  connection = true;
  gatt_app = true;
  on_command = some echo;
  on_connect = some connect;
  on_disconnect = some disconnect;
  central_present = true;
  assembler = empty;
  running = true;
  advertisement_registered = true;
  application_registered = true;
  notified = [];
}

serving-IsServing : IsServing wire echo printed message message refl serving
serving-IsServing = record { gatt_app = refl; central_present = refl; on_command = refl }

write_each-answered_example :
    let (next, world) = write_each wire (map printed out_of_order) (serving, true) in
    let (after, response) = echo message true in
    (next.notified
      ≡ (serving.notified ++ map (acked wire) out_of_order)
        ++ first_chunk wire echo printed message message refl config response)
    × (world ≡ after)
write_each-answered_example =
    write_each-answered wire echo printed message message refl config "a" serving true
      (chunk 2 (5 ∷ [])) (chunk 0 (1 ∷ 2 ∷ []) ∷ chunk 1 (3 ∷ 4 ∷ []) ∷ []) (omega arith)
      (rw count_lem (omega arith)) (omega arith) (rw count_lem (omega arith)) empty-IsValid
      nothing_held (sym count_lem) are_chunks arrived-Distinct serving-IsServing
      (refl, (refl, (refl, tt)))

linked_lem :
    IsLinked wire
      (λ w. w)
      connect
      disconnect
      echo
      (λ w. refl)
      (λ w. refl)
      (λ c w. refl)
      (serving, true)
linked_lem = record { on_command = refl; on_connect = refl; on_disconnect = refl; agree = refl }

abbrev link_calls : List TransportCall
link_calls =
    writes (0 ∷ 1 ∷ 7 ∷ [])
    ∷ writes []
    ∷ stops
        (record { proxy = true; unregister_advertisement = false; unregister_application = true })
    ∷ writes (0 ∷ 1 ∷ [])
    ∷ []

run-IsLinked_example :
    IsLinked wire
      (λ w. w)
      connect
      disconnect
      echo
      (λ w. refl)
      (λ w. refl)
      (λ c w. refl)
      (run wire link_calls (serving, true))
run-IsLinked_example =
    run-IsLinked wire (λ w. w) connect disconnect echo (λ w. refl) (λ w. refl) (λ c w. refl)
      link_calls (serving, true) linked_lem

abbrev plays : LaunchOutcome
plays = record { parses = true; pipeline = true; appsrc = true; plays = true }

abbrev fails : LaunchOutcome
fails = record plays { plays = false }

abbrev stream_ports : StreamPorts ℕ Bool RtmpStreamer
stream_ports = record {
  app_start = λ c a. (true, true);
  app_stop = λ a. false;
  app_running = λ a. a;
  app_push = λ f a. a;
  start = λ c s. (s, true);
  stop = λ s. s;
  running = λ s. s.running;
  push = λ f s. s;
}

abbrev handler : StreamingHandler Bool RtmpStreamer
handler = record {
  streaming = record { app_stream_server = true; platform_streams = []; active_names = [] };
  configured_rtmp_url = "rtmp://host/live";
}

start-uplink_fails_example :
    let result =
      handle
        (rtmp_ports stream_ports plays)
        (control streaming_start "rtmp://host/live/key")
        (some idle_streamer)
        handler in
    (result.1.status ≡ error) × (active result.0 ≡ active handler)
start-uplink_fails_example = start-uplink_fails stream_ports plays "rtmp://host/live/key" handler

abbrev turn : Bool → LaunchOutcome → WatcherTurn
turn error_ outcome = record {
  bus = true;
  error = error_;
  watching = true;
  running = true;
  rebuild = outcome;
}

abbrev turns : List WatcherTurn
turns =
    turn false plays ∷ turn true fails ∷ turn true fails ∷ turn true plays ∷ turn true fails ∷ []

abbrev streaming_one : RtmpStreamer
streaming_one = record idle_streamer {
  running = true;
  watching = true;
  pipeline = true;
  appsrc = true;
}

watcher_loop-backoff_example :
    let last =
      watcher_loop turns
        (record { streamer = streaming_one; backoff = base_backoff; over = false }) in
    (last.backoff ≡ capped (failures true 0 turns))
    × (base_backoff ≤ last.backoff)
    × (last.backoff ≤ max_backoff)
watcher_loop-backoff_example = watcher_loop-backoff streaming_one turns refl

abbrev resting : GstContinuousRecorder
resting = record {
  running = false;
  paused = false;
  caps_set = false;
  pipeline = false;
  appsrc = false;
  encoder = false;
  location = [];
  fed = [];
  key_units = 0;
}

resting-IsFeeding : IsFeeding resting
resting-IsFeeding = record { elements = refl; feed = refl }

abbrev rolling : RecorderLaunch
rolling = record { pipeline = true; parses = true; appsrc = true; encoder = true; plays = true }

abbrev picture : RecordedFrame
picture = record { format = bgr8; width = 2; height = 1; planes = (1 ∷ 2 ∷ []) ∷ [] }

abbrev recorder_calls : List RecorderCall
recorder_calls =
    rolls rolling (b'v' ∷ [])
    ∷ frames true true picture
    ∷ pauses
    ∷ resumes true
    ∷ frames true true picture
    ∷ halts
    ∷ rolls rolling (b'w' ∷ [])
    ∷ []

run-IsFeeding_example : IsFeeding (run_recorder recorder_calls resting)
run-IsFeeding_example = run-IsFeeding recorder_calls resting resting-IsFeeding

abbrev exists : FilePath → Bool
exists path = path == b'/' ∷ []

resolve_existing_path_ends_example :
    (found : FilePath) × (resolve_existing_path exists (codes "/v/raw") ≡ some found)
    × IsResult exists found
resolve_existing_path_ends_example = resolve_existing_path_ends exists (codes "/v/raw")
