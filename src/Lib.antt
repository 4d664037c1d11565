-- ===== src/Lib.antt =====
-- StrixCam's firmware: a camera that a phone commands over BLE. The commands arrive in chunks; a
-- dispatcher hands them to handlers, which act on the session, the recording, the streams, the
-- WiFi Direct group, the overlay, the live match and the downloads; a pipeline moves frames from the
-- cameras through buffers to the recorder and the streams. This library models that logic and the
-- adapters around it. Paths are those of the repository.
--
-- The parts:
-- - Ble: in Ble/Assembler src/adapters/control/ble/bluez/chunk-assembler. `offer_inbound`,
--   `begin_outbound` and `on_ack` are OfferInbound, BeginOutbound and OnAck; the maps are association
--   lists and the insertion order is a list. What the send callbacks get comes back as a list.
--   Ble/Transport is bluez-ble-transport beside it, with src/app/control/services/chunk-ack.
-- - Buffer: src/domain/buffer/services (Ring is DropOldestRing, Slot is LatestOnlySlot) behind the
--   interface of src/app/buffer/ports. A history is a list of calls, each atomic under the mutex; the
--   wait of Pop is the test of its predicate when the wait ends.
-- - Session: src/app/session and src/domain/session/models. One function to a method of
--   SessionManager, returning the new state and the result; Session/Disconnect is SessionCleanup.
-- - Recording: src/app/storage/services/recording_service over records of operations for its ports.
--   Below it stand the adapters of src/adapters/storage: Recording/Recorder is
--   gst-continuous-recorder, Recording/RawSink filesystem-raw-capture-sink, Recording/DiskGuard
--   filesystem-disk-guard.
-- - Streaming: src/app/streaming/services/streaming_service, and the adapters of
--   src/adapters/streaming in Streaming/Rtmp and Streaming/Rtsp.
-- - Overlay: src/domain/overlay and src/app/overlay. Overlay/Scene is OverlayScene with
--   Overlay/Substitute for its SubstituteParams, Overlay/Controller is OverlayController,
--   Overlay/Mapper is overlay-proto-mapper, Overlay/Compositor is CompositeOverlay. Handlers see the
--   controller through the interface of Overlay/Binding, which Overlay/Controller fills.
-- - Control: src/app/control/services, the dispatcher and the handlers. A handler takes the state of
--   the services it refers to and returns it with the response; Control/Device has the handlers of the
--   device and the thumbnail. Control/UnitName is src/domain/control/utils/advertised-name.hpp.
-- - Network: src/app/network/services/download_server; src/domain/storage/services/raw-capture-naming.hpp
--   in Network/Naming; src/adapters/network/http in Network/Http; wpa_supplicant's manager, its parser
--   and the DHCP server of src/adapters/control/wifi in Network/Wifi and Network/Dhcp. The handler's
--   ports on them are a record of operations with laws, which Control/WifiDirect/Adapters fills with
--   this manager and server; "up" is there what they report of themselves.
-- - Pipeline: src/app/pipeline/services/orchestrator and src/app/decision/services/static_decision;
--   Pipeline/Capture is src/adapters/capture/frame/gstreamer, and Pipeline/Producer has the loop that
--   feeds the buffers, src/domain/buffer/services/materialize-frame.cpp and the fan-out sink.
-- - Startup: src/main.cpp from the start of the pipeline on, and src/app/config/services/config_loader.
-- - Prelude: numbers, lists, texts, association lists and signed integers that the parts share.
-- - Tests: a run of each theorem below at a concrete input.
--
-- Numbers are natural numbers; the wrap-around of 32-bit and 64-bit integers is written out, and a
-- signed field is an integer; a float is a value of a parameter. Loops are structural recursions or
-- take fuel: the decimal digits of a number in Prelude/Bytes have room for ten, as many as a 32-bit
-- number has; the substitution of a parameter has a round more than the text has bytes; the search for
-- an existing directory a round more than the path has bytes; the draining of a queue a turn for each
-- frame in it; and the reading of WiFi events the twenty attempts of the code. Frames, GStreamer,
-- D-Bus, sockets, processes, networks and file-system listings are parameters; where a theorem relies
-- on what such a port does, the laws are its hypotheses, and Tests has ports for which they hold. The
-- standard library's `parent_path`, `rfind` and `to_string` are written out. Logging is left out.
--
-- Not modelled: threads and timing beyond the order of atomic calls (so a disconnect is taken without
-- calls of other threads between its two locked parts; a thread's loop is a list of its turns), the
-- launch texts of the GStreamer pipelines, the BLE advertisement and the GATT application, the Cairo
-- renderer, the GStreamer overlay compositor, the OpenCV adapters, the reading of /proc, the JSON
-- serdes and the formatters, the wiring in main.cpp, the old Python prototype and the copied
-- third-party code.
pub mod Prelude
pub mod Buffer
pub mod Ble
pub mod Session
pub mod Recording
pub mod Streaming
pub mod Control
pub mod Network
pub mod Overlay
pub mod Pipeline
pub mod Startup
pub mod Tests
