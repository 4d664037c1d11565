-- ===== src/Streaming/Rtsp/Objects.antt =====
-- What the preview server holds while it runs and while it rests.
use strixcam.Prelude.{ℕ, Bool, true, not, ◌&&◌, List, [], ◌∷◌, nat_eq, if◌then◌else◌, ◌≡◌, arith}
use strixcam.Streaming.{AppStreamConfig}
use strixcam.Streaming.Rtmp.{FramePlane}
use strixcam.Streaming.Rtsp.{RtspServer, start, stop, push, on_media_configure}

pub data RtspCall : Type 0 where
  starts : ℕ → AppStreamConfig → RtspCall
  stops : RtspCall
  pushes : Bool → Bool → List FramePlane → RtspCall
  connects : Bool → Bool → RtspCall

abbrev pub step : RtspCall → RtspServer → RtspServer
step (starts source_id config) s = (start source_id config s).0
step stops s = stop s
step (pushes allocated mapped planes) s = push allocated mapped planes s
step (connects element source) s = on_media_configure element source s

abbrev pub run : List RtspCall → RtspServer → RtspServer
run [] s = s
run (c ∷ cs) s = run cs (step c s)

abbrev pub holds_all : RtspServer → Bool
holds_all s = s.context && s.loop && s.server && s.factory && not (nat_eq s.source_id 0)

abbrev pub holds_none : RtspServer → Bool
holds_none s = not s.context && not s.loop && not s.server && nat_eq s.source_id 0

step-objects :
    (c : RtspCall) (s : RtspServer)
    → (if s.running then holds_all s else holds_none s) ≡ true
    → (let next = step c s in if next.running then holds_all next else holds_none next) ≡ true
unfolding start stop push on_media_configure
step-objects (starts source_id config) s h = ground arith
step-objects stops s h = ground arith
step-objects (pushes allocated mapped planes) s h = ground arith
step-objects (connects element source) s h = ground arith

-- Whatever is called: a running server has its context, loop, server, factory and source, and a
-- resting one has released all of these but the factory.
pub run-objects :
    (cs : List RtspCall) (s : RtspServer)
    → (if s.running then holds_all s else holds_none s) ≡ true
    → (let last = run cs s in if last.running then holds_all last else holds_none last) ≡ true
run-objects [] s h = h
run-objects (c ∷ cs) s h = run-objects cs (step c s) (step-objects c s h)
