-- ===== src/Control/OverlayHandler.antt =====
-- src/app/control/services/handlers/overlay.handler.cpp: the command that sets the overlay's layout,
-- over the session and the overlay controller. The handler has a clock, as `main.cpp` gives it one;
-- `now` is its reading.
pub mod Shown
use strixcam.Prelude.{ℕ, not, if◌then◌else◌}
use strixcam.Control.Message.{Response, done, failed}
use strixcam.Session.{SessionState, on_overlay_configured}
use strixcam.Overlay.Binding.{build_binding_data}
use strixcam.Overlay.Mapper.{LayoutMessage, map_layout_from_proto}
use strixcam.Overlay.Controller.{
  OverlayController, DrawingPorts, OutputSize, set_layout, set_binding_data, refresh,
}

pub record OverlayWorld (R K : Type 0) : Type 0 where
  pub session : SessionState
  pub controller : OverlayController R K

module _ {R I K : Type 0} (clamp : R → R) (one : R) (ports : DrawingPorts R I K)
    (out_size : OutputSize) (now : ℕ) where
  unfoldable pub handle : LayoutMessage R → OverlayWorld R K → OverlayWorld R K × Response
  handle msg w =
      let (session, accepted) = on_overlay_configured w.session in
      let laid_out = set_layout ports (map_layout_from_proto clamp one msg) w.controller in
      let bound = set_binding_data ports (build_binding_data session) laid_out in
      if not accepted
      then (
        record w { session = session },
        failed "overlay layout rejected: a session config must be applied first (out of order)",
      )
      else (record { session = session; controller = (refresh ports out_size now bound).0 }, done)
