-- ===== src/Control/OverlayHandler/Shown.antt =====
-- What the sink shows after a layout was pushed.
use strixcam.Prelude.{
  ℕ, true, false, some, ◌∙◌, if◌then◌else◌, List, [], ◌∷◌, ◌++◌, ◌≡◌, refl, sym, ap, subst, arith,
}
use strixcam.Control.Message.{done}
use strixcam.Session.{
  SessionState, SessionConfig, LiveMatch, on_overlay_configured, before, configured, ready,
  same_phase,
}
use strixcam.Overlay.Binding.{build_binding_data}
use strixcam.Overlay.Scene.{OverlayScene, build, expire_banners, unexpired}
use strixcam.Overlay.Scene as Scene
use strixcam.Overlay.Mapper.{LayoutMessage, map_layout_from_proto}
use strixcam.Overlay.Controller.{
  OverlayController, DrawingPorts, OutputSize, signature, set_layout, set_binding_data, refresh,
}
use strixcam.Overlay.Controller.Shown.{
  ControllerCall, sets_layout, sets_binding_data, run, Shows, refresh-Shows, refresh-IsRefreshed,
}
use strixcam.Control.OverlayHandler.{handle}

module _ {R I K : Type 0} (clamp : R → R) (one : R) (ports : DrawingPorts R I K)
    (out_size : OutputSize) (now : ℕ) where
  run-append :
      (cs ds : List (ControllerCall R)) (k : OverlayController R K)
      → run ports out_size (cs ++ ds) k ≡ run ports out_size ds (run ports out_size cs k)
  run-append [] ds k = refl
  run-append (c ∷ cs) ds k = run-append cs ds _

  -- The scene that the phone asks for: the layout of its message, no banner, and the names of the
  -- session's config and the scores, the period and the clock of its match.
  abbrev pub asked : LayoutMessage R → SessionConfig → LiveMatch → OverlayScene R
  asked msg config live = record {
    layout = map_layout_from_proto clamp one msg;
    has_layout = true;
    data_ = record {
      team_a_name = config.team_a_name;
      team_b_name = config.team_b_name;
      score_a = live.score_a;
      score_b = live.score_b;
      period = live.period;
      clock_seconds = live.clock_seconds;
      period_state = live.segment;
    };
    banners = [];
  }

  -- A session with an overlay: ready, if it was configured.
  abbrev pub with_overlay : SessionState → SessionState
  with_overlay s = record s { phase = if same_phase s.phase configured then ready else s.phase }

  overlaid :
      (s : SessionState)
      → before s.phase configured ≡ false
      → on_overlay_configured s ≡ (with_overlay s, true)
  unfolding on_overlay_configured
  overlaid s h = ground (arith, h)

  prepared :
      (msg : LayoutMessage R) (session : SessionState) (config : SessionConfig)
      (k : OverlayController R K)
      → session.config ≡ some config
      → (set_binding_data ports
          (build_binding_data session)
          (set_layout ports (map_layout_from_proto clamp one msg) k)).scene
        ≡ asked msg config session.live_match
  unfolding set_binding_data set_layout Scene.set_layout Scene.set_binding_data
  prepared msg session config k h = ground (arith, h)

  built :
      (msg : LayoutMessage R) (config : SessionConfig) (live : LiveMatch)
      → (build now (asked msg config live)).0 ≡ asked msg config live
  unfolding build expire_banners unexpired
  built msg config live = refl

  accepts :
      (msg : LayoutMessage R) (session : SessionState) (k : OverlayController R K)
      → (on_overlay_configured session).1 ≡ true
      → let after = (on_overlay_configured session).0 in
        handle clamp one ports out_size now msg (record { session = session; controller = k }) ≡ (
          record {
            session = after;
            controller =
                (refresh ports out_size now (
                  set_binding_data ports
                    (build_binding_data after)
                    (set_layout ports (map_layout_from_proto clamp one msg) k))).0;
          },
          done,
        )
  unfolding handle
  accepts msg session k h = ground (arith, h)

  -- With a controller that had pushed nothing before its calls: a layout in a session that is
  -- configured and has a config is answered OK; the session is then ready, if it was configured, and
  -- else in its phase; the controller's scene is the one asked for; and the latest frame of the sink
  -- is the drawing of a scene with the signature of this one.
  pub handle-Shows :
      (latest : K → I)
      → ((i : I) (k : K) → latest (ports.push_frame i k) ≡ i)
      → (msg : LayoutMessage R) (session : SessionState) (config : SessionConfig)
        (k : OverlayController R K) (cs : List (ControllerCall R))
      → k.pushed_once ≡ false
      → before session.phase configured ≡ false
      → session.config ≡ some config
      → let scene = asked msg config session.live_match in
        let (world, response) =
          handle clamp one ports out_size now msg
            (record { session = session; controller = run ports out_size cs k }) in
        (response ≡ done)
        × (world.session ≡ with_overlay session)
        × (world.controller.scene ≡ scene)
        × Shows ports out_size latest (signature ports (build now scene).1) world.controller.sink
  handle-Shows latest law msg session config k cs fresh late has =
      let scene = asked msg config session.live_match in
      let over = overlaid session late in
      let after = (on_overlay_configured session).0 in
      let layout = map_layout_from_proto clamp one msg in
      let last = run ports out_size cs k in
      let setting = sets_layout layout ∷ sets_binding_data (build_binding_data after) ∷ [] in
      let bound =
        set_binding_data ports (build_binding_data after) (set_layout ports layout last) in
      let e = accepts msg session last (ap (λ r. r.1) over) in
      let ready_scene : bound.scene ≡ scene =
        prepared msg after config last (ap (λ r. r.0.config) over ∙ has)
        ∙ ap (λ r. asked msg config r.0.live_match) over in
      let shows : Shows ports out_size latest (signature ports (build now bound.scene).1)
          (refresh ports out_size now bound).0.sink =
        subst
          (λ v.
            Shows ports out_size latest (signature ports (build now v.scene).1)
              (refresh ports out_size now v).0.sink)
          (run-append cs setting k)
          (refresh-Shows ports out_size latest law k (cs ++ setting) now fresh) in
      (
        ap (λ r. r.1) e,
        ap (λ r. r.0.session) e ∙ ap (λ r. r.0) over,
        ap (λ r. r.0.controller.scene) e
            ∙ (refresh-IsRefreshed ports out_size now bound).2
            ∙ ap (λ v. (build now v).0) ready_scene
            ∙ built msg config session.live_match,
        subst (λ sink. Shows ports out_size latest (signature ports (build now scene).1) sink)
            (sym (ap (λ r. r.0.controller.sink) e))
            (subst
              (λ v.
                Shows ports out_size latest (signature ports (build now v).1)
                  (refresh ports out_size now bound).0.sink)
              ready_scene shows),
      )
