-- ===== src/Tests/Controller.antt =====
-- Runs of the overlay's controller and of the handler that sets its layout.
use strixcam.Prelude.{none, ◌≢◌, arith, ℕ, true, false, List, [], ◌∷◌, ◌++◌, ◌≡◌, refl}
use strixcam.Prelude.Bytes.{codes, to_string}
use strixcam.Session.{no_match}
use strixcam.Overlay.{
  RenderElement, OverlayElement, OverlayLayout, RenderScene, score_a, center, bold,
}
use strixcam.Overlay.Binding.{BindingData}
use strixcam.Overlay.Scene.{
  resolve_text, expire_banners, insert_by_z, sort_by_z, add_elements, add_banners, unexpired,
  OverlayScene, find_template, banner_of, activate_banner, build, add_elements, add_banners,
  unexpired,
}
use strixcam.Overlay.Scene.Layers.{as_drawn}
use strixcam.Overlay.Controller.{
  DrawingPorts, OutputSize, OverlayController, signature, refresh, set_layout, set_binding_data,
}
use strixcam.Overlay.Controller.Shown.{
  ControllerCall, sets_layout, activates_banner as shows_banner, refreshes, Shows, refresh-Shows,
}
use strixcam.Overlay.Controller.Shown.{run as run_controller}
use strixcam.Overlay.Controller.Fonts.{Fonts, in_font, SameButFonts, refresh-restyled}
use strixcam.Control.Message.{done}
use strixcam.Overlay.Mapper.{
  LayoutMessage, ElementMessage, shape_text, binding_score_a, align_center, weight_bold,
}
use strixcam.Control.OverlayHandler.{handle}
use strixcam.Control.OverlayHandler.Shown.{asked, with_overlay, handle-Shows}
use strixcam.Overlay.Controller.Texts.{with_text, refresh-text}
use strixcam.Overlay.Scene as Scene
use strixcam.Tests.Session.{config, ready_state}
use strixcam.Tests.Overlay.{element, at, layout, binding_data, scene}

-- A sink that keeps the layers of the last picture.
abbrev drawing : DrawingPorts ℕ (RenderScene ℕ) (RenderScene ℕ)
drawing = record {
  show = to_string;
  show_int = to_string;
  render = λ drawn width height. drawn;
  push_frame = λ image sink. image;
}

abbrev size : OutputSize
size = record { width = 100; height = 50 }

abbrev controller : OverlayController ℕ (RenderScene ℕ)
controller = record {
  scene = scene;
  last_signature = [];
  pushed_once = false;
  push_count = 0;
  sink = record { canvas_width = 0; canvas_height = 0; elements = [] };
}

abbrev calls : List (ControllerCall ℕ)
calls = refreshes 5 ∷ shows_banner "goal" [] 4 10 ∷ sets_layout layout ∷ refreshes 20 ∷ []

refresh-Shows_example :
    let last = run_controller drawing size calls controller in
    Shows drawing size
      (λ sink. sink)
      (signature drawing (build 30 last.scene).1)
      (refresh drawing size 30 last).0.sink
refresh-Shows_example =
    refresh-Shows drawing size (λ sink. sink) (λ i k. refl) controller calls 30 refl

abbrev sans : Fonts ℕ
sans = record {
  font_family = codes "Sans";
  font_size = 12;
  text_align = center;
  font_weight = bold;
}

abbrev serif : OverlayElement ℕ → OverlayElement ℕ
serif = in_font (record sans { font_family = codes "Serif"; font_size = 30 })

-- The first of two elements of one style has got another font.
abbrev other_layout : OverlayLayout ℕ
other_layout = record layout {
  elements =
      serif (element 2 (codes "b")) ∷ record (element 1 (codes "a")) { binding = score_a } ∷ [];
}

one_restyled : SameButFonts sans other_layout layout
one_restyled = record { canvas_width = refl; canvas_height = refl; elements = refl }

refresh-restyled_example :
    let before = (refresh drawing size 5 controller).0 in
    let next = refresh drawing size 7 (set_layout drawing other_layout before) in
    (next.1 ≡ false) × (next.0.sink ≡ before.sink)
refresh-restyled_example =
    refresh-restyled drawing size sans controller 5 7 other_layout refl one_restyled

abbrev element_message : ElementMessage ℕ
element_message = record {
  id = codes "n";
  shape = shape_text;
  bounds = at 4;
  style = record {
    fill_color = [];
    text_color = codes "#ff0000";
    opacity = none;
    corner_radius = 0;
    font_family = codes "Sans";
    font_size = 12;
    text_align = align_center;
    font_weight = weight_bold;
    static_text = [];
  };
  binding = binding_score_a;
  visible = none;
}

abbrev layout_message : LayoutMessage ℕ
layout_message = record {
  canvas_width = 100;
  canvas_height = 50;
  elements = element_message ∷ [];
  templates = [];
}

handle-Shows_example :
    let asked_for = asked (λ x. x) 1 drawing size 30 layout_message config no_match in
    let (world, response) =
      handle
        (λ x. x)
        1
        drawing
        size
        30
        layout_message
        (record {
          session = ready_state;
          controller = run_controller drawing size calls controller;
        }) in
    (response ≡ done)
    × (world.session ≡ with_overlay (λ x. x) 1 drawing size 30 ready_state)
    × (world.controller.scene ≡ asked_for)
    × Shows drawing size
        (λ sink. sink)
        (signature drawing (build 30 asked_for).1)
        world.controller.sink
handle-Shows_example =
    handle-Shows (λ x. x) 1 drawing size 30 (λ sink. sink) (λ i k. refl) layout_message ready_state
      config controller calls refl refl refl

abbrev scored_data : BindingData
scored_data = record binding_data { score_a = 2 }

abbrev behind : List (RenderElement ℕ)
behind = as_drawn binding_data (element 2 (codes "b")) ∷ []

abbrev scoreboard : RenderElement ℕ
scoreboard = as_drawn binding_data (record (element 1 (codes "a")) { binding = score_a })

drawn_before : (build 5 controller.scene).1.elements ≡ [] ++ scoreboard ∷ behind
unfolding build resolve_text add_elements add_banners unexpired expire_banners insert_by_z sort_by_z
drawn_before = refl

drawn_after :
    let before = (refresh drawing size 5 controller).0 in
    (build 7 (set_binding_data drawing scored_data before).scene).1.elements
    ≡ [] ++ with_text drawing (codes "2") scoreboard ∷ behind
unfolding build resolve_text add_elements add_banners unexpired expire_banners insert_by_z sort_by_z
    refresh set_binding_data Scene.set_binding_data to_string
drawn_after = refl

text_differs : scoreboard.text ≢ codes "2"
unfolding resolve_text to_string
text_differs e = absurd (ground (arith, e))

refresh-text_example :
    let before = (refresh drawing size 5 controller).0 in
    let next = set_binding_data drawing scored_data before in
    let result = refresh drawing size 7 next in
    (result.1 ≡ true)
    × (result.0.sink
        ≡ drawing.push_frame (drawing.render (build 7 next.scene).1 100 50) before.sink)
refresh-text_example =
    refresh-text drawing size controller 5 7 scored_data [] behind scoreboard (codes "2")
      drawn_before drawn_after text_differs
