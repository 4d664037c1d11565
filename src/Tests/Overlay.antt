-- ===== src/Tests/Overlay.antt =====
-- Runs of the overlay's scene and of the substitution.
use strixcam.Prelude.{map, ℕ, true, some, List, [], ◌∷◌, ◌++◌, ◌≡◌, refl}
use strixcam.Prelude.Bytes.{Bytes, codes}
use strixcam.Session.{in_play}
use strixcam.Overlay.{
  OverlayRect, OverlayStyle, OverlayElement, OverlayTemplate, OverlayLayout, text, static, score_a,
  center, bold,
}
use strixcam.Overlay.Binding.{BindingData}
use strixcam.Overlay.Scene.{OverlayScene, find_template, banner_of, activate_banner, build}
use strixcam.Overlay.Scene.Layers.{IsLayered, layer, visible_of, on_show, as_drawn, build-layers}
use strixcam.Overlay.Scene.Banners.{
  SceneCall, builds, activates_banner, run, surviving, with_banners, activate_banner-run,
}
use strixcam.Overlay.Substitute.{substitute_params}
use strixcam.Overlay.Substitute.Loop.{substitute_params_ends}
use strixcam.Overlay.Substitute.Templates.{
  Part, literal, placeholder, render, expand, substitute_params-expand,
}

abbrev pub at : ℕ → OverlayRect ℕ
at z = record { x1 = 0; y1 = 0; x2 = 10; y2 = 5; z = z }

abbrev pub style : Bytes → OverlayStyle ℕ
style static_text = record {
  fill_color = codes "#000000";
  text_color = codes "#ffffff";
  opacity = 1;
  corner_radius = 0;
  font_family = codes "Sans";
  font_size = 12;
  text_align = center;
  font_weight = bold;
  static_text = static_text;
}

abbrev pub element : ℕ → Bytes → OverlayElement ℕ
element z static_text = record {
  id = codes "e";
  shape = text;
  bounds = at z;
  style = style static_text;
  binding = static;
  visible = true;
}

abbrev goal : OverlayTemplate ℕ
goal = record {
  event_type = "goal";
  duration_ms = 0;
  elements = element 3 (codes "goal {{who}}") ∷ [];
}

abbrev pub layout : OverlayLayout ℕ
layout = record {
  canvas_width = 100;
  canvas_height = 50;
  elements = element 2 (codes "b") ∷ record (element 1 (codes "a")) { binding = score_a } ∷ [];
  templates = goal ∷ [];
}

abbrev pub binding_data : BindingData
binding_data = record {
  team_a_name = codes "A";
  team_b_name = codes "B";
  score_a = 1;
  score_b = 2;
  period = 1;
  clock_seconds = 65;
  period_state = in_play;
}

abbrev pub scene : OverlayScene ℕ
scene = record { layout = layout; has_layout = true; data_ = binding_data; banners = [] }

build-layers_example :
    let drawn = (build 10 scene).1.elements in
    let all = scene.layout.elements ++ on_show 10 scene.banners in
    IsLayered drawn
    × ((z : ℕ) → layer z drawn ≡ layer z (map (as_drawn scene.data_) (visible_of all)))
build-layers_example = build-layers 10 scene

goal_found : find_template "goal" layout.templates ≡ some goal
unfolding find_template
goal_found = refl

abbrev life : List (SceneCall ℕ)
life = builds 50 ∷ activates_banner "goal" [] 9 60 ∷ builds 4100 ∷ []

activate_banner-run_example :
    let (after, shown) = activate_banner "goal" ((codes "who", codes "9") ∷ []) 4 100 scene in
    let mine = scene.banners ++ banner_of ((codes "who", codes "9") ∷ []) 4 100 goal ∷ [] in
    (shown ≡ true)
    × ((run life after).banners ≡ surviving life mine ++ (run life (with_banners scene [])).banners)
activate_banner-run_example =
    activate_banner-run scene life "goal" ((codes "who", codes "9") ∷ []) 4 100 goal refl goal_found

substitute_params_ends_example :
    (out : Bytes) × (substitute_params ((codes "a", codes "{{a}}") ∷ []) (codes "x {{a}} {{a}")
      ≡ some out)
substitute_params_ends_example =
    substitute_params_ends ((codes "a", codes "{{a}}") ∷ []) (codes "x {{a}} {{a}")

abbrev parts : List Part
parts = literal (b'x' ∷ []) ∷ placeholder (b'a' ∷ []) ∷ placeholder (b'c' ∷ []) ∷ []

substitute_params-expand_example :
    substitute_params ((b'a' ∷ [], b'v' ∷ b'w' ∷ []) ∷ []) (render parts)
    ≡ some (expand ((b'a' ∷ [], b'v' ∷ b'w' ∷ []) ∷ []) parts)
substitute_params-expand_example =
    substitute_params-expand ((b'a' ∷ [], b'v' ∷ b'w' ∷ []) ∷ []) parts
      (((refl, tt), (refl, (refl, tt))), tt) ((refl, tt), ((refl, tt), ((refl, tt), tt)))
