-- ===== src/Overlay/Controller.antt =====
-- src/app/overlay/services/overlay_controller: the scene, drawn and pushed when its signature
-- changes. Each method runs under the controller's mutex. How a float and its integer part print,
-- the renderer and the sink are parameters.
pub mod Shown
pub mod Fonts
pub mod Texts
use strixcam.Prelude.{
  ℕ, ◌+◌, ◌%◌, ◌^◌, Bool, true, false, not, ◌&&◌, String, List, [], ◌∷◌, ◌++◌, if◌then◌else◌, ◌==◌,
}
use strixcam.Prelude.Assoc.{Assoc}
use strixcam.Prelude.Bytes.{Bytes, to_string, bytes_keys}
use strixcam.Overlay.{OverlayLayout, RenderElement, RenderScene, shape_value}
use strixcam.Overlay.Binding.{BindingData, OverlayPorts}
use strixcam.Overlay.Scene.{OverlayScene, build}
use strixcam.Overlay.Scene as Scene

-- `fmt` of a float and of `static_cast<int>` of one, the renderer, and the sink.
pub record DrawingPorts (R I K : Type 0) : Type 0 where
  pub show : R → Bytes
  pub show_int : R → Bytes
  pub render : RenderScene R → ℕ → ℕ → I
  pub push_frame : I → K → K

pub record OutputSize : Type 0 where
  pub width : ℕ
  pub height : ℕ

pub record OverlayController (R K : Type 0) : Type 0 where
  pub scene : OverlayScene R
  pub last_signature : Bytes
  pub pushed_once : Bool
  pub push_count : ℕ
  pub sink : K

abbrev semicolon : Bytes
semicolon = b';' ∷ []

abbrev comma : Bytes
comma = b',' ∷ []

abbrev bar : Bytes
bar = b'|' ∷ []

module _ {R I K : Type 0} (ports : DrawingPorts R I K) where
  abbrev pub element_signature : RenderElement R → Bytes
  element_signature e =
      to_string (shape_value e.shape)
      ++ semicolon
      ++ ports.show e.bounds.x1
      ++ comma
      ++ ports.show e.bounds.y1
      ++ comma
      ++ ports.show e.bounds.x2
      ++ comma
      ++ ports.show e.bounds.y2
      ++ comma
      ++ to_string e.bounds.z
      ++ semicolon
      ++ e.text
      ++ semicolon
      ++ e.style.fill_color
      ++ semicolon
      ++ e.style.text_color
      ++ semicolon
      ++ ports.show e.style.opacity
      ++ semicolon
      ++ ports.show_int e.style.corner_radius
      ++ bar

  unfoldable pub elements_signature : List (RenderElement R) → Bytes
  elements_signature [] = []
  elements_signature (e ∷ es) = element_signature e ++ elements_signature es

  unfoldable pub signature : RenderScene R → Bytes
  unfolding elements_signature
  signature s =
      to_string s.canvas_width
      ++ (b'x' ∷ [])
      ++ to_string s.canvas_height
      ++ bar
      ++ elements_signature s.elements

  unfoldable pub set_layout : OverlayLayout R → OverlayController R K → OverlayController R K
  set_layout layout k = record k { scene = Scene.set_layout layout k.scene }

  unfoldable pub set_binding_data : BindingData → OverlayController R K → OverlayController R K
  set_binding_data data_ k = record k { scene = Scene.set_binding_data data_ k.scene }

  unfoldable pub activate_banner :
      String → Assoc Bytes Bytes → ℕ → ℕ → OverlayController R K → OverlayController R K × Bool
  activate_banner id params seconds now k =
      let (scene, shown) = Scene.activate_banner id params seconds now k.scene in
      (record k { scene = scene }, shown)

  module _ (out_size : OutputSize) where
    -- A controller that pushes the scene that it has just built.
    abbrev pub pushing : RenderScene R → OverlayController R K → OverlayController R K
    pushing drawn k = record k {
      last_signature = signature drawn;
      pushed_once = true;
      push_count = (k.push_count + 1) % 2 ^ 64;
      sink = ports.push_frame (ports.render drawn out_size.width out_size.height) k.sink;
    }

    unfoldable pub refresh : ℕ → OverlayController R K → OverlayController R K × Bool
    refresh now k =
        let (scene, drawn) = build now k.scene in
        let built = record k { scene = scene } in
        if k.pushed_once && signature drawn == k.last_signature
        then (built, false)
        else (pushing drawn built, true)

    -- The controller as its clients see it.
    abbrev pub overlay_ports : OverlayPorts (OverlayController R K)
    overlay_ports = record {
      set_binding_data = set_binding_data;
      activate_banner = λ id params seconds now k. (activate_banner id params seconds now k).0;
      refresh = λ now k. (refresh now k).0;
    }
