-- ===== src/Overlay.antt =====
-- src/domain/overlay/models: the overlay that the phone describes and the scene that is drawn. A
-- float is a value of `R`; texts are bytes.
pub mod Binding
pub mod Substitute
pub mod Scene
pub mod Controller
pub mod Mapper
pub mod Compositor
use strixcam.Prelude.{ℕ, Bool, String, List}
use strixcam.Prelude.Bytes.{Bytes}

pub data OverlayShape : Type 0 where
  unknown rect text circle : OverlayShape

pub data OverlayBinding : Type 0 where
  static score_a score_b score_vs team_a_name team_b_name match_clock period_label : OverlayBinding

pub data TextAlign : Type 0 where
  left center right : TextAlign

pub data FontWeight : Type 0 where
  normal bold : FontWeight

pub record OverlayRect (R : Type 0) : Type 0 where
  pub x1 : R
  pub y1 : R
  pub x2 : R
  pub y2 : R
  pub z : ℕ

pub record OverlayStyle (R : Type 0) : Type 0 where
  pub fill_color : Bytes
  pub text_color : Bytes
  pub opacity : R
  pub corner_radius : R
  pub font_family : Bytes
  pub font_size : R
  pub text_align : TextAlign
  pub font_weight : FontWeight
  pub static_text : Bytes

pub record OverlayElement (R : Type 0) : Type 0 where
  pub id : Bytes
  pub shape : OverlayShape
  pub bounds : OverlayRect R
  pub style : OverlayStyle R
  pub binding : OverlayBinding
  pub visible : Bool

pub record OverlayTemplate (R : Type 0) : Type 0 where
  pub event_type : String
  pub duration_ms : ℕ
  pub elements : List (OverlayElement R)

pub record OverlayLayout (R : Type 0) : Type 0 where
  pub canvas_width : ℕ
  pub canvas_height : ℕ
  pub elements : List (OverlayElement R)
  pub templates : List (OverlayTemplate R)

pub record RenderElement (R : Type 0) : Type 0 where
  pub shape : OverlayShape
  pub bounds : OverlayRect R
  pub style : OverlayStyle R
  pub text : Bytes

pub record RenderScene (R : Type 0) : Type 0 where
  pub canvas_width : ℕ
  pub canvas_height : ℕ
  pub elements : List (RenderElement R)

-- The value of the enumerator.
abbrev pub shape_value : OverlayShape → ℕ
shape_value unknown = 0
shape_value rect = 1
shape_value text = 2
shape_value circle = 3
