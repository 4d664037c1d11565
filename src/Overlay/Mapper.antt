-- ===== src/Overlay/Mapper.antt =====
-- src/app/overlay/overlay-proto-mapper.cpp: the layout of a command as the layout of the domain. The
-- messages are records of what the mapper reads of them; an enumeration has the values that the
-- mapper names, and any other. `clamp` is `std::clamp` of a float to [0, 1], and `one` is 1.0.
use strixcam.Prelude.{ℕ, Bool, true, Option, none, some, String, List, map}
use strixcam.Prelude.Bytes.{Bytes}
use strixcam.Overlay.{
  OverlayShape, unknown, rect, text, circle, OverlayBinding, static, score_a, score_b, score_vs,
  team_a_name, team_b_name, match_clock, period_label, TextAlign, left, center, right, FontWeight,
  normal, bold, OverlayRect, OverlayStyle, OverlayElement, OverlayTemplate, OverlayLayout,
}

pub data ShapeMessage : Type 0 where
  shape_rect shape_text shape_circle other_shape : ShapeMessage

pub data BindingMessage : Type 0 where
  binding_score_a binding_score_b binding_score_vs binding_team_a_name binding_team_b_name
        binding_match_clock binding_period_label other_binding :
      BindingMessage

pub data AlignMessage : Type 0 where
  align_center align_right other_align : AlignMessage

pub data WeightMessage : Type 0 where
  weight_bold other_weight : WeightMessage

-- An `optional` field is `none` when absent.
pub record StyleMessage (R : Type 0) : Type 0 where
  pub fill_color : Bytes
  pub text_color : Bytes
  pub opacity : Option R
  pub corner_radius : R
  pub font_family : Bytes
  pub font_size : R
  pub text_align : AlignMessage
  pub font_weight : WeightMessage
  pub static_text : Bytes

pub record ElementMessage (R : Type 0) : Type 0 where
  pub id : Bytes
  pub shape : ShapeMessage
  pub bounds : OverlayRect R
  pub style : StyleMessage R
  pub binding : BindingMessage
  pub visible : Option Bool

pub record TemplateMessage (R : Type 0) : Type 0 where
  pub event_type : String
  pub duration_ms : ℕ
  pub elements : List (ElementMessage R)

pub record LayoutMessage (R : Type 0) : Type 0 where
  pub canvas_width : ℕ
  pub canvas_height : ℕ
  pub elements : List (ElementMessage R)
  pub templates : List (TemplateMessage R)

unfoldable pub map_shape : ShapeMessage → OverlayShape
map_shape shape_rect = rect
map_shape shape_text = text
map_shape shape_circle = circle
map_shape other_shape = unknown

unfoldable pub map_binding : BindingMessage → OverlayBinding
map_binding binding_score_a = score_a
map_binding binding_score_b = score_b
map_binding binding_score_vs = score_vs
map_binding binding_team_a_name = team_a_name
map_binding binding_team_b_name = team_b_name
map_binding binding_match_clock = match_clock
map_binding binding_period_label = period_label
map_binding other_binding = static

unfoldable pub map_align : AlignMessage → TextAlign
map_align align_center = center
map_align align_right = right
map_align other_align = left

unfoldable pub map_weight : WeightMessage → FontWeight
map_weight weight_bold = bold
map_weight other_weight = normal

abbrev or_else {ℓ} : {A : Type ℓ} → A → Option A → A
or_else d none = d
or_else d (some a) = a

module _ {R : Type 0} (clamp : R → R) (one : R) where
  unfoldable pub map_style : StyleMessage R → OverlayStyle R
  unfolding map_align map_weight
  map_style style = record {
    fill_color = style.fill_color;
    text_color = style.text_color;
    opacity = clamp (or_else one style.opacity);
    corner_radius = style.corner_radius;
    font_family = style.font_family;
    font_size = style.font_size;
    text_align = map_align style.text_align;
    font_weight = map_weight style.font_weight;
    static_text = style.static_text;
  }

  unfoldable pub map_element : ElementMessage R → OverlayElement R
  unfolding map_style map_shape map_binding
  map_element element = record {
    id = element.id;
    shape = map_shape element.shape;
    bounds = element.bounds;
    style = map_style element.style;
    binding = map_binding element.binding;
    visible = or_else true element.visible;
  }

  abbrev map_template : TemplateMessage R → OverlayTemplate R
  map_template t = record {
    event_type = t.event_type;
    duration_ms = t.duration_ms;
    elements = map map_element t.elements;
  }

  unfoldable pub map_layout_from_proto : LayoutMessage R → OverlayLayout R
  map_layout_from_proto proto = record {
    canvas_width = proto.canvas_width;
    canvas_height = proto.canvas_height;
    elements = map map_element proto.elements;
    templates = map map_template proto.templates;
  }
