-- ===== src/Overlay/Scene.antt =====
-- src/app/overlay/services/overlay_scene: the layout, the live data and the banners, made into a
-- scene to draw. Times are `uint64_t` milliseconds.
pub mod Layers
pub mod Banners
use strixcam.Prelude.{
  ℕ, ◌+◌, ◌*◌, ◌/◌, ◌%◌, ◌^◌, Bool, true, false, not, Option, none, some, String, List, [], ◌∷◌,
  ◌++◌, map, ltb, leb, if◌then◌else◌, ◌==◌, text_keys,
}
use strixcam.Prelude.Assoc.{Assoc}
use strixcam.Prelude.Bytes.{Bytes, to_string}
use strixcam.Session.{in_play, half_time, full_time}
use strixcam.Overlay.{
  OverlayElement, OverlayTemplate, OverlayLayout, OverlayBinding, static, score_a, score_b,
  score_vs, team_a_name, team_b_name, match_clock, period_label, OverlayShape, text, RenderElement,
  RenderScene,
}
use strixcam.Overlay.Binding.{BindingData}
use strixcam.Overlay.Substitute.{substituted}

abbrev pub ms_per_second : ℕ
ms_per_second = 1000

abbrev pub seconds_per_minute : ℕ
seconds_per_minute = 60

pub record ActiveBanner (R : Type 0) : Type 0 where
  pub expires_at_ms : ℕ
  pub elements : List (OverlayElement R)

pub record OverlayScene (R : Type 0) : Type 0 where
  pub layout : OverlayLayout R
  pub has_layout : Bool
  pub data_ : BindingData
  pub banners : List (ActiveBanner R)

-- `{:02}`
abbrev two_digits : ℕ → Bytes
two_digits n = if ltb n 10 then b'0' ∷ to_string n else to_string n

-- A space, an en dash in UTF-8, a space.
abbrev dash : Bytes
dash = b' ' ∷ 226 ∷ 128 ∷ 147 ∷ b' ' ∷ []

abbrev period_text : BindingData → Bytes
period_text data_ = elim data_.period_state [
  | half_time ↦ b'H' ∷ b'T' ∷ []
  | full_time ↦ b'F' ∷ b'T' ∷ []
  | in_play ↦ b'P' ∷ to_string data_.period
]

abbrev pub bound_text : OverlayBinding → Bytes → BindingData → Bytes
bound_text static own data_ = own
bound_text score_a own data_ = to_string data_.score_a
bound_text score_b own data_ = to_string data_.score_b
bound_text score_vs own data_ = to_string data_.score_a ++ dash ++ to_string data_.score_b
bound_text team_a_name own data_ = data_.team_a_name
bound_text team_b_name own data_ = data_.team_b_name
bound_text match_clock own data_ =
    two_digits (data_.clock_seconds / seconds_per_minute)
    ++ b':' ∷ two_digits (data_.clock_seconds % seconds_per_minute)
bound_text period_label own data_ = period_text data_

module _ {R : Type 0} where
  unfoldable pub set_layout : OverlayLayout R → OverlayScene R → OverlayScene R
  set_layout layout s = record s { layout = layout; has_layout = true; banners = [] }

  unfoldable pub set_binding_data : BindingData → OverlayScene R → OverlayScene R
  set_binding_data data_ s = record s { data_ = data_ }

  unfoldable pub find_template : String → List (OverlayTemplate R) → Option (OverlayTemplate R)
  find_template id [] = none
  find_template id (t ∷ ts) =
      let rest = find_template id ts in if t.event_type == id then some t else rest

  -- An element of a banner, shown, with its placeholders filled in.
  abbrev pub shown : Assoc Bytes Bytes → OverlayElement R → OverlayElement R
  shown params e = record e {
    visible = true;
    style = record e.style { static_text = substituted params e.style.static_text };
  }

  -- An override in seconds wins over the template's duration.
  abbrev pub duration_of : ℕ → OverlayTemplate R → ℕ
  duration_of seconds t = if ltb 0 seconds then seconds * ms_per_second else t.duration_ms

  abbrev pub banner_of : Assoc Bytes Bytes → ℕ → ℕ → OverlayTemplate R → ActiveBanner R
  banner_of params seconds now t = record {
    expires_at_ms = (now + duration_of seconds t) % 2 ^ 64;
    elements = map (shown params) t.elements;
  }

  unfoldable pub activate_banner :
      String → Assoc Bytes Bytes → ℕ → ℕ → OverlayScene R → OverlayScene R × Bool
  activate_banner id params seconds now s =
      if not s.has_layout then (s, false) else elim (find_template id s.layout.templates) [
        | none ↦ (s, false)
        | some t ↦ (record s { banners = s.banners ++ banner_of params seconds now t ∷ [] }, true)
      ]

  -- What is left of the banners at a time.
  unfoldable pub unexpired : ℕ → List (ActiveBanner R) → List (ActiveBanner R)
  unexpired now [] = []
  unexpired now (b ∷ bs) =
      let rest = unexpired now bs in if leb b.expires_at_ms now then rest else b ∷ rest

  unfoldable pub expire_banners : ℕ → OverlayScene R → OverlayScene R
  expire_banners now s = record s { banners = unexpired now s.banners }

  unfoldable pub resolve_text : BindingData → OverlayElement R → Bytes
  resolve_text data_ e = elim e.shape [
    | text ↦ bound_text e.binding e.style.static_text data_
    | _ ↦ []
  ]

  abbrev pub resolved : BindingData → OverlayElement R → RenderElement R
  resolved data_ e = record {
    shape = e.shape;
    bounds = e.bounds;
    style = e.style;
    text = resolve_text data_ e;
  }

  -- The elements that are added, those hidden left out.
  unfoldable pub add_elements : BindingData → List (OverlayElement R) → List (RenderElement R)
  add_elements data_ [] = []
  add_elements data_ (e ∷ es) =
      let rest = add_elements data_ es in if e.visible then resolved data_ e ∷ rest else rest

  unfoldable pub add_banners : BindingData → List (ActiveBanner R) → List (RenderElement R)
  unfolding add_elements
  add_banners data_ [] = []
  add_banners data_ (b ∷ bs) = add_elements data_ b.elements ++ add_banners data_ bs

  -- `std::stable_sort` by `z`, as an insertion sort.
  unfoldable pub insert_by_z : RenderElement R → List (RenderElement R) → List (RenderElement R)
  insert_by_z e [] = e ∷ []
  insert_by_z e (x ∷ xs) =
      let rest = insert_by_z e xs in if ltb x.bounds.z e.bounds.z then x ∷ rest else e ∷ x ∷ xs

  unfoldable pub sort_by_z : List (RenderElement R) → List (RenderElement R)
  unfolding insert_by_z
  sort_by_z [] = []
  sort_by_z (e ∷ es) = insert_by_z e (sort_by_z es)

  abbrev pub scene_of : OverlayScene R → RenderScene R
  scene_of s = record {
    canvas_width = s.layout.canvas_width;
    canvas_height = s.layout.canvas_height;
    elements = sort_by_z (add_elements s.data_ s.layout.elements ++ add_banners s.data_ s.banners);
  }

  unfoldable pub build : ℕ → OverlayScene R → OverlayScene R × RenderScene R
  unfolding expire_banners
  build now s = let left = expire_banners now s in (left, scene_of left)
