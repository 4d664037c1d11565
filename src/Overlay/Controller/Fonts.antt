-- ===== src/Overlay/Controller/Fonts.antt =====
-- A layout that differs from the last one in its fonts and alignments alone.
use strixcam.Prelude.{ℕ, false, List, [], ◌∷◌, ◌++◌, map, ◌≡◌, refl, ap, ◌∙◌, sym, arith}
use mathlib.Core.List.{append-nil}
use strixcam.Prelude.Bytes.{Bytes, to_string, bytes_keys, bytes_eq_iff}
use strixcam.Overlay.{
  OverlayStyle, OverlayElement, OverlayLayout, RenderElement, TextAlign, FontWeight,
}
use strixcam.Overlay.Binding.{BindingData}
use strixcam.Overlay.Scene.{
  OverlayScene, build, expire_banners, unexpired, resolve_text, add_elements, add_banners,
  insert_by_z, sort_by_z,
}
use strixcam.Overlay.Scene as Scene
use strixcam.Overlay.Controller.{
  OverlayController, DrawingPorts, OutputSize, signature, elements_signature, set_layout, refresh,
}
use strixcam.Overlay.Controller.Shown.{refresh_unchanged, refresh-IsRefreshed}

pub record Fonts (R : Type 0) : Type 0 where
  pub font_family : Bytes
  pub font_size : R
  pub text_align : TextAlign
  pub font_weight : FontWeight

module _ {R : Type 0} (fonts : OverlayStyle R → Fonts R) where
  abbrev pub in_fonts : OverlayStyle R → OverlayStyle R
  in_fonts style =
      let f = fonts style in
      record style {
        font_family = f.font_family;
        font_size = f.font_size;
        text_align = f.text_align;
        font_weight = f.font_weight;
      }

  abbrev pub restyled : OverlayElement R → OverlayElement R
  restyled e = record e { style = in_fonts e.style }

  abbrev drawn_restyled : RenderElement R → RenderElement R
  drawn_restyled e = record e { style = in_fonts e.style }

  add_elements-map :
      (data_ : BindingData) (es : List (OverlayElement R))
      → add_elements data_ (map restyled es) ≡ map drawn_restyled (add_elements data_ es)
  unfolding add_elements resolve_text
  add_elements-map data_ [] = refl
  add_elements-map data_ (e ∷ es) = ground (arith, add_elements-map data_ es)

  insert_by_z-map :
      (e : RenderElement R) (es : List (RenderElement R))
      → insert_by_z (drawn_restyled e) (map drawn_restyled es)
        ≡ map drawn_restyled (insert_by_z e es)
  unfolding insert_by_z
  insert_by_z-map e [] = refl
  insert_by_z-map e (x ∷ xs) = ground (arith, insert_by_z-map e xs)

  sort_by_z-map :
      (es : List (RenderElement R))
      → sort_by_z (map drawn_restyled es) ≡ map drawn_restyled (sort_by_z es)
  unfolding sort_by_z
  sort_by_z-map [] = refl
  sort_by_z-map (e ∷ es) =
      ap (insert_by_z (drawn_restyled e)) (sort_by_z-map es) ∙ insert_by_z-map e (sort_by_z es)

  module _ {I K : Type 0} (ports : DrawingPorts R I K) (out_size : OutputSize) where
    elements_signature-map :
        (es : List (RenderElement R))
        → elements_signature ports (map drawn_restyled es) ≡ elements_signature ports es
    unfolding elements_signature
    elements_signature-map [] = refl
    elements_signature-map (e ∷ es) = rw (elements_signature-map es) refl

    -- With no banner, the restyled elements make the same signature.
    pub elements_signature-restyled :
        (data_ : BindingData) (es : List (OverlayElement R))
        → elements_signature ports (sort_by_z (add_elements data_ (map restyled es) ++ []))
          ≡ elements_signature ports (sort_by_z (add_elements data_ es ++ []))
    elements_signature-restyled data_ es =
        let drawn = add_elements data_ es in
        ap (λ l. elements_signature ports (sort_by_z (l ++ []))) (add_elements-map data_ es)
        ∙ ap (λ l. elements_signature ports (sort_by_z l)) (append-nil (map drawn_restyled drawn))
        ∙ ap (elements_signature ports) (sort_by_z-map drawn)
        ∙ elements_signature-map (sort_by_z drawn)
        ∙ ap (λ l. elements_signature ports (sort_by_z l)) (sym (append-nil drawn))

-- The element with its fonts and alignment replaced by the given ones.
abbrev pub in_font : {R : Type 0} → Fonts R → OverlayElement R → OverlayElement R
in_font font = restyled (λ _. font)

-- Two layouts of one canvas whose elements agree, one by one, in all but their fonts and alignments.
pub record SameButFonts {R : Type 0} (font : Fonts R) (a b : OverlayLayout R) : Type 0 where
  pub canvas_width : a.canvas_width ≡ b.canvas_width
  pub canvas_height : a.canvas_height ≡ b.canvas_height
  pub elements : map (in_font font) a.elements ≡ map (in_font font) b.elements

module _ {R I K : Type 0} (ports : DrawingPorts R I K) (out_size : OutputSize)
    (font : Fonts R) where
  signature-SameButFonts :
      (now later : ℕ) (s : OverlayScene R) (other : OverlayLayout R)
      → s.banners ≡ []
      → SameButFonts font other s.layout
      → signature ports (build later (Scene.set_layout other (build now s).0)).1
        ≡ signature ports (build now s).1
  unfolding signature build expire_banners Scene.set_layout unexpired add_banners
  signature-SameButFonts now later s other h same =
      let head = λ (w t : ℕ). to_string w ++ (b'x' ∷ []) ++ to_string t ++ b'|' ∷ [] in
      let sig = λ (es : List (OverlayElement R)).
        elements_signature ports (sort_by_z (add_elements s.data_ es ++ [])) in
      let plain = elements_signature-restyled (λ _. font) ports out_size s.data_ in
      let elements : sig other.elements ≡ sig s.layout.elements =
        sym (plain other.elements) ∙ ap sig same.elements ∙ plain s.layout.elements in
      ap (λ w. head w other.canvas_height ++ sig other.elements) same.canvas_width
      ∙ ap (λ t. head s.layout.canvas_width t ++ sig other.elements) same.canvas_height
      ∙ ap (λ l. head s.layout.canvas_width s.layout.canvas_height ++ l) elements
      ∙ ap
          (λ bs.
            head s.layout.canvas_width s.layout.canvas_height
            ++ elements_signature ports (
                sort_by_z (
                  add_elements s.data_ s.layout.elements
                  ++ add_banners s.data_ (unexpired now bs))))
          (sym h)

  -- After a refresh without banners, setting a layout whose elements differ from those of the last
  -- one in font families, font sizes, alignments and weights alone, each element in its own way,
  -- draws nothing: the next refresh returns false, and the sink keeps the old picture. (`font` is
  -- any font, to compare the rest of the elements in.)
  pub refresh-restyled :
      (k : OverlayController R K) (now later : ℕ) (other : OverlayLayout R)
      → k.scene.banners ≡ []
      → SameButFonts font other k.scene.layout
      → let before = (refresh ports out_size now k).0 in
        let next = refresh ports out_size later (set_layout ports other before) in
        (next.1 ≡ false) × (next.0.sink ≡ before.sink)
  unfolding set_layout
  refresh-restyled k now later other h alike =
      let before = (refresh ports out_size now k).0 in
      let (once, sig, scene) = refresh-IsRefreshed ports out_size now k in
      let again = set_layout ports other before in
      let same : signature ports (build later again.scene).1 ≡ before.last_signature =
        ap (λ s. signature ports (build later (Scene.set_layout other s)).1) scene
        ∙ signature-SameButFonts now later k.scene other h alike
        ∙ sym sig in
      let unchanged = refresh_unchanged ports out_size later again (
        rw
          (
            once,
            (bytes_eq_iff (signature ports (build later again.scene).1) before.last_signature).1
                same,
          )
          refl) in
      (ap (λ r. r.1) unchanged, ap (λ r. r.0.sink) unchanged)
