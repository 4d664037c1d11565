-- ===== src/Overlay/Controller/Texts.antt =====
-- A changed text, in the signature and on the sink.
use mathlib.Core.List.{append_assoc, append_cancel_left, append_cancel_right}
use strixcam.Prelude.{
  ℕ, true, List, [], ◌∷◌, ◌++◌, ◌≡◌, ◌≢◌, refl, sym, ap, ◌∙◌, Bool-cases, inl, inr,
}
use strixcam.Prelude.Bytes.{Bytes, to_string, bytes_keys, bytes_eq_iff}
use strixcam.Overlay.{RenderElement, RenderScene, shape_value}
use strixcam.Overlay.Binding.{BindingData}
use strixcam.Overlay.Scene.{build, expire_banners}
use strixcam.Overlay.Scene as Scene
use strixcam.Overlay.Controller.{
  OverlayController, DrawingPorts, OutputSize, signature, elements_signature, element_signature,
  set_binding_data, refresh,
}
use strixcam.Overlay.Controller.Shown.{refresh-IsRefreshed, refresh_changed, is_unchanged, both}

module _ {R I K : Type 0} (ports : DrawingPorts R I K) where
  abbrev pub with_text : Bytes → RenderElement R → RenderElement R
  with_text text e = record e { text = text }

  elements_signature-append :
      (pre post : List (RenderElement R))
      → elements_signature ports (pre ++ post)
        ≡ elements_signature ports pre ++ elements_signature ports post
  unfolding elements_signature
  elements_signature-append [] post = refl
  elements_signature-append (e ∷ es) post =
      ap (λ l. element_signature ports e ++ l) (elements_signature-append es post)
      ∙ sym (
          append_assoc (element_signature ports e) (elements_signature ports es)
            (elements_signature ports post))

  -- What stands before an element's text in its signature, and what behind it.
  abbrev before_text : RenderElement R → Bytes
  before_text e =
      to_string (shape_value e.shape)
      ++ (b';' ∷ [])
      ++ ports.show e.bounds.x1
      ++ (b',' ∷ [])
      ++ ports.show e.bounds.y1
      ++ (b',' ∷ [])
      ++ ports.show e.bounds.x2
      ++ (b',' ∷ [])
      ++ ports.show e.bounds.y2
      ++ (b',' ∷ [])
      ++ to_string e.bounds.z
      ++ b';' ∷ []

  abbrev behind_text : RenderElement R → Bytes
  behind_text e =
      (b';' ∷ [])
      ++ e.style.fill_color
      ++ (b';' ∷ [])
      ++ e.style.text_color
      ++ (b';' ∷ [])
      ++ ports.show e.style.opacity
      ++ (b';' ∷ [])
      ++ ports.show_int e.style.corner_radius
      ++ b'|' ∷ []

  element_signature-text :
      (e : RenderElement R) → element_signature ports e ≡ before_text e ++ (e.text ++ behind_text e)
  element_signature-text e = simp append_assoc

  same_text :
      (e : RenderElement R) (t : Bytes)
      → element_signature ports e ≡ element_signature ports (with_text t e)
      → e.text ≡ t
  same_text e t h = append_cancel_right e.text t (behind_text e) (
      append_cancel_left (before_text e) (e.text ++ behind_text e) (t ++ behind_text e)
        (sym (element_signature-text e) ∙ h ∙ element_signature-text (with_text t e)))

  abbrev head : ℕ → ℕ → Bytes → Bytes
  head w h rest = to_string w ++ (b'x' ∷ []) ++ to_string h ++ (b'|' ∷ []) ++ rest

  head_cancel : (w h : ℕ) (a b : Bytes) → head w h a ≡ head w h b → a ≡ b
  head_cancel w h a b same =
      append_cancel_left (to_string w ++ (b'x' ∷ []) ++ to_string h ++ b'|' ∷ []) a b same

  elements_signature-text :
      (pre post : List (RenderElement R)) (e : RenderElement R) (t : Bytes)
      → elements_signature ports (pre ++ e ∷ post)
        ≡ elements_signature ports (pre ++ with_text t e ∷ post)
      → e.text ≡ t
  unfolding elements_signature
  elements_signature-text pre post e t same =
      let sig = elements_signature ports in
      let here = element_signature ports e in
      let there = element_signature ports (with_text t e) in
      let both =
        sym (elements_signature-append pre (e ∷ post))
        ∙ same
        ∙ elements_signature-append pre (with_text t e ∷ post) in
      same_text e t (
        append_cancel_right here there (sig post)
          (append_cancel_left (sig pre) (here ++ sig post) (there ++ sig post) both))

  -- Scenes of one canvas that differ in the text of one element have different signatures.
  signature-text :
      (a b : RenderScene R) (pre post : List (RenderElement R)) (e : RenderElement R) (t : Bytes)
      → b.canvas_width ≡ a.canvas_width
      → b.canvas_height ≡ a.canvas_height
      → a.elements ≡ pre ++ e ∷ post
      → b.elements ≡ pre ++ with_text t e ∷ post
      → signature ports a ≡ signature ports b
      → e.text ≡ t
  unfolding signature
  signature-text a b pre post e t same_w same_h ea eb same =
      let sig = elements_signature ports in
      elements_signature-text pre post e t (
        ap sig (sym ea)
        ∙ head_cancel a.canvas_width a.canvas_height (sig a.elements) (sig b.elements) (
            same
            ∙ ap (λ w. head w b.canvas_height (sig b.elements)) same_w
            ∙ ap (λ h. head a.canvas_width h (sig b.elements)) same_h)
        ∙ ap sig eb)

  module _ (out_size : OutputSize) where
    -- Where new binding data changes the text of one element of the scene drawn last, the next refresh
    -- draws the new scene and pushes it.
    pub refresh-text :
        (k : OverlayController R K) (now later : ℕ) (data_ : BindingData)
        (pre post : List (RenderElement R)) (e : RenderElement R) (t : Bytes)
        → (build now k.scene).1.elements ≡ pre ++ e ∷ post
        → (build later
            (set_binding_data ports data_ (refresh ports out_size now k).0).scene).1.elements
          ≡ pre ++ with_text t e ∷ post
        → e.text ≢ t
        → let before = (refresh ports out_size now k).0 in
          let next = set_binding_data ports data_ before in
          let result = refresh ports out_size later next in
          (result.1 ≡ true)
          × (result.0.sink
              ≡ ports.push_frame
                  (ports.render (build later next.scene).1 out_size.width out_size.height)
                  before.sink)
    unfolding set_binding_data Scene.set_binding_data build expire_banners
    refresh-text k now later data_ pre post e t ea eb differs =
        let before = (refresh ports out_size now k).0 in
        let next = set_binding_data ports data_ before in
        let (once, sig, scene) = refresh-IsRefreshed ports out_size now k in
        elim (Bool-cases (is_unchanged ports out_size later next)) [
          | inl unchanged ↦
              let equal =
                (bytes_eq_iff (signature ports (build later next.scene).1) next.last_signature).0
                  (both next.pushed_once _ unchanged).1 in
              absurd (
                differs (
                  signature-text (build now k.scene).1 (build later next.scene).1 pre post e t
                    (ap (λ s. s.layout.canvas_width) scene) (ap (λ s. s.layout.canvas_height) scene)
                    ea eb (sym sig ∙ sym equal)))
          | inr changed ↦
              let drawn = refresh_changed ports out_size later next changed in
              (ap (λ r. r.1) drawn, ap (λ r. r.0.sink) drawn)
        ]
