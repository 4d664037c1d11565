-- ===== src/Overlay/Scene/Layers.antt =====
-- The order in which a scene is drawn.
use mathlib.Core.List.{map-append}
use strixcam.Prelude.{
  ℕ, ◌≤◌, List, [], ◌∷◌, ◌++◌, map, ltb, sym, ap, ◌∙◌, nat_eq, if◌then◌else◌, ◌≡◌, refl, arith, All,
}
use strixcam.Overlay.{RenderElement, OverlayElement}
use strixcam.Overlay.Binding.{BindingData}
use strixcam.Overlay.Scene.{
  OverlayScene, ActiveBanner, resolve_text, build, insert_by_z, sort_by_z, add_elements,
  add_banners, expire_banners, unexpired,
}

module _ {R : Type 0} where
  abbrev pub IsLayered : List (RenderElement R) → Type 0
  IsLayered [] = Unit
  IsLayered (e ∷ es) = All (λ x. e.bounds.z ≤ x.bounds.z) es × IsLayered es

  -- The elements of one layer, in their order.
  unfoldable pub layer : ℕ → List (RenderElement R) → List (RenderElement R)
  layer z [] = []
  layer z (e ∷ es) = let rest = layer z es in if nat_eq e.bounds.z z then e ∷ rest else rest

  insert_by_z-All :
      (z : ℕ) (e : RenderElement R) (es : List (RenderElement R))
      → z ≤ e.bounds.z
      → All (λ x. z ≤ x.bounds.z) es
      → All (λ x. z ≤ x.bounds.z) (insert_by_z e es)
  unfolding insert_by_z
  insert_by_z-All z e [] h hs = (h, tt)
  insert_by_z-All z e (x ∷ xs) h (hx, hs) = ground (arith, insert_by_z-All z e xs h hs)

  raise :
      (a b : ℕ) (es : List (RenderElement R))
      → a ≤ b
      → All (λ x. b ≤ x.bounds.z) es
      → All (λ x. a ≤ x.bounds.z) es
  raise a b [] h hs = tt
  raise a b (x ∷ xs) h (hx, hs) = (omega arith, raise a b xs h hs)

  insert_by_z-IsLayered :
      (e : RenderElement R) (es : List (RenderElement R))
      → IsLayered es
      → IsLayered (insert_by_z e es)
  unfolding insert_by_z
  insert_by_z-IsLayered e [] h = (tt, tt)
  insert_by_z-IsLayered e (x ∷ xs) (hx, h) = ground (
    arith,
    insert_by_z-IsLayered e xs h,
    insert_by_z-All x.bounds.z e xs,
    raise e.bounds.z x.bounds.z xs,
    hx,
  )

  sort_by_z-IsLayered : (es : List (RenderElement R)) → IsLayered (sort_by_z es)
  unfolding sort_by_z
  sort_by_z-IsLayered [] = tt
  sort_by_z-IsLayered (e ∷ es) = insert_by_z-IsLayered e (sort_by_z es) (sort_by_z-IsLayered es)

  layer-insert_by_z :
      (z : ℕ) (e : RenderElement R) (es : List (RenderElement R))
      → layer z (insert_by_z e es) ≡ layer z (e ∷ es)
  unfolding insert_by_z layer
  layer-insert_by_z z e [] = refl
  layer-insert_by_z z e (x ∷ xs) = ground (arith, layer-insert_by_z z e xs)

  layer-sort_by_z : (z : ℕ) (es : List (RenderElement R)) → layer z (sort_by_z es) ≡ layer z es
  unfolding sort_by_z layer
  layer-sort_by_z z [] = refl
  layer-sort_by_z z (e ∷ es) =
      ground (arith, layer-insert_by_z z e (sort_by_z es), layer-sort_by_z z es)

  -- The elements that are not hidden, in their order.
  unfoldable pub visible_of : List (OverlayElement R) → List (OverlayElement R)
  visible_of [] = []
  visible_of (e ∷ es) = if e.visible then e ∷ visible_of es else visible_of es

  -- The elements of the banners that end after a time.
  unfoldable pub on_show : ℕ → List (ActiveBanner R) → List (OverlayElement R)
  on_show now [] = []
  on_show now (b ∷ bs) =
      if ltb now b.expires_at_ms then b.elements ++ on_show now bs else on_show now bs

  -- An element as it is drawn.
  abbrev pub as_drawn : BindingData → OverlayElement R → RenderElement R
  as_drawn data_ e = record {
    shape = e.shape;
    bounds = e.bounds;
    style = e.style;
    text = resolve_text data_ e;
  }

  visible_of-append :
      (xs ys : List (OverlayElement R)) → visible_of (xs ++ ys) ≡ visible_of xs ++ visible_of ys
  unfolding visible_of
  visible_of-append [] ys = refl
  visible_of-append (x ∷ xs) ys = ground (arith, visible_of-append xs ys)

  add_elements-visible_of :
      (data_ : BindingData) (es : List (OverlayElement R))
      → add_elements data_ es ≡ map (as_drawn data_) (visible_of es)
  unfolding add_elements visible_of
  add_elements-visible_of data_ [] = refl
  add_elements-visible_of data_ (e ∷ es) = ground (arith, add_elements-visible_of data_ es)

  shown_both :
      (data_ : BindingData) (xs ys : List (OverlayElement R))
      → map (as_drawn data_) (visible_of xs) ++ map (as_drawn data_) (visible_of ys)
        ≡ map (as_drawn data_) (visible_of (xs ++ ys))
  shown_both data_ xs ys =
      sym (map-append (as_drawn data_) (visible_of xs) (visible_of ys))
      ∙ ap (map (as_drawn data_)) (sym (visible_of-append xs ys))

  add_banners-on_show :
      (data_ : BindingData) (now : ℕ) (bs : List (ActiveBanner R))
      → add_banners data_ (unexpired now bs) ≡ map (as_drawn data_) (visible_of (on_show now bs))
  unfolding add_banners unexpired on_show visible_of
  add_banners-on_show data_ now [] = refl
  add_banners-on_show data_ now (b ∷ bs) = ground (
    arith,
    add_banners-on_show data_ now bs,
    add_elements-visible_of data_ b.elements,
    shown_both data_ b.elements (on_show now bs),
  )

  -- A scene is drawn from the lowest layer to the highest, and within each layer stand the elements of
  -- the layout that are not hidden and then those of the banners that end after the time, in their
  -- order, each once, with its bounds, its style and its resolved text.
  pub build-layers :
      (now : ℕ) (s : OverlayScene R)
      → let drawn = (build now s).1.elements in
        let all = s.layout.elements ++ on_show now s.banners in
        IsLayered drawn
        × ((z : ℕ) → layer z drawn ≡ layer z (map (as_drawn s.data_) (visible_of all)))
  unfolding build expire_banners
  build-layers now s =
      let added =
        add_elements s.data_ s.layout.elements ++ add_banners s.data_ (unexpired now s.banners) in
      let all = s.layout.elements ++ on_show now s.banners in
      let same : added ≡ map (as_drawn s.data_) (visible_of all) =
        ap (λ l. l ++ add_banners s.data_ (unexpired now s.banners))
          (add_elements-visible_of s.data_ s.layout.elements)
        ∙ ap (λ l. map (as_drawn s.data_) (visible_of s.layout.elements) ++ l)
            (add_banners-on_show s.data_ now s.banners)
        ∙ shown_both s.data_ s.layout.elements (on_show now s.banners) in
      (sort_by_z-IsLayered added, λ z. layer-sort_by_z z added ∙ ap (layer z) same)
