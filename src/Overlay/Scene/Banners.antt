-- ===== src/Overlay/Scene/Banners.antt =====
-- The life of a banner, over the calls that come after it.
use mathlib.Core.List.{append_assoc, append-nil}
use strixcam.Prelude.{
  ℕ, Bool, true, false, some, String, List, [], ◌∷◌, ◌++◌, leb, if◌then◌else◌, ◌≡◌, refl, sym, ap,
  ◌∙◌, arith, Option-cases, inl, inr,
}
use strixcam.Prelude.Assoc.{Assoc}
use strixcam.Prelude.Bytes.{Bytes}
use strixcam.Overlay.{OverlayTemplate, OverlayLayout}
use strixcam.Overlay.Binding.{BindingData}
use strixcam.Overlay.Scene.{
  OverlayScene, ActiveBanner, set_layout, set_binding_data, activate_banner, build, expire_banners,
  unexpired, find_template, banner_of,
}

pub data SceneCall (R : Type 0) : Type 0 where
  sets_layout : OverlayLayout R → SceneCall R
  sets_binding_data : BindingData → SceneCall R
  activates_banner : String → Assoc Bytes Bytes → ℕ → ℕ → SceneCall R
  builds : ℕ → SceneCall R

module _ {R : Type 0} where
  abbrev pub step : SceneCall R → OverlayScene R → OverlayScene R
  step (sets_layout layout) s = set_layout layout s
  step (sets_binding_data data_) s = set_binding_data data_ s
  step (activates_banner id params seconds now) s = (activate_banner id params seconds now s).0
  step (builds now) s = (build now s).0

  abbrev pub run : List (SceneCall R) → OverlayScene R → OverlayScene R
  run [] s = s
  run (c ∷ cs) s = run cs (step c s)

  -- No layout is set, and every time at which a scene is built is before the banner's end.
  unfoldable pub outlives : List (SceneCall R) → ActiveBanner R → Bool
  outlives [] b = true
  outlives (sets_layout layout ∷ cs) b = false
  outlives (builds now ∷ cs) b = if leb b.expires_at_ms now then false else outlives cs b
  outlives (_ ∷ cs) b = outlives cs b

  unfoldable pub surviving : List (SceneCall R) → List (ActiveBanner R) → List (ActiveBanner R)
  unfolding outlives
  surviving cs [] = []
  surviving cs (b ∷ bs) = let rest = surviving cs bs in if outlives cs b then b ∷ rest else rest

  surviving_nil : (bs : List (ActiveBanner R)) → surviving [] bs ≡ bs
  unfolding surviving
  surviving_nil [] = refl
  surviving_nil (b ∷ bs) = ap (λ rest. b ∷ rest) (surviving_nil bs)

  abbrev kept : SceneCall R → List (ActiveBanner R) → List (ActiveBanner R)
  kept (sets_layout layout) bs = []
  kept (builds now) bs = unexpired now bs
  kept _ bs = bs

  surviving-kept :
      (c : SceneCall R) (cs : List (SceneCall R)) (bs : List (ActiveBanner R))
      → surviving cs (kept c bs) ≡ surviving (c ∷ cs) bs
  unfolding surviving unexpired outlives
  surviving-kept (sets_layout _) cs [] = refl
  surviving-kept (sets_layout layout) cs (b ∷ bs) = surviving-kept (sets_layout layout) cs bs
  surviving-kept (sets_binding_data _) cs [] = refl
  surviving-kept (sets_binding_data data_) cs (b ∷ bs) =
      rw (surviving-kept (sets_binding_data data_) cs bs) refl
  surviving-kept (activates_banner _ _ _ _) cs [] = refl
  surviving-kept (activates_banner id params seconds now) cs (b ∷ bs) =
      rw (surviving-kept (activates_banner id params seconds now) cs bs) refl
  surviving-kept (builds now) cs [] = refl
  surviving-kept (builds now) cs (b ∷ bs) = ground (arith, surviving-kept (builds now) cs bs)

  unexpired-append :
      (now : ℕ) (xs ys : List (ActiveBanner R))
      → unexpired now (xs ++ ys) ≡ unexpired now xs ++ unexpired now ys
  unfolding unexpired
  unexpired-append now [] ys = refl
  unexpired-append now (x ∷ xs) ys = ground (arith, unexpired-append now xs ys)

  abbrev pub with_banners : OverlayScene R → List (ActiveBanner R) → OverlayScene R
  with_banners s bs = record s { banners = bs }

  activate_banner-with_banners :
      (id : String) (params : Assoc Bytes Bytes) (seconds now : ℕ) (s : OverlayScene R)
      (xs ys : List (ActiveBanner R))
      → (activate_banner id params seconds now (with_banners s (xs ++ ys))).0
        ≡ with_banners s
            (xs ++ (activate_banner id params seconds now (with_banners s ys)).0.banners)
  unfolding activate_banner
  activate_banner-with_banners id params seconds now s xs ys =
      elim (Option-cases (find_template id s.layout.templates)) [
        | inl e ↦ ground (arith, e)
        | inr (t, e) ↦ ground (arith, e, append_assoc xs ys (banner_of params seconds now t ∷ []))
      ]

  activate_banner-layout :
      (id : String) (params : Assoc Bytes Bytes) (seconds now : ℕ) (s : OverlayScene R)
      → with_banners s (activate_banner id params seconds now s).0.banners
        ≡ (activate_banner id params seconds now s).0
  unfolding activate_banner
  activate_banner-layout id params seconds now s =
      elim (Option-cases (find_template id s.layout.templates)) [
        | inl e ↦ ground (arith, e)
        | inr (t, e) ↦ ground (arith, e)
      ]

  step-with_banners :
      (c : SceneCall R) (s : OverlayScene R) (xs ys : List (ActiveBanner R))
      → step c (with_banners s (xs ++ ys))
        ≡ (let next = step c (with_banners s ys) in with_banners next (kept c xs ++ next.banners))
  unfolding set_layout set_binding_data build expire_banners
  step-with_banners (sets_layout layout) s xs ys = refl
  step-with_banners (sets_binding_data data_) s xs ys = refl
  step-with_banners (activates_banner id params seconds now) s xs ys =
      activate_banner-with_banners id params seconds now s xs ys
      ∙ ap (λ r. with_banners r (xs ++ r.banners))
          (activate_banner-layout id params seconds now (with_banners s ys))
  step-with_banners (builds now) s xs ys = rw (unexpired-append now xs ys) refl

  run-with_banners :
      (cs : List (SceneCall R)) (s : OverlayScene R) (xs ys : List (ActiveBanner R))
      → (run cs (with_banners s (xs ++ ys))).banners
        ≡ surviving cs xs ++ (run cs (with_banners s ys)).banners
  run-with_banners [] s xs ys = ap (λ bs. bs ++ ys) (sym (surviving_nil xs))
  run-with_banners (c ∷ cs) s xs ys =
      let next = step c (with_banners s ys) in
      ap (λ r. (run cs r).banners) (step-with_banners c s xs ys)
      ∙ run-with_banners cs next (kept c xs) next.banners
      ∙ ap (λ bs. bs ++ (run cs next).banners) (surviving-kept c cs xs)

  activated :
      (s : OverlayScene R) (id : String) (params : Assoc Bytes Bytes) (seconds now : ℕ)
      (t : OverlayTemplate R)
      → s.has_layout ≡ true
      → find_template id s.layout.templates ≡ some t
      → activate_banner id params seconds now s
        ≡ (with_banners s (s.banners ++ banner_of params seconds now t ∷ []), true)
  unfolding activate_banner
  activated s id params seconds now t h e = ground (arith, e)

  -- In a scene with a layout that has the template, an activation succeeds. Whatever layouts, data,
  -- banners and builds follow, a banner that the scene had before or the new one, which ends at the
  -- sum of the time and its duration (modulo 2^64), is there as long as no layout was set and every
  -- scene was built before the banner's end, and gone for good after a layout was set or a scene
  -- built at the banner's end or later; behind them stand the banners that came since.
  pub activate_banner-run :
      (s : OverlayScene R) (cs : List (SceneCall R)) (id : String) (params : Assoc Bytes Bytes)
      (seconds now : ℕ) (t : OverlayTemplate R)
      → s.has_layout ≡ true
      → find_template id s.layout.templates ≡ some t
      → let (after, shown) = activate_banner id params seconds now s in
        let mine = s.banners ++ banner_of params seconds now t ∷ [] in
        (shown ≡ true)
        × ((run cs after).banners ≡ surviving cs mine ++ (run cs (with_banners s [])).banners)
  activate_banner-run s cs id params seconds now t h e =
      let eq = activated s id params seconds now t h e in
      let mine = s.banners ++ banner_of params seconds now t ∷ [] in
      (
        ap (λ r. r.1) eq,
        ap (λ r. (run cs r.0).banners) eq
            ∙ ap (λ bs. (run cs (with_banners s bs)).banners) (sym (append-nil mine))
            ∙ run-with_banners cs s mine [],
      )
