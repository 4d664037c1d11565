-- ===== src/Overlay/Controller/Shown.antt =====
-- What the sink shows after any calls of a controller.
use strixcam.Prelude.{
  ℕ, Bool, true, false, ◌&&◌, String, List, [], ◌∷◌, ◌≡◌, refl, sym, subst, arith, Bool-cases, inl,
  inr, ◌==◌,
}
use strixcam.Prelude.Assoc.{Assoc}
use strixcam.Prelude.Bytes.{Bytes, bytes_keys, bytes_eq_iff}
use strixcam.Overlay.{OverlayLayout, RenderScene}
use strixcam.Overlay.Binding.{BindingData}
use strixcam.Overlay.Scene.{build}
use strixcam.Overlay.Controller.{
  OverlayController, DrawingPorts, OutputSize, signature, set_layout, set_binding_data,
  activate_banner, refresh, pushing,
}

pub data ControllerCall (R : Type 0) : Type 0 where
  sets_layout : OverlayLayout R → ControllerCall R
  sets_binding_data : BindingData → ControllerCall R
  activates_banner : String → Assoc Bytes Bytes → ℕ → ℕ → ControllerCall R
  refreshes : ℕ → ControllerCall R

pub both : (a b : Bool) → (a && b) ≡ true → (a ≡ true) × (b ≡ true)
both true true h = (refl, refl)
both true false h = absurd (ground arith)
both false b h = absurd (ground arith)

module _ {R I K : Type 0} (ports : DrawingPorts R I K) (out_size : OutputSize) where
  -- The test of `Refresh`: something was pushed, and its signature is the scene's.
  abbrev pub is_unchanged : ℕ → OverlayController R K → Bool
  is_unchanged now k = k.pushed_once && signature ports (build now k.scene).1 == k.last_signature

  pub refresh_unchanged :
      (now : ℕ) (k : OverlayController R K)
      → is_unchanged now k ≡ true
      → refresh ports out_size now k ≡ (record k { scene = (build now k.scene).0 }, false)
  unfolding refresh
  refresh_unchanged now k h = ground (arith, h)

  pub refresh_changed :
      (now : ℕ) (k : OverlayController R K)
      → is_unchanged now k ≡ false
      → refresh ports out_size now k ≡ (
        pushing ports out_size (build now k.scene).1 (record k { scene = (build now k.scene).0 }),
        true,
      )
  unfolding refresh
  refresh_changed now k h = ground (arith, h)

  abbrev pub step : ControllerCall R → OverlayController R K → OverlayController R K
  step (sets_layout layout) k = set_layout ports layout k
  step (sets_binding_data data_) k = set_binding_data ports data_ k
  step (activates_banner id params seconds now) k =
      (activate_banner ports id params seconds now k).0
  step (refreshes now) k = (refresh ports out_size now k).0

  abbrev pub run : List (ControllerCall R) → OverlayController R K → OverlayController R K
  run [] k = k
  run (c ∷ cs) k = run cs (step c k)

  -- What a refresh leaves, whether it pushes or not.
  abbrev pub IsRefreshed : ℕ → OverlayController R K → OverlayController R K → Type 0
  IsRefreshed now k next =
      (next.pushed_once ≡ true)
      × (next.last_signature ≡ signature ports (build now k.scene).1)
      × (next.scene ≡ (build now k.scene).0)

  pub refresh-IsRefreshed :
      (now : ℕ) (k : OverlayController R K) → IsRefreshed now k (refresh ports out_size now k).0
  refresh-IsRefreshed now k = elim (Bool-cases (is_unchanged now k)) [
    | inl same ↦
        let (once, equal) =
          both k.pushed_once (signature ports (build now k.scene).1 == k.last_signature) same in
        subst (λ r. IsRefreshed now k r.0) (sym (refresh_unchanged now k same))
          (
            once,
            sym ((bytes_eq_iff (signature ports (build now k.scene).1) k.last_signature).0 equal),
            refl,
          )
    | inr other ↦
        subst (λ r. IsRefreshed now k r.0) (sym (refresh_changed now k other)) (refl, refl, refl)
  ]

  module _ (latest : K → I) where
    -- The sink's latest frame is that of a scene with the signature.
    abbrev pub Shows : Bytes → K → Type 0
    Shows sig sink =
        (drawn : RenderScene R) × (signature ports drawn ≡ sig)
        × (latest sink ≡ ports.render drawn out_size.width out_size.height)

    abbrev IsFaithful : OverlayController R K → Type 0
    IsFaithful k = k.pushed_once ≡ true → Shows k.last_signature k.sink

    module _ (latest-push_frame : (i : I) (k : K) → latest (ports.push_frame i k) ≡ i) where
      -- The refreshed controller has pushed, and shows its last signature, which is the scene's.
      abbrev IsCurrent : ℕ → OverlayController R K → OverlayController R K → Type 0
      IsCurrent now k next =
          (next.last_signature ≡ signature ports (build now k.scene).1)
          × Shows next.last_signature next.sink

      refresh-IsCurrent :
          (now : ℕ) (k : OverlayController R K)
          → IsFaithful k
          → IsCurrent now k (refresh ports out_size now k).0
      refresh-IsCurrent now k h = elim (Bool-cases (is_unchanged now k)) [
        | inl same ↦
            let eq = sym (refresh_unchanged now k same) in
            let drawn = (build now k.scene).1 in
            let (once, equal) =
              both k.pushed_once (signature ports drawn == k.last_signature) same in
            subst (λ r. IsCurrent now k r.0) eq
              (sym ((bytes_eq_iff (signature ports drawn) k.last_signature).0 equal), h once)
        | inr other ↦
            let drawn = (build now k.scene).1 in
            subst (λ r. IsCurrent now k r.0) (sym (refresh_changed now k other))
              (
                refl,
                (
                  drawn,
                  refl,
                  latest-push_frame (ports.render drawn out_size.width out_size.height) k.sink,
                ),
              )
      ]

      step-IsFaithful :
          (c : ControllerCall R) (k : OverlayController R K) → IsFaithful k → IsFaithful (step c k)
      unfolding set_layout set_binding_data activate_banner
      step-IsFaithful (sets_layout layout) k h = h
      step-IsFaithful (sets_binding_data data_) k h = h
      step-IsFaithful (activates_banner id params seconds now) k h = h
      step-IsFaithful (refreshes now) k h = λ once. (refresh-IsCurrent now k h).1

      run-IsFaithful :
          (cs : List (ControllerCall R)) (k : OverlayController R K)
          → IsFaithful k
          → IsFaithful (run cs k)
      run-IsFaithful [] k h = h
      run-IsFaithful (c ∷ cs) k h = run-IsFaithful cs (step c k) (step-IsFaithful c k h)

      -- From a controller that has pushed nothing, after any calls and a refresh the latest frame
      -- of the sink is the drawing of a scene that has the signature of the scene of this moment.
      pub refresh-Shows :
          (k : OverlayController R K) (cs : List (ControllerCall R)) (now : ℕ)
          → k.pushed_once ≡ false
          → let last = run cs k in
            Shows
              (signature ports (build now last.scene).1)
              (refresh ports out_size now last).0.sink
      refresh-Shows k cs now h =
          let last = run cs k in
          let faithful : IsFaithful k = λ once. absurd (ground (arith, h, once)) in
          let (now_signed, shows) = refresh-IsCurrent now last (run-IsFaithful cs k faithful) in
          subst (λ sig. Shows sig (refresh ports out_size now last).0.sink) now_signed shows
