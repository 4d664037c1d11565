-- ===== src/Pipeline/Presenting.antt =====
-- ConsumerLoop with StaticDecision: the frame that a turn presents.
use strixcam.Prelude.{
  ◌||◌, Option, none, some, List, [], ◌∷◌, nat_eq, if◌then◌else◌, ◌≡◌, refl, arith,
}
use strixcam.Pipeline.{FrameBundle, static_decide, ConsumerPorts, Consumer, composited, consume}

module _ {F O K : Type 0} (ports : ConsumerPorts F O K) where
  -- The frame that a turn presents: camera 0's, in full, where it has a size and is processed.
  abbrev pub presented : List (Option (FrameBundle F)) → Option F
  presented [] = none
  presented (none ∷ others) = none
  presented (some bundle ∷ others) =
      if nat_eq bundle.width 0 || nat_eq bundle.height 0
      then none
      else ports.process bundle.source_frame
          (record { x = 0; y = 0; width = bundle.width; height = bundle.height })

  abbrev pub shows : Option O → Option F → Consumer F K → Consumer F K
  shows overlay none c = c
  shows overlay (some frame) c =
      let final = composited ports overlay frame in
      record { latest_frame = some final; sink = ports.push final c.sink }

  -- With the static decision a turn presents camera 0's full frame, whatever the other cameras
  -- have: the sink gets, and the snapshot keeps, one and the same composited frame. Where camera 0
  -- has no bundle, no size, or no processed frame, the turn changes nothing.
  pub consume_static :
      (overlay : Option O) (latest : List (Option (FrameBundle F))) (c : Consumer F K)
      → consume (record ports { decide = static_decide }) overlay latest c
        ≡ shows overlay (presented latest) c
  unfolding consume static_decide
  consume_static overlay [] c = refl
  consume_static overlay (none ∷ others) c = refl
  consume_static overlay (some bundle ∷ others) c = ground arith
