-- ===== src/Pipeline/Capture/Planes.antt =====
-- Where the planes of a captured frame lie.
use strixcam.Prelude.{
  ℕ, ◌+◌, ◌≤◌, ◌<◌, true, ◌&&◌, ◌||◌, some, List, [], ◌∷◌, leb, ltb, if◌then◌else◌, get_elem?, zero,
  suc, ◌≡◌, ◌∙◌, refl, arith, Option-cases, inl, inr,
}
use strixcam.Pipeline.Capture.{FramePlane, end_of, plane_of, planes_of}

end_of-le : (offset current : ℕ) (ps : List (ℕ × ℕ)) → end_of offset current ps ≤ current
unfolding end_of
end_of-le offset current [] = omega arith
end_of-le offset current ((stride, other) ∷ rest) =
    let next = if ltb offset other && ltb other current then other else current in
    ground (arith, end_of-le offset next rest)

-- The end lies before every offset behind the plane's own.
end_of-behind :
    (offset current : ℕ) (ps : List (ℕ × ℕ)) (i : ℕ) (q : ℕ × ℕ)
    → get_elem? ps i ≡ some q
    → offset < q.1
    → end_of offset current ps ≤ q.1
unfolding end_of
end_of-behind offset current [] i q h l = absurd (ground arith)
end_of-behind offset current ((stride, other) ∷ rest) zero q h l =
    let next = if ltb offset other && ltb other current then other else current in
    ground (arith, end_of-le offset next rest)
end_of-behind offset current ((stride, other) ∷ rest) (suc i) q h l =
    end_of-behind offset (if ltb offset other && ltb other current then other else current) rest i q
      h l

-- A plane begins at its offset, is not empty, and ends within the mapping.
plane_of-bounds :
    (mapped : ℕ) (all_planes : List (ℕ × ℕ)) (s : ℕ × ℕ) (p : FramePlane)
    → plane_of mapped all_planes s ≡ some p
    → (p.offset ≡ s.1)
      × (0 < p.size)
      × (p.offset + p.size ≤ mapped)
      × (p.offset + p.size ≡ end_of s.1 mapped all_planes)
unfolding plane_of
plane_of-bounds mapped all_planes (stride, offset) p h =
    let inside = end_of-le offset mapped all_planes in
    (ground (arith, h), ground (arith, h), ground (arith, h, inside), ground (arith, h, inside))

planes_of-cons :
    (mapped : ℕ) (all_planes : List (ℕ × ℕ)) (s : ℕ × ℕ) (ps : List (ℕ × ℕ)) (q : FramePlane)
    (out : List FramePlane)
    → planes_of mapped all_planes (s ∷ ps) ≡ some (q ∷ out)
    → (plane_of mapped all_planes s ≡ some q) × (planes_of mapped all_planes ps ≡ some out)
unfolding planes_of
planes_of-cons mapped all_planes s ps q out h = elim (Option-cases (plane_of mapped all_planes s)) [
  | inl e ↦ absurd (ground (arith, h, e))
  | inr (p, e) ↦ elim (Option-cases (planes_of mapped all_planes ps)) [
    | inl f ↦ absurd (ground (arith, h, e, f))
    | inr (rest, f) ↦ (ground (arith, h, e, f), ground (arith, h, e, f))
  ]
]

-- The planes are those of the listed strides and offsets, place by place.
planes_of-nth :
    (mapped : ℕ) (all_planes ps : List (ℕ × ℕ)) (out : List FramePlane) (i : ℕ) (p : FramePlane)
    → planes_of mapped all_planes ps ≡ some out
    → get_elem? out i ≡ some p
    → (s : ℕ × ℕ) × (get_elem? ps i ≡ some s) × (plane_of mapped all_planes s ≡ some p)
unfolding planes_of
planes_of-nth mapped all_planes [] out i p h g = absurd (cc)
planes_of-nth mapped all_planes (s ∷ ps) [] i p h g = absurd (ground arith)
planes_of-nth mapped all_planes (s ∷ ps) (q ∷ out) zero p h g =
    let (one, more) = planes_of-cons mapped all_planes s ps q out h in (s, refl, one ∙ g)
planes_of-nth mapped all_planes (s ∷ ps) (q ∷ out) (suc i) p h g =
    let (one, more) = planes_of-cons mapped all_planes s ps q out h in
    planes_of-nth mapped all_planes ps out i p more g

-- Any two planes of a sample's frame: each begins before its end, ends within the mapping, and the
-- first does not reach into the second unless it begins with or behind it.
pub planes_of-apart :
    (mapped : ℕ) (ps : List (ℕ × ℕ)) (out : List FramePlane) (i j : ℕ) (p q : FramePlane)
    → planes_of mapped ps ps ≡ some out
    → get_elem? out i ≡ some p
    → get_elem? out j ≡ some q
    → (0 < p.size)
      × (p.offset + p.size ≤ mapped)
      × ((leb q.offset p.offset || leb (p.offset + p.size) q.offset) ≡ true)
planes_of-apart mapped ps out i j p q h gp gq =
    let (s, at_s, plane_p) = planes_of-nth mapped ps ps out i p h gp in
    let (t, at_t, plane_q) = planes_of-nth mapped ps ps out j q h gq in
    let (begins, filled, within, ends) = plane_of-bounds mapped ps s p plane_p in
    let (begins_q, _, _, _) = plane_of-bounds mapped ps t q plane_q in
    let behind = end_of-behind s.1 mapped ps j t at_t in
    (filled, within, ground (arith, behind, begins, begins_q, ends))
