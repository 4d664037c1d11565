-- ===== src/Overlay/Compositor/Bounds.antt =====
-- Where the blending reads and writes.
use native.Mathlib.Nat.{mul-le-mul_right}
use strixcam.Prelude.{ℕ, suc, ◌+◌, ◌-◌, ◌*◌, ◌≤◌, ◌<◌, true, length, min, ◌≡◌, arith}
use strixcam.Overlay.Compositor.{
  RgbaImage, VideoFrame, Scaling, overlay_is_sound, overlay_offset, frame_offset,
}

row_le : (y h stride : ℕ) → y < h → y * stride + stride ≤ h * stride
row_le y h stride l =
    let up : suc y ≤ h = omega arith in
    let scaled : suc y * stride ≤ h * stride = mul-le-mul_right stride up in omega (arith, scaled)

-- With an overlay that passes the checks every drawn pixel reads four bytes of the overlay's
-- buffer, and, where a row of the frame has room for its pixels, a pixel of the frame has its three
-- bytes in the frame's buffer.
pub offsets-within :
    (s : Scaling) (o : RgbaImage) (f : VideoFrame) (dx dy x y : ℕ)
    → overlay_is_sound o ≡ true
    → 3 * f.width ≤ f.stride
    → x < f.width
    → y < f.height
    → (overlay_offset s o dx dy + 3 < length o.pixels)
      × (frame_offset f.stride x y + 2 < f.stride * f.height)
unfolding overlay_is_sound
offsets-within s o f dx dy x y sound wide lx ly =
    let oy = min (o.height - 1) (s.sample dy) in
    let over = row_le oy o.height o.stride (ground (arith, sound)) in
    let under = row_le y f.height f.stride ly in (ground (arith, sound, over), omega (arith, under))
