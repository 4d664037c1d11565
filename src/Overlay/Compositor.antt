-- ===== src/Overlay/Compositor.antt =====
-- src/domain/overlay/services/frame-compositor.cpp: an overlay blended onto a video frame. The bytes
-- of an image are a list; what the code computes in floating point (the drawn size, and the overlay's
-- column and row for a drawn one) is a parameter.
pub mod Bounds
use strixcam.Prelude.{
  ℕ, zero, suc, ◌+◌, ◌-◌, ◌*◌, ◌/◌, ◌%◌, ◌^◌, Bool, true, false, not, ◌&&◌, ◌||◌, Option, none,
  some, List, [], ◌∷◌, get_or, set, length, ltb, nat_eq, min, max, if◌then◌else◌,
}
use strixcam.Prelude.Bytes.{Bytes}
use strixcam.Session.Paths.{is_empty}

-- RgbaImage of src/domain/overlay/models.
pub record RgbaImage : Type 0 where
  pub width : ℕ
  pub height : ℕ
  pub stride : ℕ
  pub pixels : Bytes

-- A frame with one plane; `bgr8` is whether it has this format, and a null plane is `none`.
pub record VideoFrame : Type 0 where
  pub bgr8 : Bool
  pub width : ℕ
  pub height : ℕ
  pub stride : ℕ
  pub data_ : Option Bytes

-- The floating-point part: the drawn size before it is raised to 1, and the overlay's column or row
-- for a drawn one.
pub record Scaling : Type 0 where
  pub draw_w : ℕ
  pub draw_h : ℕ
  pub sample : ℕ → ℕ

abbrev pub bgr_bytes_per_pixel : ℕ
bgr_bytes_per_pixel = 3

abbrev pub rgba_bytes_per_pixel : ℕ
rgba_bytes_per_pixel = 4

abbrev pub max_alpha : ℕ
max_alpha = 255

-- The checks on the overlay.
unfoldable pub overlay_is_sound : RgbaImage → Bool
overlay_is_sound o =
    not (nat_eq o.width 0)
    && not (nat_eq o.height 0)
    && not (is_empty o.pixels)
    && not (ltb o.stride (o.width * rgba_bytes_per_pixel))
    && not (ltb (length o.pixels) (o.stride * o.height))

-- Where the overlay's pixel begins that a drawn pixel shows, and where the drawn pixel begins.
abbrev pub overlay_offset : Scaling → RgbaImage → ℕ → ℕ → ℕ
overlay_offset s o dx dy =
    min (o.height - 1) (s.sample dy) * o.stride
    + min (o.width - 1) (s.sample dx) * rgba_bytes_per_pixel

abbrev pub frame_offset : ℕ → ℕ → ℕ → ℕ
frame_offset stride x y = y * stride + x * bgr_bytes_per_pixel

abbrev blend : ℕ → ℕ → ℕ → ℕ
blend under over alpha = (under * (max_alpha - alpha) + over * alpha) / max_alpha % 256

-- Blue, green and red; a transparent pixel leaves the video's.
unfoldable pub blend_pixel : RgbaImage → ℕ → ℕ → Bytes → Bytes
blend_pixel o ov_off dst_off dst =
    let red = get_or o.pixels ov_off 0 in
    let green = get_or o.pixels (ov_off + 1) 0 in
    let blue = get_or o.pixels (ov_off + 2) 0 in
    let alpha = get_or o.pixels (ov_off + 3) 0 in
    let one = set dst dst_off (blend (get_or dst dst_off 0) blue alpha) in
    let two = set one (dst_off + 1) (blend (get_or one (dst_off + 1) 0) green alpha) in
    let three = set two (dst_off + 2) (blend (get_or two (dst_off + 2) 0) red alpha) in
    if nat_eq alpha 0 then dst else three

-- The drawn size, and where it begins: centred.
abbrev pub drawn : ℕ → ℕ
drawn size = max 1 size

abbrev pub centred : ℕ → ℕ → ℕ
centred frame_size draw = (frame_size - min frame_size draw) / 2

module _ (s : Scaling) (o : RgbaImage) (f : VideoFrame) where
  abbrev off_x : ℕ
  off_x = centred f.width (drawn s.draw_w)

  abbrev off_y : ℕ
  off_y = centred f.height (drawn s.draw_h)

  -- The loop over the columns of a row, with so many left.
  unfoldable pub blend_row : ℕ → ℕ → ℕ → Bytes → Bytes
  unfolding blend_pixel
  blend_row zero dx dy dst = dst
  blend_row (suc left) dx dy dst =
      let next =
        blend_pixel o (overlay_offset s o dx dy) (frame_offset f.stride (off_x + dx) (off_y + dy))
          dst in
      let further = blend_row left (suc dx) dy next in
      if ltb (off_x + dx) f.width then further else dst

  -- The loop over the rows.
  unfoldable pub blend_rows : ℕ → ℕ → Bytes → Bytes
  unfolding blend_row
  blend_rows zero dy dst = dst
  blend_rows (suc left) dy dst =
      let further = blend_rows left (suc dy) (blend_row (drawn s.draw_w) 0 dy dst) in
      if ltb (off_y + dy) f.height then further else dst

abbrev blended : Scaling → RgbaImage → VideoFrame → Option Bytes → Option VideoFrame
blended s o f none = none
blended s o f (some src) =
    if nat_eq f.width 0 || nat_eq f.height 0
    then none
    else if not (overlay_is_sound o)
    then none
    else some (record f { data_ = some (blend_rows s o f (drawn s.draw_h) 0 src) })

-- The plane has `stride * height` bytes, which the code copies.
unfoldable pub composite_overlay : Scaling → VideoFrame → RgbaImage → Option VideoFrame
unfolding overlay_is_sound blend_rows
composite_overlay s f o = if not f.bgr8 then none else blended s o f f.data_
