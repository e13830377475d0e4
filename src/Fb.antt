-- ===== src/Fb.antt =====
-- The framebuffer console of kernel/src/fb.rs. A pixel is four bytes of memory.
pub mod Draw
pub mod Frame
mod Tests
use mantra_os.Common.{
  ℕ, zero, suc, ◌+◌, ◌-◌, ◌*◌, ◌/◌, ◌%◌, ◌^◌, Bool, ◌&&◌, ◌||◌, not, ltb, leb, ◌==◌, if◌then◌else◌,
  List, [], ◌∷◌, Option, none, some,
}
use mantra_os.Common.Bits.{bit_and, bit_or}
use mantra_os.Common.Word.{u64_mod}
use mantra_os.Common.Run.{Run, done, panic, ◌>>=◌, checked_add, checked_mul}
use mantra_os.Memory.{Mem}

pub record Rgb : Type 0 where
  pub r : ℕ
  pub g : ℕ
  pub b : ℕ

pub data PixelFormat : Type 0 where
  unknown rgb bgr : PixelFormat

pub record FrameBuffer : Type 0 where
  pub base : ℕ
  pub size : ℕ
  pub width : ℕ
  pub height : ℕ
  pub stride : ℕ
  pub format : PixelFormat

-- The value of a pixel.
abbrev pub pixel : PixelFormat → Rgb → ℕ
pixel unknown c = bit_or c.r (bit_or (c.g * 2 ^ 8) (c.b * 2 ^ 16))
pixel rgb c = bit_or c.r (bit_or (c.g * 2 ^ 8) (c.b * 2 ^ 16))
pixel bgr c = bit_or c.b (bit_or (c.g * 2 ^ 8) (c.r * 2 ^ 16))

-- The write of a u32 at `p`, little-endian.
abbrev pub write_u32 : Mem → ℕ → ℕ → Mem
write_u32 m p v q = if leb p q && ltb q (p + 4) then v / 2 ^ (8 * (q - p)) % 256 else m q

-- The last sum, `byte_off + 4`, is the first of the operations to overflow if any does.
pub put_pixel : FrameBuffer → ℕ → ℕ → Rgb → Mem → Run Mem
put_pixel fb x y c m =
    let byte_off = (y * fb.stride + x) * 4 in
    if leb fb.width x || leb fb.height y
    then done m
    else if leb u64_mod (byte_off + 4)
    then panic
    else if ltb fb.size (byte_off + 4)
    then done m
    else done (write_u32 m (fb.base + byte_off) (pixel fb.format c))

-- The loops of `FrameBuffer::clear`, with `n` pixels and `k` lines left.
pub clear_line : ℕ → ℕ → ℕ → FrameBuffer → Rgb → Mem → Run Mem
unfolding put_pixel
clear_line zero x y fb c m = done m
clear_line (suc n) x y fb c m = put_pixel fb x y c m >>= clear_line n (x + 1) y fb c

pub clear_lines : ℕ → ℕ → FrameBuffer → Rgb → Mem → Run Mem
unfolding clear_line
clear_lines zero y fb c m = done m
clear_lines (suc k) y fb c m = clear_line fb.width 0 y fb c m >>= clear_lines k (y + 1) fb c

pub clear_frame : FrameBuffer → Rgb → Mem → Run Mem
unfolding clear_lines
clear_frame fb c m = clear_lines fb.height 0 fb c m

pub record Console : Type 0 where
  pub fb : FrameBuffer
  pub fg : Rgb
  pub bg : Rgb
  pub cx : ℕ
  pub cy : ℕ
  pub cols : ℕ
  pub rows : ℕ

abbrev pub cell_w : ℕ
cell_w = 8

abbrev pub cell_h : ℕ
cell_h = 16

pub new : FrameBuffer → Console
new fb = record {
  fb = fb;
  fg = record { r = 0xff; g = 0xff; b = 0xff };
  bg = record { r = 0; g = 0; b = 0 };
  cx = 0;
  cy = 0;
  cols = fb.width / cell_w;
  rows = fb.height / cell_h;
}

pub set_colors : Rgb → Rgb → Console → Console
set_colors fg bg con = record con { fg = fg; bg = bg }

-- `Console::clear`
pub clear : Rgb → Console → Mem → Run (Console × Mem)
unfolding clear_frame
clear bg con m = clear_frame con.fb bg m >>= λ m'. done (record con { bg = bg; cx = 0; cy = 0 }, m')

pub newline : Console → Run Console
newline con = checked_add con.cy 1 >>= λ cy.
    done (record con { cx = 0; cy = if leb con.rows cy then con.rows - 1 else cy })

-- The glyphs of the font, by character.
abbrev pub font : List (ℕ × List ℕ)
font =
    (b' ', 0 ∷ 0 ∷ 0 ∷ 0 ∷ 0 ∷ 0 ∷ 0 ∷ 0 ∷ [])
    ∷ (b'!', 0x18 ∷ 0x18 ∷ 0x18 ∷ 0x18 ∷ 0x18 ∷ 0x00 ∷ 0x18 ∷ 0x00 ∷ [])
    ∷ (b'.', 0x00 ∷ 0x00 ∷ 0x00 ∷ 0x00 ∷ 0x00 ∷ 0x18 ∷ 0x18 ∷ 0x00 ∷ [])
    ∷ (b':', 0x00 ∷ 0x18 ∷ 0x18 ∷ 0x00 ∷ 0x00 ∷ 0x18 ∷ 0x18 ∷ 0x00 ∷ [])
    ∷ (b'/', 0x06 ∷ 0x0c ∷ 0x18 ∷ 0x30 ∷ 0x60 ∷ 0xc0 ∷ 0x80 ∷ 0x00 ∷ [])
    ∷ (b'0', 0x3c ∷ 0x66 ∷ 0x6e ∷ 0x76 ∷ 0x66 ∷ 0x66 ∷ 0x3c ∷ 0x00 ∷ [])
    ∷ (b'1', 0x18 ∷ 0x38 ∷ 0x18 ∷ 0x18 ∷ 0x18 ∷ 0x18 ∷ 0x3c ∷ 0x00 ∷ [])
    ∷ (b'2', 0x3c ∷ 0x66 ∷ 0x06 ∷ 0x1c ∷ 0x30 ∷ 0x66 ∷ 0x7e ∷ 0x00 ∷ [])
    ∷ (b'3', 0x3c ∷ 0x66 ∷ 0x06 ∷ 0x1c ∷ 0x06 ∷ 0x66 ∷ 0x3c ∷ 0x00 ∷ [])
    ∷ (b'4', 0x0c ∷ 0x1c ∷ 0x3c ∷ 0x6c ∷ 0x7e ∷ 0x0c ∷ 0x0c ∷ 0x00 ∷ [])
    ∷ (b'5', 0x7e ∷ 0x60 ∷ 0x7c ∷ 0x06 ∷ 0x06 ∷ 0x66 ∷ 0x3c ∷ 0x00 ∷ [])
    ∷ (b'6', 0x1c ∷ 0x30 ∷ 0x60 ∷ 0x7c ∷ 0x66 ∷ 0x66 ∷ 0x3c ∷ 0x00 ∷ [])
    ∷ (b'7', 0x7e ∷ 0x66 ∷ 0x06 ∷ 0x0c ∷ 0x18 ∷ 0x18 ∷ 0x18 ∷ 0x00 ∷ [])
    ∷ (b'8', 0x3c ∷ 0x66 ∷ 0x66 ∷ 0x3c ∷ 0x66 ∷ 0x66 ∷ 0x3c ∷ 0x00 ∷ [])
    ∷ (b'9', 0x3c ∷ 0x66 ∷ 0x66 ∷ 0x3e ∷ 0x06 ∷ 0x0c ∷ 0x38 ∷ 0x00 ∷ [])
    ∷ (b'A', 0x18 ∷ 0x3c ∷ 0x66 ∷ 0x66 ∷ 0x7e ∷ 0x66 ∷ 0x66 ∷ 0x00 ∷ [])
    ∷ (b'B', 0x7c ∷ 0x66 ∷ 0x66 ∷ 0x7c ∷ 0x66 ∷ 0x66 ∷ 0x7c ∷ 0x00 ∷ [])
    ∷ (b'C', 0x3c ∷ 0x66 ∷ 0x60 ∷ 0x60 ∷ 0x60 ∷ 0x66 ∷ 0x3c ∷ 0x00 ∷ [])
    ∷ (b'D', 0x78 ∷ 0x6c ∷ 0x66 ∷ 0x66 ∷ 0x66 ∷ 0x6c ∷ 0x78 ∷ 0x00 ∷ [])
    ∷ (b'E', 0x7e ∷ 0x60 ∷ 0x60 ∷ 0x7c ∷ 0x60 ∷ 0x60 ∷ 0x7e ∷ 0x00 ∷ [])
    ∷ (b'F', 0x7e ∷ 0x60 ∷ 0x60 ∷ 0x7c ∷ 0x60 ∷ 0x60 ∷ 0x60 ∷ 0x00 ∷ [])
    ∷ (b'G', 0x3c ∷ 0x66 ∷ 0x60 ∷ 0x6e ∷ 0x66 ∷ 0x66 ∷ 0x3c ∷ 0x00 ∷ [])
    ∷ (b'I', 0x3c ∷ 0x18 ∷ 0x18 ∷ 0x18 ∷ 0x18 ∷ 0x18 ∷ 0x3c ∷ 0x00 ∷ [])
    ∷ (b'K', 0x66 ∷ 0x6c ∷ 0x78 ∷ 0x70 ∷ 0x78 ∷ 0x6c ∷ 0x66 ∷ 0x00 ∷ [])
    ∷ (b'L', 0x60 ∷ 0x60 ∷ 0x60 ∷ 0x60 ∷ 0x60 ∷ 0x60 ∷ 0x7e ∷ 0x00 ∷ [])
    ∷ (b'M', 0x63 ∷ 0x77 ∷ 0x7f ∷ 0x6b ∷ 0x63 ∷ 0x63 ∷ 0x63 ∷ 0x00 ∷ [])
    ∷ (b'N', 0x66 ∷ 0x76 ∷ 0x7e ∷ 0x7e ∷ 0x6e ∷ 0x66 ∷ 0x66 ∷ 0x00 ∷ [])
    ∷ (b'O', 0x3c ∷ 0x66 ∷ 0x66 ∷ 0x66 ∷ 0x66 ∷ 0x66 ∷ 0x3c ∷ 0x00 ∷ [])
    ∷ (b'R', 0x7c ∷ 0x66 ∷ 0x66 ∷ 0x7c ∷ 0x78 ∷ 0x6c ∷ 0x66 ∷ 0x00 ∷ [])
    ∷ (b'S', 0x3c ∷ 0x66 ∷ 0x30 ∷ 0x18 ∷ 0x0c ∷ 0x66 ∷ 0x3c ∷ 0x00 ∷ [])
    ∷ (b'T', 0x7e ∷ 0x18 ∷ 0x18 ∷ 0x18 ∷ 0x18 ∷ 0x18 ∷ 0x18 ∷ 0x00 ∷ [])
    ∷ (b'V', 0x66 ∷ 0x66 ∷ 0x66 ∷ 0x66 ∷ 0x66 ∷ 0x3c ∷ 0x18 ∷ 0x00 ∷ [])
    ∷ (b'X', 0x66 ∷ 0x66 ∷ 0x3c ∷ 0x18 ∷ 0x3c ∷ 0x66 ∷ 0x66 ∷ 0x00 ∷ [])
    ∷ (b'Y', 0x66 ∷ 0x66 ∷ 0x3c ∷ 0x18 ∷ 0x18 ∷ 0x18 ∷ 0x18 ∷ 0x00 ∷ [])
    ∷ (b'_', 0x00 ∷ 0x00 ∷ 0x00 ∷ 0x00 ∷ 0x00 ∷ 0x00 ∷ 0x7e ∷ 0x00 ∷ [])
    ∷ []

abbrev pub unknown_glyph : List ℕ
unknown_glyph = 0x7e ∷ 0x42 ∷ 0x5a ∷ 0x5a ∷ 0x5a ∷ 0x42 ∷ 0x7e ∷ 0x00 ∷ []

pub find_glyph : ℕ → List (ℕ × List ℕ) → List ℕ
find_glyph c [] = unknown_glyph
find_glyph c ((d, bits) ∷ glyphs) = if c == d then bits else find_glyph c glyphs

-- A small letter has the glyph of its capital.
pub glyph : ℕ → List ℕ
unfolding find_glyph
glyph c = find_glyph (if leb b'a' c && leb c b'z' then c - 32 else c) font

-- The inner loop of `put_char`, with `n` columns left from `col` on.
pub draw_line : ℕ → ℕ → ℕ → ℕ → ℕ → Console → Mem → Run Mem
unfolding put_pixel
draw_line zero col bits px0 y con m = done m
draw_line (suc n) col bits px0 y con m =
    let color = if not (bit_and bits (0x80 / 2 ^ col) == 0) then con.fg else con.bg in
    checked_add px0 col >>= λ x. put_pixel con.fb x y color m >>= λ m1. checked_add y 1 >>= λ below.
    put_pixel con.fb x below color m1 >>= draw_line n (col + 1) bits px0 y con

-- The outer loop, over the glyph's lines from number `row` on. Each line has eight columns, which
-- have the same `y`.
pub draw_glyph : List ℕ → ℕ → ℕ → ℕ → Console → Mem → Run Mem
unfolding draw_line
draw_glyph [] row px0 py0 con m = done m
draw_glyph (bits ∷ glyph) row px0 py0 con m = checked_add py0 (row * 2) >>= λ y.
    draw_line 8 0 bits px0 y con m >>= draw_glyph glyph (row + 1) px0 py0 con

-- The part of `put_char` that draws at the cursor.
pub draw_char : ℕ → Mem → Console → Run (Console × Mem)
unfolding draw_glyph
draw_char ch m at = checked_mul at.cx cell_w >>= λ px0. checked_mul at.cy cell_h >>= λ py0.
    draw_glyph (glyph ch) 0 px0 py0 at m >>= λ m'.
    checked_add at.cx 1 >>= λ cx. done (record at { cx = cx }, m')

pub put_char : ℕ → Console → Mem → Run (Console × Mem)
unfolding newline draw_char
put_char ch con m =
    if ch == 10
    then (newline con >>= λ con'. done (con', m))
    else if ch == 13
    then done (record con { cx = 0 }, m)
    else ((if leb con.cols con.cx then newline con else done con) >>= draw_char ch m)

pub write_str : List ℕ → Console → Mem → Run (Console × Mem)
unfolding put_char
write_str [] con m = done (con, m)
write_str (b ∷ bytes) con m = put_char b con m >>= λ (con', m'). write_str bytes con' m'
