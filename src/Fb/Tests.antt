-- ===== src/Fb/Tests.antt =====
-- A framebuffer of two columns and one row of characters.
use mantra_os.Common.{ℕ, ◌≡◌, refl, List, [], ◌∷◌, arith}
use mantra_os.Memory.{Mem}
use mantra_os.Fb.{PixelFormat, FrameBuffer, new, write_str, glyph, unknown_glyph}
use mantra_os.Fb.Frame.{Writes, write_str-Writes, new-InGrid}

abbrev small : FrameBuffer
small = record {
  base = 0x8000_0000;
  size = 1024;
  width = 16;
  height = 16;
  stride = 16;
  format = PixelFormat.bgr;
}

abbrev dark : Mem
dark a = 0

-- More text than the grid holds, with both ends of a line.
abbrev text : List ℕ
text = b'O' ∷ b'k' ∷ b'!' ∷ 10 ∷ b'x' ∷ 13 ∷ b'y' ∷ []

write_str-Writes_example : Writes (new small) dark (write_str text (new small) dark)
unfolding new
write_str-Writes_example =
    write_str-Writes text (new small) dark (omega arith, omega arith) (new-InGrid small)

-- A small letter looks like its capital; a letter that the font does not have, like the rest.
glyph_of_k : glyph b'k' ≡ glyph b'K'
unfolding glyph
glyph_of_k = refl

glyph_of_h : glyph b'h' ≡ unknown_glyph
unfolding glyph
glyph_of_h = refl
