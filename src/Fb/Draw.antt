-- ===== src/Fb/Draw.antt =====
-- The drawing of a glyph in kernel/src/fb.rs.
use mantra_os.Common.{
  ℕ, zero, suc, ◌+◌, ◌-◌, ◌*◌, ◌≤◌, ◌<◌, ◌≡◌, inl, inr, refl, ◌∙◌, false, ◌||◌, leb, ltb, ◌==◌,
  ◌&&◌, if◌then◌else◌, length, true, Bool, Bool-cases, List, [], ◌∷◌, arith,
}
use native.Mathlib.Nat.{mul-le-mul_right, le_of_lt}
use mantra_os.Common.Word.{u64_mod}
use mantra_os.Common.Run.{Run, done, ◌>>=◌}
use mantra_os.Pmm.Cover.{Outside}
use mantra_os.Memory.{Mem}
use mantra_os.Fb.{
  Rgb, FrameBuffer, Console, pixel, write_u32, put_pixel, font, find_glyph, glyph, draw_line,
  draw_glyph,
}

-- The run returns, and changes no byte outside the framebuffer.
pub record Draws (fb : FrameBuffer) (m : Mem) (run : Run Mem) : Type 0 where
  pub mem : Mem
  pub returns : run ≡ done mem
  pub outside : (a : ℕ) → Outside fb.base (fb.base + fb.size) a → mem a ≡ m a

-- No byte offset overflows, and the height leaves room for a line of text.
abbrev pub Fits : FrameBuffer → Type 0
Fits fb = ((fb.height * fb.stride + fb.width) * 4 + 4 < u64_mod) × (fb.height + 16 < u64_mod)

Draws-then :
    (fb : FrameBuffer) (m : Mem) (run : Run Mem) (next : Mem → Run Mem)
    → Draws fb m run
    → ((m1 : Mem) → Draws fb m1 (next m1))
    → Draws fb m (run >>= next)
Draws-then fb m run next d rest =
    let e = rest d.mem in
    record {
      mem = e.mem;
      returns = rw (◌>>=◌, d.returns) e.returns;
      outside = λ a out. e.outside a out ∙ d.outside a out;
    }

put_pixel-Draws :
    (fb : FrameBuffer) (x y : ℕ) (c : Rgb) (m : Mem) → Fits fb → Draws fb m (put_pixel fb x y c m)
unfolding put_pixel
put_pixel-Draws fb x y c m fits = elim (Bool-cases (leb fb.width x || leb fb.height y)) [
  | inl off ↦ record { mem = m; returns = ground arith; outside = λ a out. refl }
  | inr on ↦
      let off : ℕ = (y * fb.stride + x) * 4 in
      let y_in : y < fb.height = ground arith in
      let lines : y * fb.stride ≤ fb.height * fb.stride =
        mul-le-mul_right fb.stride (le_of_lt y_in) in
      let exact : leb u64_mod (off + 4) ≡ false = ground arith in
      elim (Bool-cases (ltb fb.size (off + 4))) [
        | inl past ↦ record { mem = m; returns = ground arith; outside = λ a out. refl }
        | inr inside ↦ record {
          mem = write_u32 m (fb.base + off) (pixel fb.format c);
          returns = ground arith;
          outside = λ a out. ground arith;
        }
      ]
]

draw_line-Draws :
    (n col bits px0 y : ℕ) (con : Console) (m : Mem)
    → Fits con.fb
    → px0 + col + n < u64_mod
    → y + 1 < u64_mod
    → Draws con.fb m (draw_line n col bits px0 y con m)
unfolding draw_line
draw_line-Draws zero col bits px0 y con m fits across down = record {
  mem = m;
  returns = refl;
  outside = λ a out. refl;
}
draw_line-Draws (suc n) col bits px0 y con m fits across down =
    let x_in : ltb (px0 + col) u64_mod ≡ true = ground (arith, across) in
    let y_in : ltb (y + 1) u64_mod ≡ true = ground (arith, down) in
    rw (◌>>=◌, x_in)
      (Draws-then con.fb m _ _ (put_pixel-Draws con.fb (px0 + col) y _ m fits) (λ m1.
        rw (◌>>=◌, y_in)
          (Draws-then con.fb m1 _ _ (put_pixel-Draws con.fb (px0 + col) (y + 1) _ m1 fits) (λ m2.
            draw_line-Draws n (col + 1) bits px0 y con m2 fits (omega (arith, across)) down))))

pub draw_glyph-Draws :
    (lines : List ℕ) (row px0 py0 : ℕ) (con : Console) (m : Mem)
    → Fits con.fb
    → px0 + 8 < u64_mod
    → py0 + (row + length lines) * 2 < u64_mod
    → Draws con.fb m (draw_glyph lines row px0 py0 con m)
unfolding draw_glyph
draw_glyph-Draws [] row px0 py0 con m fits across down = record {
  mem = m;
  returns = refl;
  outside = λ a out. refl;
}
draw_glyph-Draws (bits ∷ lines) row px0 py0 con m fits across down =
    let y_in : ltb (py0 + row * 2) u64_mod ≡ true = ground (arith, down) in
    rw (◌>>=◌, y_in)
      (Draws-then con.fb m _ _
        (draw_line-Draws 8 0 bits px0 (py0 + row * 2) con m fits (omega (arith, across))
          (omega (arith, down)))
        (λ m1. draw_glyph-Draws lines (row + 1) px0 py0 con m1 fits across (omega (arith, down))))

-- A glyph has at most eight lines.
short : List (ℕ × List ℕ) → Bool
short [] = true
short ((c, bits) ∷ glyphs) = leb (length bits) 8 && short glyphs

short_font : short font ≡ true
unfolding short
short_font = refl

find_glyph-length :
    (c : ℕ) (glyphs : List (ℕ × List ℕ)) → short glyphs ≡ true → length (find_glyph c glyphs) ≤ 8
unfolding find_glyph short
find_glyph-length c [] h = omega arith
find_glyph-length c ((d, bits) ∷ glyphs) h = elim (Bool-cases (c == d)) [
  | inl here ↦ rw here (ground (arith, h))
  | inr later ↦ rw later (find_glyph-length c glyphs (ground (arith, h)))
]

pub glyph-length : (c : ℕ) → length (glyph c) ≤ 8
unfolding glyph
glyph-length c = find_glyph-length (if leb b'a' c && leb c b'z' then c - 32 else c) font short_font
