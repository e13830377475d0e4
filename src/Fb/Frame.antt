-- ===== src/Fb/Frame.antt =====
-- Where the console of kernel/src/fb.rs draws.
use mantra_os.Common.{
  ℕ, ◌+◌, ◌-◌, ◌*◌, max, ◌≤◌, ◌<◌, ◌≡◌, inl, inr, refl, sym, subst, ◌∙◌, leb, ltb, ◌==◌,
  if◌then◌else◌, true, Bool-cases, List, [], ◌∷◌, arith,
}
use mantra_os.Common.Word.{u64_mod}
use mantra_os.Common.Run.{Run, done, ◌>>=◌}
use mantra_os.Pmm.Cover.{Outside}
use mantra_os.Memory.{Mem}
use mantra_os.Fb.{FrameBuffer, Console, new, newline, glyph, draw_char, put_char, write_str}
use mantra_os.Fb.Draw.{Fits, draw_glyph-Draws, glyph-length}

-- The cursor is in the grid, or one past the end of a line, and the grid on the framebuffer.
pub record InGrid (con : Console) : Type 0 where
  pub across : con.cx ≤ max con.cols 1
  pub down : con.cy ≤ con.rows - 1
  pub columns : con.cols * 8 ≤ con.fb.width
  pub lines : con.rows * 16 ≤ con.fb.height

-- The run returns, keeps the cursor in the grid and the grid on its framebuffer, and changes no byte
-- outside the framebuffer.
pub record Writes (con : Console) (m : Mem) (run : Run (Console × Mem)) : Type 0 where
  pub con' : Console
  pub mem : Mem
  pub returns : run ≡ done (con', mem)
  pub same_fb : con'.fb ≡ con.fb
  pub in_grid : InGrid con'
  pub outside : (a : ℕ) → Outside con.fb.base (con.fb.base + con.fb.size) a → mem a ≡ m a

-- The console after a new line.
abbrev next_line : Console → Console
next_line con = record con {
  cx = 0;
  cy = if leb con.rows (con.cy + 1) then con.rows - 1 else con.cy + 1;
}

newline-returns : (con : Console) → Fits con.fb → InGrid con → newline con ≡ done (next_line con)
unfolding newline
newline-returns con fits grid =
    let room : ltb (con.cy + 1) u64_mod ≡ true = ground (arith, fits.1, grid.down, grid.lines) in
    rw (◌>>=◌, room) refl

next_line-InGrid : (con : Console) → InGrid con → InGrid (next_line con)
next_line-InGrid con grid = record {
  across = omega arith;
  down = ground arith;
  columns = grid.columns;
  lines = grid.lines;
}

-- A character drawn at a cursor that is not past the end of its line.
draw_char-Writes :
    (ch : ℕ) (at : Console) (m : Mem)
    → Fits at.fb
    → InGrid at
    → at.cx < max at.cols 1
    → Writes at m (draw_char ch m at)
unfolding draw_char
draw_char-Writes ch at m fits grid inside =
    let wide : at.cx * 8 + 8 ≤ max at.fb.width 8 = omega (arith, inside, grid.columns) in
    let tall : at.cy * 16 ≤ at.fb.height = omega (arith, grid.down, grid.lines) in
    let px_in : ltb (at.cx * 8) u64_mod ≡ true = ground (arith, wide, fits.0) in
    let py_in : ltb (at.cy * 16) u64_mod ≡ true = ground (arith, tall, fits.1) in
    let cx_in : ltb (at.cx + 1) u64_mod ≡ true = ground (arith, wide, fits.0) in
    let d =
      draw_glyph-Draws (glyph ch) 0 (at.cx * 8) (at.cy * 16) at m fits (omega (arith, wide, fits.0))
        (omega (arith, tall, fits.1, glyph-length ch)) in
    record {
      con' = record at { cx = at.cx + 1 };
      mem = d.mem;
      returns = rw (◌>>=◌, px_in, py_in, d.returns, cx_in) refl;
      same_fb = refl;
      in_grid = record {
        across = omega (arith, inside);
        down = grid.down;
        columns = grid.columns;
        lines = grid.lines;
      };
      outside = d.outside;
    }

put_char-Writes :
    (ch : ℕ) (con : Console) (m : Mem) → Fits con.fb → InGrid con → Writes con m (put_char ch con m)
unfolding put_char
put_char-Writes ch con m fits grid =
    let fresh : Console = next_line con in
    let breaks = newline-returns con fits grid in
    elim (Bool-cases (ch == 10)) [
      | inl line_feed ↦ record {
        con' = fresh;
        mem = m;
        returns = rw (line_feed, ◌>>=◌, breaks) refl;
        same_fb = refl;
        in_grid = next_line-InGrid con grid;
        outside = λ a out. refl;
      }
      | inr other ↦ elim (Bool-cases (ch == 13)) [
        | inl return ↦ record {
          con' = record con { cx = 0 };
          mem = m;
          returns = rw (other, return) refl;
          same_fb = refl;
          in_grid = record {
            across = omega arith;
            down = grid.down;
            columns = grid.columns;
            lines = grid.lines;
          };
          outside = λ a out. refl;
        }
        | inr shown ↦ elim (Bool-cases (leb con.cols con.cx)) [
          | inl full ↦
              let w = draw_char-Writes ch fresh m fits (next_line-InGrid con grid) (omega arith) in
              record {
                con' = w.con';
                mem = w.mem;
                returns = rw (other, shown, full, ◌>>=◌, breaks) w.returns;
                same_fb = w.same_fb;
                in_grid = w.in_grid;
                outside = w.outside;
              }
          | inr room ↦
              let w = draw_char-Writes ch con m fits grid (ground arith) in
              record {
                con' = w.con';
                mem = w.mem;
                returns = rw (other, shown, room, ◌>>=◌) w.returns;
                same_fb = w.same_fb;
                in_grid = w.in_grid;
                outside = w.outside;
              }
        ]
      ]
    ]

-- Where no offset of a pixel of the framebuffer overflows, nor its height and 16 more, the grid lies on
-- the framebuffer and the cursor in the grid: writing any text returns without a panic, with every sum
-- and product checked for overflow, leaves the cursor in the grid and the framebuffer's description as
-- it is, and changes no byte outside the framebuffer.
pub write_str-Writes :
    (bytes : List ℕ) (con : Console) (m : Mem)
    → Fits con.fb
    → InGrid con
    → Writes con m (write_str bytes con m)
unfolding write_str
write_str-Writes [] con m fits grid = record {
  con' = con;
  mem = m;
  returns = refl;
  same_fb = refl;
  in_grid = grid;
  outside = λ a out. refl;
}
write_str-Writes (b ∷ bytes) con m fits grid =
    let w = put_char-Writes b con m fits grid in
    let rest = write_str-Writes bytes w.con' w.mem (subst Fits (sym w.same_fb) fits) w.in_grid in
    record {
      con' = rest.con';
      mem = rest.mem;
      returns = rw (write_str, w.returns) rest.returns;
      same_fb = rest.same_fb ∙ w.same_fb;
      in_grid = rest.in_grid;
      outside = λ a out.
          let out' : Outside w.con'.fb.base (w.con'.fb.base + w.con'.fb.size) a =
            subst (λ f. Outside f.base (f.base + f.size) a) (sym w.same_fb) out in
          rest.outside a out' ∙ w.outside a out;
    }

pub new-InGrid : (fb : FrameBuffer) → InGrid (new fb)
unfolding new
new-InGrid fb = record {
  across = omega arith;
  down = omega arith;
  columns = omega arith;
  lines = omega arith;
}
