-- ===== src/Geometry/Tests.antt =====
-- Rectangles on a screen, and the theorems applied to them.
use plan9_ocaml.Prelude.{ℕ, ◌≡◌, ◌-◌, arith, ◌^◌, true, refl}
use plan9_ocaml.Geometry.{
  Point, Rectangle, rect, pt, rectclip, drawreplxy, bias, rect_x_rect, ℕ, true,
}
use plan9_ocaml.Geometry.Clip.{Clipped, rectclip-Clipped}
use plan9_ocaml.Geometry.Repl.{Replicated, drawreplxy-Replicated}

-- -5
abbrev minus_5 : ℕ
minus_5 = 2 ^ 32 - 5

abbrev screen : Rectangle
screen = record { min = record { x = 0; y = 0 }; max = record { x = 640; y = 480 } }

abbrev window : Rectangle
window = record { min = record { x = minus_5; y = 10 }; max = record { x = 100; y = 600 } }

abbrev way : Point
way = record { x = 7; y = minus_5 }

clipped_window : rectclip window screen ≡ (true, rect 0 10 100 480)
unfolding rectclip rect pt bias
clipped_window = refl

overlapping : rect_x_rect window screen ≡ true
unfolding rect_x_rect bias
overlapping = refl

repl_minus_5 : drawreplxy 10 17 minus_5 ≡ 16
unfolding drawreplxy
repl_minus_5 = refl

rectclip-Clipped_example :
    Clipped window screen (record { x = 50; y = 50 }) (rectclip window screen)
rectclip-Clipped_example = rectclip-Clipped window screen (record { x = 50; y = 50 })

drawreplxy-Replicated_example :
    Replicated (bias 10) (bias 17 - bias 10) (bias minus_5) (bias (drawreplxy 10 17 minus_5))
unfolding bias
drawreplxy-Replicated_example =
    drawreplxy-Replicated 10 17 minus_5 (omega arith) (omega arith) (omega arith) (omega arith)
      (omega arith) (omega arith) (omega arith)
