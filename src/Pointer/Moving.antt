-- ===== src/Pointer/Moving.antt =====
-- x11.c: what the movements that are sent add up to while the inputs are grabbed.
use enthrall.Prelude.{◌≡◌, refl, ap, ◌∙◌, Bool, true, false, if◌then◌else◌, List, [], ◌∷◌}
use enthrall.Prelude.Int.{ℤ, pos, ◌+ℤ◌, ◌-ℤ◌, int_laws}
use enthrall.Pointer.{Mouse, same_point, handle_grabbed_mousemove, is_off_center}

-- The server reports the pointer's position; if the handler has moved it away, it reports that too.
abbrev pub report : Mouse → Mouse
report m =
    let m1 = handle_grabbed_mousemove m.pointer m in
    if same_point m1.pointer m.pointer then m1 else handle_grabbed_mousemove m1.pointer m1

-- The user's movements, each of them handled before the next one.
unfoldable pub moved : List (ℤ × ℤ) → Mouse → Mouse
moved [] m = m
moved ((dx, dy) ∷ ds) m =
    moved ds
      (report (record m { pointer = record { x = m.pointer.x +ℤ dx; y = m.pointer.y +ℤ dy } }))

abbrev pub total_x : List (ℤ × ℤ) → ℤ
total_x [] = pos 0
total_x (d ∷ ds) = d.0 +ℤ total_x ds

abbrev pub total_y : List (ℤ × ℤ) → ℤ
total_y [] = pos 0
total_y (d ∷ ds) = d.1 +ℤ total_y ds

-- What has been sent, and what the pointer is still ahead of it.
abbrev pub known_x : Mouse → ℤ
known_x m = total_x m.moves +ℤ (m.pointer.x -ℤ m.last_seen_mousepos.x)

abbrev pub known_y : Mouse → ℤ
known_y m = total_y m.moves +ℤ (m.pointer.y -ℤ m.last_seen_mousepos.y)

record Handled (before after : Mouse) : Type 0 where
  x_known : known_x after ≡ known_x before
  y_known : known_y after ≡ known_y before
  center : after.screen_center ≡ before.screen_center
  saved : after.saved_mousepos ≡ before.saved_mousepos
  keyboard : after.keyboard_grabbed ≡ before.keyboard_grabbed
  grab : after.pointer_grabbed ≡ before.pointer_grabbed

sent_ahead : (t p l c : ℤ) → p -ℤ l +ℤ t +ℤ (c -ℤ c) ≡ t +ℤ (p -ℤ l)
sent_ahead t p l c = omega int_laws

grabbed-Handled : (m : Mouse) → Handled m (handle_grabbed_mousemove m.pointer m)
unfolding handle_grabbed_mousemove
grabbed-Handled m =
    by_tests (same_point m.pointer m.screen_center) (is_off_center m.screen_center m.pointer)
  where
    by_tests :
        (b c : Bool)
        → Handled m (
            if b
            then m
            else if c
            then record m {
              pointer = m.screen_center;
              last_seen_mousepos = m.screen_center;
              moves =
                  (m.pointer.x -ℤ m.last_seen_mousepos.x, m.pointer.y -ℤ m.last_seen_mousepos.y)
                  ∷ m.moves;
            }
            else record m {
              last_seen_mousepos = m.pointer;
              moves =
                  (m.pointer.x -ℤ m.last_seen_mousepos.x, m.pointer.y -ℤ m.last_seen_mousepos.y)
                  ∷ m.moves;
            })
    by_tests true c = record {
      x_known = refl;
      y_known = refl;
      center = refl;
      saved = refl;
      keyboard = refl;
      grab = refl;
    }
    by_tests false true = record {
      x_known = sent_ahead (total_x m.moves) m.pointer.x m.last_seen_mousepos.x m.screen_center.x;
      y_known = sent_ahead (total_y m.moves) m.pointer.y m.last_seen_mousepos.y m.screen_center.y;
      center = refl;
      saved = refl;
      keyboard = refl;
      grab = refl;
    }
    by_tests false false = record {
      x_known = sent_ahead (total_x m.moves) m.pointer.x m.last_seen_mousepos.x m.pointer.x;
      y_known = sent_ahead (total_y m.moves) m.pointer.y m.last_seen_mousepos.y m.pointer.y;
      center = refl;
      saved = refl;
      keyboard = refl;
      grab = refl;
    }

report-Handled : (m : Mouse) → Handled m (report m)
report-Handled m = by_test (same_point (handle_grabbed_mousemove m.pointer m).pointer m.pointer)
  where
    by_test :
        (b : Bool)
        → Handled m (
            if b
            then handle_grabbed_mousemove m.pointer m
            else handle_grabbed_mousemove
                (handle_grabbed_mousemove m.pointer m).pointer
                (handle_grabbed_mousemove m.pointer m))
    by_test true = grabbed-Handled m
    by_test false =
        let first = grabbed-Handled m in
        let second = grabbed-Handled (handle_grabbed_mousemove m.pointer m) in
        record {
          x_known = second.x_known ∙ first.x_known;
          y_known = second.y_known ∙ first.y_known;
          center = second.center ∙ first.center;
          saved = second.saved ∙ first.saved;
          keyboard = second.keyboard ∙ first.keyboard;
          grab = second.grab ∙ first.grab;
        }

-- The movements `ds` of the user: nothing of them is lost and nothing is made up, but for what the
-- pointer is ahead of the last position that was handled.
pub record Follows (ds : List (ℤ × ℤ)) (before after : Mouse) : Type 0 where
  pub x_known : known_x after ≡ known_x before +ℤ total_x ds
  pub y_known : known_y after ≡ known_y before +ℤ total_y ds
  pub center : after.screen_center ≡ before.screen_center
  pub saved : after.saved_mousepos ≡ before.saved_mousepos
  pub keyboard : after.keyboard_grabbed ≡ before.keyboard_grabbed
  pub grab : after.pointer_grabbed ≡ before.pointer_grabbed

add_zero : (a : ℤ) → a ≡ a +ℤ pos 0
add_zero a = omega int_laws

regroup : (t p l d r : ℤ) → t +ℤ (p +ℤ d -ℤ l) +ℤ r ≡ t +ℤ (p -ℤ l) +ℤ (d +ℤ r)
regroup t p l d r = omega int_laws

pub moved-Follows : (ds : List (ℤ × ℤ)) (m : Mouse) → Follows ds m (moved ds m)
unfolding moved
moved-Follows [] m = record {
  x_known = add_zero (known_x m);
  y_known = add_zero (known_y m);
  center = refl;
  saved = refl;
  keyboard = refl;
  grab = refl;
}
moved-Follows ((dx, dy) ∷ ds) m =
    let m1 = record m { pointer = record { x = m.pointer.x +ℤ dx; y = m.pointer.y +ℤ dy } } in
    let one = report-Handled m1 in
    let rest = moved-Follows ds (report m1) in
    record {
      x_known =
          rest.x_known
          ∙ ap (λ k. k +ℤ total_x ds) one.x_known
          ∙ regroup (total_x m.moves) m.pointer.x m.last_seen_mousepos.x dx (total_x ds);
      y_known =
          rest.y_known
          ∙ ap (λ k. k +ℤ total_y ds) one.y_known
          ∙ regroup (total_y m.moves) m.pointer.y m.last_seen_mousepos.y dy (total_y ds);
      center = rest.center ∙ one.center;
      saved = rest.saved ∙ one.saved;
      keyboard = rest.keyboard ∙ one.keyboard;
      grab = rest.grab ∙ one.grab;
    }
