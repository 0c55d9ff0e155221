-- ===== src/Pointer/Visiting.antt =====
-- x11.c: a visit to a remote: the inputs are grabbed, the user moves the pointer, and they are released.
use enthrall.Prelude.{
  ℕ, zero, suc, ◌≡◌, ◌≢◌, ◌⊎◌, inl, inr, refl, Bool, true, false, if◌then◌else◌, List, arith,
}
use enthrall.Prelude.Int.{ℤ, ◌+ℤ◌, ◌-ℤ◌}
use enthrall.Pointer.{Mouse, grab_inputs, ungrab_inputs}
use enthrall.Pointer.Moving.{moved, moved-Follows, total_x, total_y, known_x, known_y}

abbrev pub IsReleased : Mouse → Type 0
IsReleased m = (m.keyboard_grabbed ≡ false) × (m.pointer_grabbed ≡ false)

-- During the visit what is known is counted from the last position handled before it, not from the
-- middle of the screen; after it the pointer is back where it was if it is to be restored.
pub record Visits (restore : Bool) (ds : List (ℤ × ℤ)) (before during after : Mouse) : Type 0 where
  pub keyboard : during.keyboard_grabbed ≡ true
  pub pointer : during.pointer_grabbed ≡ true
  pub x_known :
      known_x during
      ≡ total_x before.moves
        +ℤ (before.screen_center.x -ℤ before.last_seen_mousepos.x)
        +ℤ total_x ds
  pub y_known :
      known_y during
      ≡ total_y before.moves
        +ℤ (before.screen_center.y -ℤ before.last_seen_mousepos.y)
        +ℤ total_y ds
  pub back : after.pointer ≡ (if restore then before.pointer else during.pointer)
  pub released : IsReleased after

-- From released inputs, and whatever the server answers, `grab_inputs` grabs both devices or neither: on an error neither, the
-- pointer and what has been sent being as before; otherwise both, and then, whatever the user's
-- movements and with each handled before the next, what is sent and what the pointer is ahead of it
-- add up to the movements and to the way from the last position seen before to the middle of the
-- screen, and `ungrab_inputs` releases both and puts the pointer back where it was before the grab
-- just when it is told to restore it, and otherwise leaves it.
pub grab-Visits :
    (keyboard_status pointer_status : ℕ) (ds : List (ℤ × ℤ)) (restore : Bool) (m : Mouse)
    → IsReleased m
    → let r = grab_inputs keyboard_status pointer_status m in
      ((r.0 ≡ 0) × Visits restore ds m (moved ds r.1) (ungrab_inputs restore (moved ds r.1)))
      ⊎ ((r.0 ≢ 0) × (r.1.pointer ≡ m.pointer) × (r.1.moves ≡ m.moves) × IsReleased r.1)
unfolding grab_inputs ungrab_inputs
grab-Visits (suc k) p ds restore m free = inr ((λ e. omega arith), refl, refl, free)
grab-Visits zero (suc k) ds restore m free = inr ((λ e. omega arith), refl, refl, (refl, free.1))
grab-Visits zero zero ds true m free =
    let f = moved-Follows ds (grab_inputs 0 0 m).1 in
    inl (
      refl,
      record {
        keyboard = f.keyboard;
        pointer = f.grab;
        x_known = f.x_known;
        y_known = f.y_known;
        back = f.saved;
        released = (refl, refl);
      },
    )
grab-Visits zero zero ds false m free =
    let f = moved-Follows ds (grab_inputs 0 0 m).1 in
    inl (
      refl,
      record {
        keyboard = f.keyboard;
        pointer = f.grab;
        x_known = f.x_known;
        y_known = f.y_known;
        back = refl;
        released = (refl, refl);
      },
    )
