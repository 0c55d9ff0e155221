-- ===== src/Pointer.antt =====
-- x11.c: the master's pointer: the grab of the inputs, the warps to the middle of the screen and the
-- movements that go to the focused remote. The server and its answers are explicit.
pub mod Moving
pub mod Tracking
pub mod Visiting
mod Tests
use enthrall.Prelude.{
  ℕ, zero, suc, ◌==◌, ltb, Bool, true, false, ◌&&◌, ◌||◌, if◌then◌else◌, List, [], ◌∷◌,
}
use enthrall.Prelude.Int.{ℤ, ◌+ℤ◌, ◌-ℤ◌, eq_ℤ, abs}
use enthrall.Message.{Xypoint}

-- The server's pointer and its grabs, the static variables, the movements sent to the focused remote
-- and the positions handed to the mouse handler, the latest first.
pub record Mouse : Type 0 where
  pub screen_center : Xypoint
  pub pointer : Xypoint
  pub keyboard_grabbed : Bool
  pub pointer_grabbed : Bool
  pub saved_mousepos : Xypoint
  pub last_seen_mousepos : Xypoint
  pub moves : List (ℤ × ℤ)
  pub positions : List Xypoint

abbrev pub same_point : Xypoint → Xypoint → Bool
same_point a b = eq_ℤ a.x b.x && eq_ℤ a.y b.y

abbrev pub set_mousepos : Xypoint → Mouse → Mouse
set_mousepos pt m = record m { pointer = pt }

-- The arguments are the answers of XGrabKeyboard(3) and XGrabPointer(3), 0 for success.
unfoldable pub grab_inputs : (keyboard_status pointer_status : ℕ) → Mouse → ℕ × Mouse
grab_inputs (suc k) pointer_status m = (suc k, record m { saved_mousepos = m.pointer })
grab_inputs zero (suc k) m =
    (suc k, record m { saved_mousepos = m.pointer; keyboard_grabbed = false })
grab_inputs zero zero m = (
  0,
  set_mousepos m.screen_center
      (record m { saved_mousepos = m.pointer; keyboard_grabbed = true; pointer_grabbed = true }),
)

unfoldable pub ungrab_inputs : Bool → Mouse → Mouse
ungrab_inputs restore_mousepos m =
    let m1 = record m { keyboard_grabbed = false; pointer_grabbed = false } in
    if restore_mousepos then set_mousepos m1.saved_mousepos m1 else m1

abbrev pub update_last_mousepos : Xypoint → Mouse → Mouse
update_last_mousepos ev m = record m { last_seen_mousepos = ev }

abbrev pub is_off_center : Xypoint → Xypoint → Bool
is_off_center center ev = ltb 1 (abs (ev.x -ℤ center.x)) || ltb 1 (abs (ev.y -ℤ center.y))

unfoldable pub handle_grabbed_mousemove : Xypoint → Mouse → Mouse
handle_grabbed_mousemove ev m =
    if same_point ev m.screen_center
    then m
    else let last = m.last_seen_mousepos in
      let m1 = record m { moves = (ev.x -ℤ last.x, ev.y -ℤ last.y) ∷ m.moves } in
      if is_off_center m.screen_center ev
      then update_last_mousepos m.screen_center (set_mousepos m.screen_center m1)
      else update_last_mousepos ev m1

-- `state` is the event's mask, less the bits of the modifiers.
unfoldable pub handle_local_mousemove : (has_handler : Bool) (buttons : ℕ) → Xypoint → Mouse → Mouse
handle_local_mousemove has_handler buttons ev m =
    update_last_mousepos ev
      (if has_handler && buttons == 0 then record m { positions = ev ∷ m.positions } else m)

-- `handle_event` on a MotionNotify event.
unfoldable pub handle_motion :
    (remote_focused has_handler : Bool) (buttons : ℕ) → Xypoint → Mouse → Mouse
handle_motion remote_focused has_handler buttons ev m =
    if remote_focused
    then handle_grabbed_mousemove ev m
    else handle_local_mousemove has_handler buttons ev m
