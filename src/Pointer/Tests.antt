-- ===== src/Pointer/Tests.antt =====
-- x11.c: the pointer on concrete movements.
use enthrall.Prelude.{◌≡◌, ◌≢◌, ◌⊎◌, refl, true, false, List, [], ◌∷◌, arith}
use enthrall.Prelude.Int.{ℤ, pos, negsuc, abs, ◌-ℤ◌, ◌+ℤ◌}
use enthrall.Message.{Xypoint}
use enthrall.Pointer.{
  Mouse, grab_inputs, ungrab_inputs, handle_grabbed_mousemove, handle_local_mousemove,
  handle_motion,
}
use enthrall.Pointer.Moving.{moved, Follows}
use enthrall.Pointer.Tracking.{IsTracking, moves-tracked}
use enthrall.Pointer.Visiting.{IsReleased, Visits, grab-Visits}

abbrev middle : Xypoint
middle = record { x = pos 320; y = pos 240 }

-- The pointer is at the right edge, and no position has been seen yet.
abbrev at_start : Mouse
at_start = record {
  screen_center = middle;
  pointer = record { x = pos 639; y = pos 100 };
  keyboard_grabbed = false;
  pointer_grabbed = false;
  saved_mousepos = record { x = pos 0; y = pos 0 };
  last_seen_mousepos = record { x = pos 0; y = pos 0 };
  moves = [];
  positions = [];
}

-- Far to the right, a pixel up, and back.
abbrev movements : List (ℤ × ℤ)
movements = (pos 7, pos 0) ∷ (pos 0, negsuc 0) ∷ (pos 0, pos 1) ∷ []

abbrev tracked : Mouse
tracked = record at_start { pointer = middle; last_seen_mousepos = middle }

-- The step back to the middle is not sent: the pointer is a pixel ahead.
tracked_moves : (moved movements tracked).moves ≡ (pos 0, negsuc 0) ∷ (pos 7, pos 0) ∷ []
unfolding moved handle_grabbed_mousemove ◌-ℤ◌ ◌+ℤ◌ abs
tracked_moves = refl

-- The first movement of the first visit has the middle of the screen added to it.
first_jumps :
    (moved ((pos 7, pos 0) ∷ []) (grab_inputs 0 0 at_start).1).moves ≡ (pos 327, pos 240) ∷ []
unfolding moved handle_grabbed_mousemove grab_inputs ◌-ℤ◌ ◌+ℤ◌ abs
first_jumps = refl

-- A button is held.
dragged : (handle_motion false true 256 middle at_start).positions ≡ []
unfolding handle_motion handle_local_mousemove
dragged = refl

tracked-IsTracking : IsTracking tracked
unfolding abs ◌-ℤ◌
tracked-IsTracking = record {
  near_x = omega arith;
  near_y = omega arith;
  lag_x = omega arith;
  lag_y = omega arith;
}

moves-tracked_example :
    Follows movements tracked (moved movements tracked) × IsTracking (moved movements tracked)
moves-tracked_example = moves-tracked movements tracked tracked-IsTracking

grab-Visits_example :
    let r = grab_inputs 0 0 at_start in
    ((r.0 ≡ 0)
      × Visits true movements at_start
          (moved movements r.1)
          (ungrab_inputs true (moved movements r.1)))
    ⊎ ((r.0 ≢ 0) × (r.1.pointer ≡ at_start.pointer) × (r.1.moves ≡ at_start.moves) × IsReleased r.1)
grab-Visits_example = grab-Visits 0 0 movements true at_start (refl, refl)
