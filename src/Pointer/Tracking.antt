-- ===== src/Pointer/Tracking.antt =====
-- x11.c: the pointer stays near the middle of the screen while the inputs are grabbed, so that the
-- movements sent never fall behind by more than a pixel.
use enthrall.Prelude.{
  ℕ, ◌≤◌, ◌≡◌, refl, sym, subst, Bool, true, false, and_true, ◌||◌, ltb, if◌then◌else◌, List, [],
  ◌∷◌, arith,
}
use enthrall.Prelude.Int.{ℤ, ◌+ℤ◌, ◌-ℤ◌, abs, eq_ℤ, eq_ℤ_iff}
use enthrall.Pointer.{Mouse, same_point, handle_grabbed_mousemove, is_off_center}
use enthrall.Pointer.Moving.{report, moved, Follows, moved-Follows}

record IsNear (m : Mouse) : Type 0 where
  near_x : abs (m.last_seen_mousepos.x -ℤ m.screen_center.x) ≤ 1
  near_y : abs (m.last_seen_mousepos.y -ℤ m.screen_center.y) ≤ 1

-- The last position handled is next to the middle of the screen, and the pointer next to it.
pub record IsTracking (m : Mouse) : Type 0 where
  pub near_x : abs (m.last_seen_mousepos.x -ℤ m.screen_center.x) ≤ 1
  pub near_y : abs (m.last_seen_mousepos.y -ℤ m.screen_center.y) ≤ 1
  pub lag_x : abs (m.pointer.x -ℤ m.last_seen_mousepos.x) ≤ 1
  pub lag_y : abs (m.pointer.y -ℤ m.last_seen_mousepos.y) ≤ 1

abs_self : (a : ℤ) → abs (a -ℤ a) ≤ 1
unfolding abs ◌-ℤ◌
abs_self a = ground arith

abs_swap : (a b : ℤ) → abs (a -ℤ b) ≤ 1 → abs (b -ℤ a) ≤ 1
unfolding abs ◌-ℤ◌
abs_swap a b h = ground arith

not_off : (a b : ℕ) → (ltb 1 a || ltb 1 b) ≡ false → (a ≤ 1) × (b ≤ 1)
not_off a b h = ground arith

grabbed-IsTracking : (m : Mouse) → IsNear m → IsTracking (handle_grabbed_mousemove m.pointer m)
unfolding handle_grabbed_mousemove
grabbed-IsTracking m near =
    by_tests (same_point m.pointer m.screen_center) (is_off_center m.screen_center m.pointer) refl
      refl
  where
    by_tests :
        (b c : Bool)
        → same_point m.pointer m.screen_center ≡ b
        → is_off_center m.screen_center m.pointer ≡ c
        → IsTracking (
            if b
            then m
            else if c
            then record m {
              pointer = m.screen_center;
              last_seen_mousepos = m.screen_center;
              moves =
                  (m.pointer.x -ℤ m.last_seen_mousepos.x, m.pointer.y -ℤ m.last_seen_mousepos.y)
                  ∷ m.moves;
            }
            else record m {
              last_seen_mousepos = m.pointer;
              moves =
                  (m.pointer.x -ℤ m.last_seen_mousepos.x, m.pointer.y -ℤ m.last_seen_mousepos.y)
                  ∷ m.moves;
            })
    by_tests true c e f =
        let same =
          and_true (eq_ℤ m.pointer.x m.screen_center.x) (eq_ℤ m.pointer.y m.screen_center.y) e in
        let x : m.pointer.x ≡ m.screen_center.x =
          (eq_ℤ_iff m.pointer.x m.screen_center.x).0 same.0 in
        let y : m.pointer.y ≡ m.screen_center.y =
          (eq_ℤ_iff m.pointer.y m.screen_center.y).0 same.1 in
        let last = m.last_seen_mousepos in
        record {
          near_x = near.near_x;
          near_y = near.near_y;
          lag_x =
              subst (λ k. abs (k -ℤ last.x) ≤ 1) (sym x)
                (abs_swap last.x m.screen_center.x near.near_x);
          lag_y =
              subst (λ k. abs (k -ℤ last.y) ≤ 1) (sym y)
                (abs_swap last.y m.screen_center.y near.near_y);
        }
    by_tests false true e f = record {
      near_x = abs_self m.screen_center.x;
      near_y = abs_self m.screen_center.y;
      lag_x = abs_self m.screen_center.x;
      lag_y = abs_self m.screen_center.y;
    }
    by_tests false false e f =
        let near_it =
          not_off (abs (m.pointer.x -ℤ m.screen_center.x)) (abs (m.pointer.y -ℤ m.screen_center.y))
            f in
        record {
          near_x = near_it.0;
          near_y = near_it.1;
          lag_x = abs_self m.pointer.x;
          lag_y = abs_self m.pointer.y;
        }

tracking-IsNear : (m : Mouse) → IsTracking m → IsNear m
tracking-IsNear m t = record { near_x = t.near_x; near_y = t.near_y }

report-IsTracking : (m : Mouse) → IsNear m → IsTracking (report m)
report-IsTracking m near =
    by_test (same_point (handle_grabbed_mousemove m.pointer m).pointer m.pointer)
  where
    by_test :
        (b : Bool)
        → IsTracking (
            if b
            then handle_grabbed_mousemove m.pointer m
            else handle_grabbed_mousemove
                (handle_grabbed_mousemove m.pointer m).pointer
                (handle_grabbed_mousemove m.pointer m))
    by_test true = grabbed-IsTracking m near
    by_test false =
        let m1 = handle_grabbed_mousemove m.pointer m in
        grabbed-IsTracking m1 (tracking-IsNear m1 (grabbed-IsTracking m near))

moved-IsTracking : (ds : List (ℤ × ℤ)) (m : Mouse) → IsTracking m → IsTracking (moved ds m)
unfolding moved
moved-IsTracking [] m t = t
moved-IsTracking ((dx, dy) ∷ ds) m t =
    let m1 = record m { pointer = record { x = m.pointer.x +ℤ dx; y = m.pointer.y +ℤ dy } } in
    moved-IsTracking ds (report m1)
      (report-IsTracking m1 (record { near_x = t.near_x; near_y = t.near_y }))

-- While the inputs are grabbed and each of the user's movements is handled before the next, the
-- movements sent and what the pointer is ahead of them add up to the user's movements, and from a
-- state that tracks the pointer on that rest is never more than a pixel in each direction.
pub moves-tracked :
    (ds : List (ℤ × ℤ)) (m : Mouse)
    → IsTracking m
    → Follows ds m (moved ds m) × IsTracking (moved ds m)
moves-tracked ds m t = (moved-Follows ds m, moved-IsTracking ds m t)
