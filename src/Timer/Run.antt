-- ===== src/Timer/Run.antt =====
-- x11.c: `run_scheduled_calls` makes every call that is due, and ends.
use enthrall.Prelude.{
  ℕ, zero, suc, ◌+◌, ◌≤◌, ◌<◌, ◌≡◌, refl, leb, true, false, some, List, [], ◌∷◌, if◌then◌else◌,
  arith, Bool-cases, inl, inr,
}
use enthrall.Timer.{ScheduledCall, Loop, due_head, run_head, run_scheduled_calls}
use enthrall.Timer.Order.{From, IsSorted, From-mono}

module _ {A : Type 0} where
  -- How many calls are due.
  abbrev pub due : ℕ → List (ScheduledCall A) → ℕ
  due when [] = 0
  due when (call ∷ rest) = if leb call.calltime when then suc (due when rest) else due when rest

  due-From :
      (when : ℕ) (calls : List (ScheduledCall A)) → From (when + 1) calls → due when calls ≡ 0
  due-From when [] f = refl
  due-From when (call ∷ rest) f = ground (arith, due-From when rest f.1)

module _ {A W : Type 0} (fn : A → Loop A W → Loop A W) (when : ℕ) where
  -- What a callback may do to the list: add calls for later than `when`, and take calls off.
  abbrev pub AddsNoDue : Type 0
  AddsNoDue =
      (a : A) (l : Loop A W)
      → IsSorted l.calls
      → IsSorted (fn a l).calls × (due when (fn a l).calls ≤ due when l.calls)

  round_ends :
      (calls : List (ScheduledCall A)) (l : Loop A W)
      → AddsNoDue
      → IsSorted calls
      → due_head fn when calls ≡ true
      → IsSorted (run_head fn calls l).calls
        × (due when (run_head fn calls l).calls < due when calls)
  round_ends [] l k s d = cc
  round_ends (call ∷ rest) l k s d =
      let r = k call.action (record l { calls = rest }) s.1 in (r.0, ground (arith, r.1))

  head_later :
      (calls : List (ScheduledCall A))
      → IsSorted calls
      → due_head fn when calls ≡ false
      → From (when + 1) calls
  head_later [] s d = tt
  head_later (call ∷ rest) s d =
      (ground arith, From-mono (when + 1) call.calltime rest (ground arith) s.0)

  -- Where the callbacks add no call that is due already, a round for each due call and one more is
  -- enough: the loop ends, the list is still in order, and all that is left is later than `when`.
  pub run-ends :
      (fuel : ℕ) (l : Loop A W)
      → AddsNoDue
      → IsSorted l.calls
      → due when l.calls < fuel
      → (l' : Loop A W) × (run_scheduled_calls fn fuel when l ≡ some l')
        × IsSorted l'.calls
        × From (when + 1) l'.calls
  unfolding run_scheduled_calls
  run-ends zero l k s h = absurd (omega arith)
  run-ends (suc fuel) l k s h = elim (Bool-cases (due_head fn when l.calls)) [
    | inl t ↦
        let r = round_ends l.calls l k s t in
        rw t (run-ends fuel (run_head fn l.calls l) k r.0 (omega (arith, r.1)))
    | inr f ↦ rw f (l, refl, s, head_later l.calls s f)
  ]
