-- ===== src/Timer/Tests.antt =====
-- The scheduled calls of x11.c on concrete lists.
use enthrall.Prelude.{ℕ, ◌+◌, ◌≡◌, refl, some, List, [], ◌∷◌, arith}
use enthrall.Timer.{ScheduledCall, Loop, schedule_call, run_scheduled_calls}
use enthrall.Timer.Order.{IsSorted, From, Slot, schedule-Slot}
use enthrall.Timer.Run.{AddsNoDue, run-ends}

abbrev call : ℕ → ℕ → ScheduledCall ℕ
call id time = record { id = id; action = id; calltime = time }

abbrev pending : List (ScheduledCall ℕ)
pending = call 1 10 ∷ call 2 20 ∷ call 3 20 ∷ call 4 30 ∷ []

scheduled :
    schedule_call 5 12 5 8 pending ≡ call 1 10 ∷ call 2 20 ∷ call 3 20 ∷ call 5 20 ∷ call 4 30 ∷ []
unfolding schedule_call
scheduled = refl

schedule-Slot_example : Slot (call 5 20) pending (schedule_call 5 12 5 8 pending)
schedule-Slot_example = schedule-Slot 5 12 8 5 pending (omega arith) (omega arith)

-- Each callback counts itself in the world and leaves the list alone.
abbrev count : ℕ → Loop ℕ ℕ → Loop ℕ ℕ
count a l = record l { world = l.world + 1 }

count-AddsNoDue : AddsNoDue count 20
count-AddsNoDue a l s = (s, omega arith)

abbrev loop : Loop ℕ ℕ
loop = record { calls = pending; world = 0 }

ran : run_scheduled_calls count 4 20 loop ≡ some (record { calls = call 4 30 ∷ []; world = 3 })
unfolding run_scheduled_calls
ran = refl

run-ends_example :
    (l : Loop ℕ ℕ) × (run_scheduled_calls count 4 20 loop ≡ some l)
    × IsSorted l.calls
    × From 21 l.calls
run-ends_example = run-ends count 20 4 loop count-AddsNoDue (omega arith) (omega arith)
