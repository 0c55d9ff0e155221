-- ===== src/Timer.antt =====
-- The scheduled calls of x11.c: a list in the order of the times, from which the event loop runs
-- those that are due. `A` is what is to be called: function, argument and destructor together.
pub mod Order
pub mod Run
mod Tests
use enthrall.Prelude.{
  ℕ, zero, suc, ◌+◌, ◌-◌, ◌/◌, ◌%◌, ◌^◌, ltb, leb, ◌==◌, Bool, true, false, Option, none, some,
  List, [], ◌∷◌, if◌then◌else◌,
}

-- `struct scheduled_call`; `id` stands for its address, by which a call is cancelled.
pub record ScheduledCall (A : Type 0) : Type 0 where
  pub id : ℕ
  pub action : A
  pub calltime : ℕ

module _ {A : Type 0} where
  -- The loop of `schedule_call`: behind every call that is not later.
  unfoldable pub insert_call : ScheduledCall A → List (ScheduledCall A) → List (ScheduledCall A)
  insert_call new [] = new ∷ []
  insert_call new (call ∷ rest) =
      if ltb new.calltime call.calltime then new ∷ call ∷ rest else call ∷ insert_call new rest

  -- `get_microtime() + delay` is a sum of `uint64_t`.
  unfoldable pub schedule_call : ℕ → ℕ → A → ℕ → List (ScheduledCall A) → List (ScheduledCall A)
  unfolding insert_call
  schedule_call id microtime action delay calls =
      insert_call (record { id = id; action = action; calltime = (microtime + delay) % 2 ^ 64 })
        calls

  -- The flag is the result 1.
  unfoldable pub cancel_call : ℕ → List (ScheduledCall A) → List (ScheduledCall A) × Bool
  cancel_call target [] = ([], false)
  cancel_call target (call ∷ rest) =
      let (rest', found) = cancel_call target rest in
      if call.id == target then (rest, true) else (call ∷ rest', found)

  -- `struct timeval`: seconds and microseconds. `none` is the null pointer: wait for ever.
  unfoldable pub get_select_timeout : ℕ → List (ScheduledCall A) → Option (ℕ × ℕ)
  get_select_timeout now_us [] = none
  get_select_timeout now_us (call ∷ rest) =
      let maxwait_us = (call.calltime + 2 ^ 64 - now_us) % 2 ^ 64 in
      some (maxwait_us / 1000000, maxwait_us % 1000000)

-- What the callbacks see and change: the list of calls, and the rest of the program.
pub record Loop (A W : Type 0) : Type 0 where
  pub calls : List (ScheduledCall A)
  pub world : W

module _ {A W : Type 0} (fn : A → Loop A W → Loop A W) where
  abbrev pub due_head : ℕ → List (ScheduledCall A) → Bool
  due_head when [] = false
  due_head when (call ∷ rest) = leb call.calltime when

  -- One round: the call is taken off the list, then made.
  abbrev pub run_head : List (ScheduledCall A) → Loop A W → Loop A W
  run_head [] l = l
  run_head (call ∷ rest) l = fn call.action (record l { calls = rest })

  -- The fuel is the number of rounds; `none` means that it ran out.
  unfoldable pub run_scheduled_calls : ℕ → ℕ → Loop A W → Option (Loop A W)
  run_scheduled_calls zero when l = none
  run_scheduled_calls (suc fuel) when l =
      let later = run_scheduled_calls fuel when (run_head l.calls l) in
      if due_head when l.calls then later else some l
