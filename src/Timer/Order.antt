-- ===== src/Timer/Order.antt =====
-- x11.c: the list of scheduled calls is kept in order, and calls for one time keep theirs.
use enthrall.Prelude.{
  ℕ, ◌+◌, ◌-◌, ◌*◌, ◌%◌, ◌/◌, ◌^◌, ◌≤◌, ◌<◌, ◌≡◌, ◌≢◌, refl, ap, ltb, ◌==◌, Bool, true, false, some,
  List, [], ◌∷◌, ◌++◌, arith, All, Bool-cases, inl, inr, ltb→lt, ==_iff,
}
use enthrall.Timer.{ScheduledCall, insert_call, schedule_call, cancel_call, get_select_timeout}

module _ {A : Type 0} where
  -- Every call is for this time or later.
  abbrev pub From : ℕ → List (ScheduledCall A) → Type 0
  From t [] = Unit {0}
  From t (call ∷ rest) = (t ≤ call.calltime) × From t rest

  abbrev pub IsSorted : List (ScheduledCall A) → Type 0
  IsSorted [] = Unit {0}
  IsSorted (call ∷ rest) = From call.calltime rest × IsSorted rest

  pub From-mono : (s t : ℕ) (calls : List (ScheduledCall A)) → s ≤ t → From t calls → From s calls
  From-mono s t [] h f = tt
  From-mono s t (call ∷ rest) h f = (omega arith, From-mono s t rest h f.1)

  insert-From :
      (t : ℕ) (new : ScheduledCall A) (calls : List (ScheduledCall A))
      → t ≤ new.calltime
      → From t calls
      → From t (insert_call new calls)
  unfolding insert_call
  insert-From t new [] h f = (h, tt)
  insert-From t new (call ∷ rest) h f = ground (arith, insert-From t new rest h f.1)

  -- `schedule_call` keeps the order of the times.
  pub insert-IsSorted :
      (new : ScheduledCall A) (calls : List (ScheduledCall A))
      → IsSorted calls
      → IsSorted (insert_call new calls)
  unfolding insert_call
  insert-IsSorted new [] s = (tt, tt)
  insert-IsSorted new (call ∷ rest) s = ground (
    arith,
    insert-IsSorted new rest s.1,
    insert-From call.calltime new rest,
    From-mono new.calltime call.calltime rest,
  )

  -- Where a list is cut for a new call: those before are not later, those behind are later.
  pub record Slot (new : ScheduledCall A) (calls result : List (ScheduledCall A)) : Type 0 where
    pub before : List (ScheduledCall A)
    pub after : List (ScheduledCall A)
    pub whole : calls ≡ before ++ after
    pub placed : result ≡ before ++ (new ∷ after)
    pub earlier : All (λ c. c.calltime ≤ new.calltime) before
    pub later : All (λ c. new.calltime < c.calltime) after

  From-All :
      (t : ℕ) (calls : List (ScheduledCall A))
      → From (t + 1) calls
      → All (λ c. t < c.calltime) calls
  From-All t [] f = tt
  From-All t (call ∷ rest) f = (omega arith, From-All t rest f.1)

  insert-Slot :
      (new : ScheduledCall A) (calls : List (ScheduledCall A))
      → IsSorted calls
      → Slot new calls (insert_call new calls)
  unfolding insert_call
  insert-Slot new [] s = record {
    before = [];
    after = [];
    whole = refl;
    placed = refl;
    earlier = tt;
    later = tt;
  }
  insert-Slot new (call ∷ rest) s = elim (Bool-cases (ltb new.calltime call.calltime)) [
    | inl t ↦ rw t (record {
      before = [];
      after = call ∷ rest;
      whole = refl;
      placed = refl;
      earlier = tt;
      later = (
        ltb→lt _ _ t,
        From-All new.calltime rest
            (From-mono (new.calltime + 1) call.calltime rest (omega (arith, ltb→lt _ _ t)) s.0),
      );
    })
    | inr f ↦
        let i = insert-Slot new rest s.1 in
        rw f (record {
          before = call ∷ i.before;
          after = i.after;
          whole = ap (◌∷◌ call) i.whole;
          placed = ap (◌∷◌ call) i.placed;
          earlier = (ground arith, i.earlier);
          later = i.later;
        })
  ]

  -- Where the calls are in the order of their times and the sum of now and the delay does not wrap,
  -- `schedule_call` puts the new call, whose time is that sum, behind all those for the same time or an
  -- earlier one and before all later ones, and leaves the others as they were.
  pub schedule-Slot :
      (id microtime delay : ℕ) (action : A) (calls : List (ScheduledCall A))
      → IsSorted calls
      → microtime + delay < 2 ^ 64
      → Slot
          (record { id = id; action = action; calltime = microtime + delay })
          calls
          (schedule_call id microtime action delay calls)
  unfolding schedule_call
  schedule-Slot id microtime delay action calls s h =
      let e : (microtime + delay) % 2 ^ 64 ≡ microtime + delay = omega arith in
      rw e (insert-Slot (record { id = id; action = action; calltime = microtime + delay }) calls s)

  cancel-From :
      (t target : ℕ) (calls : List (ScheduledCall A))
      → From t calls
      → From t (cancel_call target calls).0
  unfolding cancel_call
  cancel-From t target [] f = tt
  cancel-From t target (call ∷ rest) f = ground (arith, cancel-From t target rest f.1)

  pub cancel-IsSorted :
      (target : ℕ) (calls : List (ScheduledCall A))
      → IsSorted calls
      → IsSorted (cancel_call target calls).0
  unfolding cancel_call
  cancel-IsSorted target [] s = tt
  cancel-IsSorted target (call ∷ rest) s =
      ground (arith, cancel-IsSorted target rest s.1, cancel-From call.calltime target rest s.0)

  -- What `cancel_call` comes to: no call has the address and nothing changes, or the first that has it
  -- is gone.
  pub data Cancels (target : ℕ) (calls : List (ScheduledCall A))
      : List (ScheduledCall A) × Bool → Type 0 where
    absent : All (λ c. c.id ≢ target) calls → Cancels target calls (calls, false)
    present :
        (before : List (ScheduledCall A)) (call : ScheduledCall A) (after : List (ScheduledCall A))
        → calls ≡ before ++ (call ∷ after)
        → call.id ≡ target
        → All (λ c. c.id ≢ target) before
        → Cancels target calls (before ++ after, true)

  cancel-cons :
      (target : ℕ) (call : ScheduledCall A) (rest : List (ScheduledCall A))
      (r : List (ScheduledCall A) × Bool)
      → call.id ≢ target
      → Cancels target rest r
      → Cancels target (call ∷ rest) (call ∷ r.0, r.1)
  cancel-cons target call rest _ n (absent a) = absent (n, a)
  cancel-cons target call rest _ n (present before c after e i a) =
      present (call ∷ before) c after (ap (◌∷◌ call) e) i (n, a)

  -- `cancel_call` takes off the call with the given address, and only that, and reports whether there
  -- was one.
  pub cancel-Cancels :
      (target : ℕ) (calls : List (ScheduledCall A))
      → Cancels target calls (cancel_call target calls)
  unfolding cancel_call
  cancel-Cancels target [] = absent tt
  cancel-Cancels target (call ∷ rest) = elim (Bool-cases (call.id == target)) [
    | inl t ↦ rw t (present [] call rest refl ((==_iff _ _).0 t) tt)
    | inr f ↦ rw f (
        cancel-cons target call rest (cancel_call target rest) (λ e. ground arith)
          (cancel-Cancels target rest))
  ]

  -- Once no call is due, the time that select(2) waits is exactly the time until the first call, in
  -- whole seconds and less than a million microseconds; without a call it waits for ever.
  pub timeout_until_first :
      (now_us : ℕ) (call : ScheduledCall A) (rest : List (ScheduledCall A))
      → now_us < call.calltime
      → call.calltime < 2 ^ 64
      → (sec : ℕ) × (usec : ℕ) × (get_select_timeout now_us (call ∷ rest) ≡ some (sec, usec))
        × (usec < 1000000)
        × (now_us + (sec * 1000000 + usec) ≡ call.calltime)
  unfolding get_select_timeout
  timeout_until_first now_us call rest h b =
      let wait = (call.calltime + 2 ^ 64 - now_us) % 2 ^ 64 in
      (wait / 1000000, wait % 1000000, refl, omega arith, omega arith)
