-- ===== src/Fdmon.antt =====
-- x11.c: the monitored file descriptors, a doubly linked list of counted contexts, and the loop of
-- handle_fds over it.
pub mod Chain
pub mod Unlinking
pub mod Linked
pub mod Inv
pub mod Holding
pub mod Keeping
pub mod Serving
mod Tests
use enthrall.Prelude.{
  ℕ, zero, suc, ◌+◌, ◌-◌, ◌*◌, ◌/◌, ◌%◌, ◌==◌, ltb, Bool, true, false, not, ◌&&◌, ◌||◌, Option,
  none, some, is_some, List, [], ◌∷◌, if◌then◌else◌,
}

-- `struct fdmon_ctx`, with FM_READ and FM_WRITE of its flags; a pointer is an address, and a null
-- pointer `none`. The callbacks are those of the loop below.
pub record Ctx : Type 0 where
  pub fd : ℕ
  pub reads : Bool
  pub writes : Bool
  pub refcount : ℕ
  pub next : Option ℕ
  pub prev : Option ℕ

-- `monitored_fds` and the memory: `alive` is what is allocated, and `fresh` the address that the next
-- allocation gives, which is never one of an earlier allocation.
pub record Fds : Type 0 where
  pub head : Option ℕ
  pub tail : Option ℕ
  pub at : ℕ → Ctx
  pub alive : ℕ → Bool
  pub fresh : ℕ

abbrev pub set_at : ℕ → (Ctx → Ctx) → (ℕ → Ctx) → ℕ → Ctx
set_at i f at j = if j == i then f (at j) else at j

-- Nothing, where the pointer is null.
abbrev pub set_if : Option ℕ → (Ctx → Ctx) → (ℕ → Ctx) → ℕ → Ctx
set_if none f at = at
set_if (some i) f at = set_at i f at

abbrev pub with_prev : Option ℕ → Ctx → Ctx
with_prev p c = record c { prev = p }

abbrev pub with_next : Option ℕ → Ctx → Ctx
with_next n c = record c { next = n }

abbrev pub new_ctx : ℕ → Option ℕ → Ctx
new_ctx fd next = record {
  fd = fd;
  reads = false;
  writes = false;
  refcount = 1;
  next = next;
  prev = none;
}

-- The context's address is what `fresh` was before.
unfoldable pub fdmon_register_fd : ℕ → Fds → Fds
fdmon_register_fd fd s = record {
  head = some s.fresh;
  tail = if is_some s.tail then s.tail else some s.fresh;
  at = set_if s.head (with_prev (some s.fresh)) (set_at s.fresh (λ _. new_ctx fd s.head) s.at);
  alive = λ j. if j == s.fresh then true else s.alive j;
  fresh = s.fresh + 1;
}

-- The end of `fdmon_unref`, where the last reference is gone.
unfoldable pub unlink : ℕ → Fds → Fds
unlink a s =
    let c = s.at a in
    record s {
      head = if is_some c.prev then s.head else c.next;
      tail = if is_some c.next then s.tail else c.prev;
      at = set_if c.prev (with_next c.next) (set_if c.next (with_prev c.prev) s.at);
      alive = λ j. if j == a then false else s.alive j;
    }

abbrev pub with_refcount : ℕ → ℕ → Fds → Fds
with_refcount n a s = record s { at = set_at a (λ c. record c { refcount = n }) s.at }

-- A context that is used: `none` is a context that is not allocated, or an assertion that fails.
abbrev pub using : ℕ → Fds → Option Fds → Option Fds
using a s result = if s.alive a then result else none

abbrev pub counted : ℕ → Fds → Option Fds → Option Fds
counted a s result = using a s (if (s.at a).refcount == 0 then none else result)

unfoldable pub fdmon_unref : ℕ → Fds → Option Fds
fdmon_unref a s =
    let s' = with_refcount ((s.at a).refcount - 1) a s in
    counted a s (if (s.at a).refcount - 1 == 0 then some (unlink a s') else some s')

unfoldable pub fdmon_ref : ℕ → Fds → Option Fds
fdmon_ref a s = counted a s (some (with_refcount ((s.at a).refcount + 1) a s))

-- `flags` has the bits FM_READ, 1, and FM_WRITE, 2; `none` is also the abort for any other.
abbrev pub has_read : ℕ → Bool
has_read flags = flags % 2 == 1

abbrev pub has_write : ℕ → Bool
has_write flags = flags / 2 % 2 == 1

unfoldable pub fdmon_monitor : ℕ → ℕ → Fds → Option Fds
fdmon_monitor a flags s = using a s (
    if ltb 3 flags
    then none
    else some (record s {
      at =
          set_at a
            (λ c. record c {
              reads = c.reads || has_read flags;
              writes = c.writes || has_write flags;
            })
            s.at;
    }))

unfoldable pub fdmon_unmonitor : ℕ → ℕ → Fds → Option Fds
fdmon_unmonitor a flags s = using a s (
    if ltb 3 flags
    then none
    else some (record s {
      at =
          set_at a
            (λ c. record c {
              reads = c.reads && not (has_read flags);
              writes = c.writes && not (has_write flags);
            })
            s.at;
    }))

abbrev pub and_then : Option Fds → (Fds → Option Fds) → Option Fds
and_then none f = none
and_then (some s) f = f s

unfoldable pub fdmon_unregister : ℕ → Fds → Option Fds
fdmon_unregister a s = and_then (fdmon_unmonitor a 3 s) (fdmon_unref a)

-- What a callback may do with the contexts.
pub data Op : Type 0 where
  registers : (fd : ℕ) → Op
  unregisters : (a : ℕ) → Op
  monitors unmonitors : (a flags : ℕ) → Op

abbrev pub perform : Op → Fds → Option Fds
perform (registers fd) s = some (fdmon_register_fd fd s)
perform (unregisters a) s = fdmon_unregister a s
perform (monitors a flags) s = fdmon_monitor a flags s
perform (unmonitors a flags) s = fdmon_unmonitor a flags s

abbrev pub perform_all : List Op → Fds → Option Fds
perform_all [] s = some s
perform_all (op ∷ ops) s = and_then (perform op s) (perform_all ops)

-- The callbacks, by what they do, which may depend on all there is; and what select(2) has left in the two
-- sets.
pub record Callbacks : Type 0 where
  pub readcb : ℕ → Fds → List Op
  pub writecb : ℕ → Fds → List Op
  pub rfds : ℕ → Bool
  pub wfds : ℕ → Bool

abbrev pub call_if : Bool → List Op → Fds → Option Fds
call_if false ops s = some s
call_if true ops s = perform_all ops s

-- The second loop of `handle_fds`, by rounds; `none` is also a number of rounds that is not enough.
unfoldable pub serve : ℕ → Callbacks → Option ℕ → Fds → Option Fds
serve rounds cb none s = some s
serve zero cb (some mfd) s = none
serve (suc rounds) cb (some mfd) s = and_then (fdmon_ref mfd s) (λ s1.
    and_then (call_if ((s1.at mfd).reads && cb.rfds (s1.at mfd).fd) (cb.readcb mfd s1) s1) (λ s2.
      and_then (call_if ((s2.at mfd).writes && cb.wfds (s2.at mfd).fd) (cb.writecb mfd s2) s2)
        (λ s3. and_then (fdmon_unref mfd s3) (serve rounds cb (s3.at mfd).next))))
