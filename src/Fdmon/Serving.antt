-- ===== src/Fdmon/Serving.antt =====
-- x11.c: the loop of handle_fds comes to its end and uses no context that has been freed, whatever the
-- callbacks register and unregister.
use enthrall.Prelude.{ℕ, ◌≡◌, ◌&&◌, Option, some, List}
use enthrall.Fdmon.{Fds, Callbacks, serve, and_then, call_if, fdmon_unref}
use enthrall.Fdmon.Linked.{Inv}

-- A loop that comes to its end in a sound state.
pub record Ends (o : Option Fds) : Type 0 where
  pub after : Fds
  pub done : o ≡ some after
  pub contexts : List ℕ
  pub inv : Inv after contexts

-- What is left of a round.
abbrev after_write : ℕ → Callbacks → ℕ → Fds → Option Fds
after_write rounds cb p s3 = and_then (fdmon_unref p s3) (serve rounds cb (s3.at p).next)

abbrev after_read : ℕ → Callbacks → ℕ → Fds → Option Fds
after_read rounds cb p s2 =
    and_then (call_if ((s2.at p).writes && cb.wfds (s2.at p).fd) (cb.writecb p s2) s2)
      (after_write rounds cb p)

abbrev after_ref : ℕ → Callbacks → ℕ → Fds → Option Fds
after_ref rounds cb p s1 =
    and_then (call_if ((s1.at p).reads && cb.rfds (s1.at p).fd) (cb.readcb p s1) s1)
      (after_read rounds cb p)
