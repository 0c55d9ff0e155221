-- ===== src/Fdmon/Tests.antt =====
-- Three contexts, whose callbacks unregister them.
use enthrall.Prelude.{
  ℕ, ◌==◌, ◌≡◌, refl, Bool, true, false, not, ◌&&◌, Option, none, some, List, [], ◌∷◌,
}
use enthrall.Fdmon.{
  Fds, new_ctx, fdmon_register_fd, fdmon_unregister, fdmon_unref, fdmon_ref, fdmon_unmonitor,
  unlink, Op, unregisters, Callbacks, serve,
}
use enthrall.Fdmon.Linked.{Inv, touch}
use enthrall.Fdmon.Inv.{Drops, unref-Drops, register-Inv}

abbrev empty : Fds
empty = record { head = none; tail = none; at = λ a. new_ctx 0 none; alive = λ a. false; fresh = 0 }

empty-Inv : Inv empty []
empty-Inv = record {
  linked = record {
    chain = record { from_head = refl; to_tail = refl; links = tt };
    distinct = tt;
    living = λ x. (λ e. absurd (cc e), λ l. absurd l);
    below = λ x l. absurd l;
  };
  used = λ x l. absurd l;
}

abbrev three : Fds
three = fdmon_register_fd 9 (fdmon_register_fd 8 (fdmon_register_fd 7 empty))

three-Inv : Inv three (2 ∷ 1 ∷ 0 ∷ [])
unfolding fdmon_register_fd
three-Inv =
    register-Inv 9 _ (1 ∷ 0 ∷ []) (register-Inv 8 _ (0 ∷ []) (register-Inv 7 empty [] empty-Inv))

-- The one in the middle goes.
unref-Drops_example : Drops 1 three (2 ∷ []) (0 ∷ [])
unref-Drops_example = unref-Drops 1 three (2 ∷ []) (0 ∷ []) three-Inv

-- A callback that unregisters its context.
abbrev once : ℕ → Fds → List Op
once p s = unregisters p ∷ []

abbrev callbacks : Callbacks
callbacks = record { readcb = once; writecb = once; rfds = λ fd. true; wfds = λ fd. fd == 8 }

-- The middle one is watched for both, and is ready for both.
abbrev watched : Fds
watched = touch 1 (λ c. record c { reads = true; writes = true }) three

abbrev emptied : Bool → Option Fds → Bool
emptied b none = b
emptied b (some s) = not (s.alive 1) && s.alive 0

-- It has unregistered itself.
served : emptied false (serve 3 callbacks watched.head watched) ≡ true
unfolding serve fdmon_register_fd fdmon_ref fdmon_unref fdmon_unregister fdmon_unmonitor unlink
served = refl
