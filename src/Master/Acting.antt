-- ===== src/Master/Acting.antt =====
-- main.c: hotkey actions other than the focus ones keep what holds of the focus, and what the loop of
-- shutdown_master does to the remotes.
use enthrall.Prelude.{
  ℕ, ◌==◌, ◌≡◌, refl, ap, ◌∙◌, Bool, true, false, none, some, List, [], ◌∷◌, Bool-cases, inl, inr,
  if◌then◌else◌, All, All-map,
}
use enthrall.Message.{new_message, setclipboard, setloglevel}
use enthrall.Master.{is_connected, Host, Master}
use enthrall.Master.Remotes.{disconnect_remote}
use enthrall.Master.Send.{send_setclipboard, send_setloglevel}
use enthrall.Master.Connect.{reconnect_remotes, halt_reconnects, reconnect_remote, halt_remote}
use enthrall.Master.Actions.{
  clear_clipboards, send_loglevels, shut_down, shutdown_master, is_live, set_loglevel, Action,
  at_focus, at_clearclipboard, at_reconnect, at_halt_reconnects, at_quit, at_step_loglevel,
  action_cb,
}
use enthrall.Master.Failing.{at_address_self, cut, disconnect-Disconnects}
use enthrall.Master.Sane.{IsSane, states-IsSane, disconnect-IsSane, same_states}
use enthrall.Master.Keeping.{send-IsSane, reconnect-IsSane, each-IsSane, halt-IsSane}

module _ (h : Host) where
  -- An action that does not ask for the focus.
  abbrev pub IsUnfocused : Action → Type 0
  IsUnfocused (at_focus target) = ⊥
  IsUnfocused at_clearclipboard = Unit {0}
  IsUnfocused at_reconnect = Unit {0}
  IsUnfocused at_halt_reconnects = Unit {0}
  IsUnfocused at_quit = Unit {0}
  IsUnfocused (at_step_loglevel d) = Unit {0}

  -- A choice between an operation and none.
  either : (b : Bool) (m m' : Master) → IsSane m → IsSane m' → IsSane (if b then m' else m)
  either true m m' s s' = s'
  either false m m' s s' = s

  clear-IsSane : (is : List ℕ) (m : Master) → IsSane m → IsSane (clear_clipboards h is m)
  unfolding send_setclipboard
  clear-IsSane [] m s = s
  clear-IsSane (i ∷ rest) m s =
      let sent =
        either (is_connected (m.store i).state) m _ s
          (send-IsSane h (some i) (new_message (setclipboard [])) m s) in
      clear-IsSane rest _ (either (m.store i).enabled m _ s sent)

  loglevels-IsSane :
      (is : List ℕ) (level : ℕ) (m : Master) → IsSane m → IsSane (send_loglevels h is level m)
  unfolding send_setloglevel
  loglevels-IsSane [] level m s = s
  loglevels-IsSane (i ∷ rest) level m s = loglevels-IsSane rest level _ (
      either (m.store i).enabled m _ s
        (send-IsSane h (some i) (new_message (setloglevel level)) m s))

  shut-IsSane : (is : List ℕ) (m : Master) → IsSane m → IsSane (shut_down h is m)
  shut-IsSane [] m s = states-IsSane m _ (λ j. refl) refl refl s
  shut-IsSane (i ∷ rest) m s =
      shut-IsSane rest _ (either (is_live h (m.store i).state) m _ s (disconnect-IsSane h i m s))

  -- A hotkey that clears the clipboards, reconnects, gives up, quits or changes the log level keeps that
  -- a remote with the focus is connected, and that the platform was last asked to grab the inputs, and
  -- not to release them, just when a remote has it.
  pub action-IsSane :
      (a : Action) (modkeys : List ℕ) (m : Master)
      → IsUnfocused a
      → IsSane m
      → IsSane (action_cb h a modkeys m)
  unfolding action_cb reconnect_remotes halt_reconnects shutdown_master set_loglevel
  action-IsSane (at_focus target) modkeys m u s = absurd u
  action-IsSane at_clearclipboard modkeys m u s =
      clear-IsSane m.remotes _ (states-IsSane m _ (λ j. refl) refl refl s)
  action-IsSane at_reconnect modkeys m u s =
      each-IsSane h (reconnect_remote h) (reconnect-IsSane h) m.remotes m 0 s
  action-IsSane at_halt_reconnects modkeys m u s =
      each-IsSane h (halt_remote h) (halt-IsSane h) m.remotes m 0 s
  action-IsSane at_quit modkeys m u s =
      states-IsSane (shut_down h m.remotes m) _ (λ j. refl) refl refl (shut-IsSane m.remotes m s)
  action-IsSane (at_step_loglevel d) modkeys m u s =
      loglevels-IsSane m.remotes _ _ (states-IsSane m _ (λ j. refl) refl refl s)

  -- `disconnect_remote` keeps the states, and starts no child.
  disconnect_state :
      (i : ℕ) (m : Master) (j : ℕ) → ((disconnect_remote h i m).store j).state ≡ (m.store j).state
  disconnect_state i m j =
      ap (λ x. (x j).state) (disconnect-Disconnects h i m).stored
      ∙ same_states i cut m.store (λ r. refl) j

  abbrev pub Childless : ℕ → Master → Type 0
  Childless j m = (m.store j).sshpid ≡ none

  disconnect-Childless :
      (i : ℕ) (m : Master) (j : ℕ) → Childless j m → Childless j (disconnect_remote h i m)
  disconnect-Childless i m j e =
      ap (λ x. (x j).sshpid) (disconnect-Disconnects h i m).stored
      ∙ elim (Bool-cases (j == i)) [ inl t ↦ rw t refl | inr n ↦ rw n e ]

  disconnect_self : (i : ℕ) (m : Master) → Childless i (disconnect_remote h i m)
  disconnect_self i m =
      ap (λ x. (x i).sshpid) (disconnect-Disconnects h i m).stored
      ∙ ap (λ r. r.sshpid) (at_address_self i cut m.store)

  -- One round of the loop of `shutdown_master`.
  abbrev pub round : ℕ → Master → Master
  round i m = if is_live h (m.store i).state then disconnect_remote h i m else m

  pub round_state : (i : ℕ) (m : Master) (j : ℕ) → ((round i m).store j).state ≡ (m.store j).state
  round_state i m j = by_live (is_live h (m.store i).state)
    where
      by_live :
          (b : Bool)
          → ((if b then disconnect_remote h i m else m).store j).state ≡ (m.store j).state
      by_live true = disconnect_state i m j
      by_live false = refl

  round-Childless : (i : ℕ) (m : Master) (j : ℕ) → Childless j m → Childless j (round i m)
  round-Childless i m j e = by_live (is_live h (m.store i).state)
    where
      by_live : (b : Bool) → Childless j (if b then disconnect_remote h i m else m)
      by_live true = disconnect-Childless i m j e
      by_live false = e

  shut-Childless :
      (is : List ℕ) (m : Master) (j : ℕ) → Childless j m → Childless j (shut_down h is m)
  shut-Childless [] m j e = e
  shut-Childless (i ∷ rest) m j e = shut-Childless rest (round i m) j (round-Childless i m j e)

  pub shut-All :
      (is : List ℕ) (m : Master)
      → All (λ j. is_live h (m.store j).state ≡ true → Childless j (shut_down h is m)) is
  shut-All [] m = tt
  shut-All (i ∷ rest) m = (
    λ l. shut-Childless rest (round i m) i (rw l (disconnect_self i m)),
    All-map (λ j k l. k (ap (is_live h) (round_state i m j) ∙ l)) rest (shut-All rest (round i m)),
  )
