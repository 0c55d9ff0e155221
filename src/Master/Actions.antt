-- ===== src/Master/Actions.antt =====
-- main.c: what the user's hotkeys do, and the end of the program.
use enthrall.Prelude.{ℕ, leb, ltb, Bool, true, some, List, [], ◌∷◌, if◌then◌else◌}
use enthrall.Prelude.Int.{ℤ, pos, negsuc, ◌+ℤ◌}
use enthrall.Edge.{Direction}
use enthrall.Master.{
  NodeRef, Connstate, is_connected, is_settingup, sets_clipboard, exits, Host, Master, act,
}
use enthrall.Master.Remotes.{disconnect_remote}
use enthrall.Master.Send.{send_setclipboard, send_setloglevel}
use enthrall.Master.Connect.{reconnect_remotes, halt_reconnects}
use enthrall.Master.Focus.{focus_node, focus_neighbor}

-- `struct focus_target`, its node resolved.
pub data FocusTarget : Type 0 where
  ft_direction : Direction → FocusTarget
  ft_node : NodeRef → FocusTarget
  ft_previous : FocusTarget

-- `struct action`
pub data Action : Type 0 where
  at_focus : FocusTarget → Action
  at_clearclipboard at_reconnect at_halt_reconnects at_quit : Action
  at_step_loglevel : (loglevel_delta : ℤ) → Action

abbrev pub ll_debug2 : ℕ
ll_debug2 = 7

-- A level that is not in the table of names becomes the last one that is.
unfoldable pub set_loglevel : ℕ → Master → Master
set_loglevel level m = record m { loglevel = if leb 8 level then ll_debug2 else level }

-- The new level, kept within bounds.
unfoldable pub step_loglevel : ℕ → ℤ → ℕ
step_loglevel level delta = clamp (pos level +ℤ delta)
  where
    clamp : ℤ → ℕ
    clamp (negsuc n) = 0
    clamp (pos n) = if ltb ll_debug2 n then ll_debug2 else n

module _ (h : Host) where
  abbrev pub is_live : Connstate → Bool
  is_live s = if is_connected s then true else is_settingup s

  -- The loop of `shutdown_master` over the remotes.
  abbrev pub shut_down : List ℕ → Master → Master
  shut_down [] m = record m { remotes = [] }
  shut_down (i ∷ rest) m =
      shut_down rest (if is_live (m.store i).state then disconnect_remote h i m else m)

  unfoldable pub shutdown_master : Master → Master
  shutdown_master m = shut_down m.remotes m

  abbrev pub clear_clipboards : List ℕ → Master → Master
  clear_clipboards [] m = m
  clear_clipboards (i ∷ rest) m = clear_clipboards rest (
      if (m.store i).enabled
      then if is_connected (m.store i).state then send_setclipboard h (some i) [] m else m
      else m)

  abbrev pub send_loglevels : List ℕ → ℕ → Master → Master
  send_loglevels [] level m = m
  send_loglevels (i ∷ rest) level m =
      send_loglevels rest level
        (if (m.store i).enabled then send_setloglevel h (some i) level m else m)

  abbrev pub focus_action : FocusTarget → List ℕ → Master → Master
  focus_action (ft_direction dir) modkeys m = (focus_neighbor h dir modkeys true m).0
  focus_action (ft_node n) modkeys m = (focus_node h (some n) modkeys true m).0
  focus_action ft_previous modkeys m = (focus_node h m.last_focused_node modkeys true m).0

  -- `modkeys` are the keys of `get_hotkey_modifiers`.
  unfoldable pub action_cb : Action → (modkeys : List ℕ) → Master → Master
  action_cb (at_focus target) modkeys m = focus_action target modkeys m
  action_cb at_clearclipboard modkeys m = clear_clipboards m.remotes (act (sets_clipboard []) m)
  action_cb at_reconnect modkeys m = (reconnect_remotes h m).0
  action_cb at_halt_reconnects modkeys m = (halt_reconnects h m).0
  action_cb at_quit modkeys m = act exits (shutdown_master m)
  action_cb (at_step_loglevel delta) modkeys m =
      let level = step_loglevel m.loglevel delta in
      send_loglevels m.remotes level (set_loglevel level m)
