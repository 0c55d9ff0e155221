-- ===== src/Master/Run/Keeping.antt =====
-- main.c: what holds of the focus in every state that the master reaches.
use enthrall.Prelude.{ℕ, true, refl, sym, ap, ◌∙◌, some, List}
use enthrall.Master.{master, remote, Host, Master}
use enthrall.Master.Send.{send_keyevent, send_moverel}
use enthrall.Master.Events.{handle_message, mousepos_cb}
use enthrall.Master.Actions.{FocusTarget, ft_direction, ft_node, ft_previous, at_focus, action_cb}
use enthrall.Master.Focus.{focus_neighbor}
use enthrall.Master.Showing.{grabbed}
use enthrall.Master.Sane.{IsSane, is_remote, states-IsSane, fail-IsSane}
use enthrall.Master.Keeping.{send-IsSane, click-IsSane}
use enthrall.Master.Handling.{handle-IsSane, callback-IsSane}
use enthrall.Master.Acting.{action-IsSane}
use enthrall.Master.Run.{
  IsRoomy, Step, receives, receives_position, loses, calls_back, performs, switches_focus, points,
  types, clicks, moves, Run, stops, goes_on, IsStarting,
}
use enthrall.Master.Run.Moving.{focus-IsSane, check-IsSane}

module _ (h : Host) where
  target-IsSane :
      (t : FocusTarget) (modkeys : List ℕ) (m : Master)
      → IsSane m
      → IsRoomy modkeys m
      → IsSane (action_cb h (at_focus t) modkeys m)
  unfolding action_cb focus_neighbor
  target-IsSane (ft_direction dir) modkeys m s r = focus-IsSane h _ modkeys true m s r
  target-IsSane (ft_node n) modkeys m s r = focus-IsSane h (some n) modkeys true m s r
  target-IsSane ft_previous modkeys m s r = focus-IsSane h m.last_focused_node modkeys true m s r

  Step-IsSane : {m m' : Master} → Step h m m' → IsSane m → IsSane m'
  unfolding handle_message mousepos_cb send_keyevent send_moverel
  Step-IsSane {m} (receives i body modkeys q) s = handle-IsSane h i body modkeys m q s
  Step-IsSane {m} (receives_position i pt modkeys r) s = check-IsSane h (remote i) pt modkeys m s r
  Step-IsSane {m} (loses i) s = fail-IsSane h i m s
  Step-IsSane {m} (calls_back c rest e t) s =
      callback-IsSane h c.action (record m { calls = rest }) t
        (states-IsSane m (record m { calls = rest }) (λ j. refl) refl refl s)
  Step-IsSane {m} (performs a modkeys u) s = action-IsSane h a modkeys m u s
  Step-IsSane {m} (switches_focus target modkeys r) s = target-IsSane target modkeys m s r
  Step-IsSane {m} (points pt modkeys r) s = check-IsSane h master pt modkeys m s r
  Step-IsSane {m} (types keycode pr) s = send-IsSane h _ _ m s
  Step-IsSane {m} (clicks button pr) s = click-IsSane h _ button pr m s
  Step-IsSane {m} (moves dx dy) s = send-IsSane h _ _ m s

  from-IsSane : {m m' : Master} → Run h m m' → IsSane m → IsSane m'
  from-IsSane stops s = s
  from-IsSane (goes_on step run) s = from-IsSane run (Step-IsSane step s)

  starting-IsSane : (m : Master) → IsStarting m → IsSane m
  starting-IsSane m t = record {
    live = λ i e. absurd (cc (t.focused, e));
    grabs = ap grabbed t.idle ∙ ap is_remote (sym t.focused);
  }

  -- In every state of a run that starts as `main` does, whatever the remotes send and however their
  -- channels fail, whatever keys, buttons and hotkeys are pressed and wherever the pointer goes, a remote
  -- with the focus is connected, and the platform was last asked to grab the inputs just when a remote has
  -- the focus: if the queues of the connected remotes have room for a switch whenever one may come, and no
  -- reconnection is due for a connected remote.
  pub Run-IsSane : (m m' : Master) → IsStarting m → Run h m m' → IsSane m'
  Run-IsSane m m' t r = from-IsSane r (starting-IsSane m t)
