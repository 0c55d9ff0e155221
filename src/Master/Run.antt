-- ===== src/Master/Run.antt =====
-- main.c: the master's runs: the events that its event loop hands to it, one after another.
pub mod Moving
pub mod Keeping
use enthrall.Prelude.{ℕ, ◌+◌, ◌≤◌, ◌≡◌, true, Option, none, some, List, [], ◌∷◌}
use enthrall.Prelude.Int.{ℤ}
use enthrall.Message.{Msgbody, mousepos, Xypoint}
use enthrall.Timer.{ScheduledCall}
use enthrall.Edge.{Direction, left, right, up, down, Dirmask, point_edgemask, edge_change}
use enthrall.Master.{
  NodeRef, master, remote, is_connected, Callback, Host, Master, node_at, with_node,
}
use enthrall.Master.Remotes.{fail_remote}
use enthrall.Master.Send.{send_keyevent, send_moverel, send_clickevent}
use enthrall.Master.Connect.{run_callback}
use enthrall.Master.Events.{edge_round, handle_message, mousepos_cb}
use enthrall.Master.Actions.{FocusTarget, Action, at_focus, action_cb}
use enthrall.Master.Handling.{IsQuiet, IsTimely}
use enthrall.Master.Switch.{switch_room}
use enthrall.Master.Acting.{IsUnfocused}

-- `focused_node->remote`
abbrev pub remote_of : NodeRef → Option ℕ
remote_of master = none
remote_of (remote i) = some i

-- Every connected remote's queue takes the messages of a switch with these modifiers.
abbrev pub IsRoomy : List ℕ → Master → Type 0
IsRoomy modkeys m =
    (i : ℕ)
    → is_connected (m.store i).state ≡ true
    → (m.store i).msgchan.num_queued + switch_room modkeys ≤ 64

module _ (h : Host) where
  -- It is so before each round of `check_edgeevents`.
  abbrev pub AreRoomy :
      List Direction
      → (oldmask newmask : Dirmask) → NodeRef
      → (src_x src_y : ℕ) → (modkeys : List ℕ) → Master
      → Type 0
  AreRoomy [] oldmask newmask node x y modkeys m = Unit {0}
  AreRoomy (dir ∷ dirs) oldmask newmask node x y modkeys m =
      IsRoomy modkeys m
      × AreRoomy dirs oldmask newmask node x y modkeys
          (edge_round h (edge_change oldmask newmask dir) node dir x y modkeys m)

  abbrev pub IsRoomyMove : NodeRef → Xypoint → List ℕ → Master → Type 0
  IsRoomyMove node pt modkeys m =
      let dim = (node_at m node).dimensions in
      let newmask = point_edgemask pt dim in
      AreRoomy (left ∷ right ∷ up ∷ down ∷ []) (node_at m node).edgemask newmask node
        (h.floats.quot (h.floats.of_int pt.x) (h.floats.of_int dim.x.hi))
        (h.floats.quot (h.floats.of_int pt.y) (h.floats.of_int dim.y.hi)) modkeys
        (with_node node (λ n. record n { edgemask = newmask }) m)

  -- The two callbacks of a remote's channel; they also write to the log.
  abbrev pub rmt_mc_read_cb : ℕ → Msgbody → (modkeys : List ℕ) → Master → Master
  rmt_mc_read_cb i body modkeys m = handle_message h i body modkeys m

  abbrev pub rmt_mc_err_cb : ℕ → Master → Master
  rmt_mc_err_cb i m = fail_remote h i m

  -- One event: a message from a remote, the error of its channel, a scheduled call that is taken off the
  -- list, a hotkey, a pointer position of the master's own, and what the grabbed devices do.
  pub data Step : Master → Master → Type 0 where
    receives :
        {m : Master}
        → (i : ℕ) (body : Msgbody) (modkeys : List ℕ) → IsQuiet h body
        → Step m (rmt_mc_read_cb i body modkeys m)
    receives_position :
        {m : Master}
        → (i : ℕ) (pt : Xypoint) (modkeys : List ℕ) → IsRoomyMove (remote i) pt modkeys m
        → Step m (rmt_mc_read_cb i (mousepos pt) modkeys m)
    loses : {m : Master} → (i : ℕ) → Step m (rmt_mc_err_cb i m)
    calls_back :
        {m : Master}
        → (c : ScheduledCall Callback) (rest : List (ScheduledCall Callback)) → m.calls ≡ c ∷ rest
        → IsTimely h c.action (record m { calls = rest })
        → Step m (run_callback h c.action (record m { calls = rest }))
    performs :
        {m : Master}
        → (a : Action) (modkeys : List ℕ) → IsUnfocused h a
        → Step m (action_cb h a modkeys m)
    switches_focus :
        {m : Master}
        → (target : FocusTarget) (modkeys : List ℕ) → IsRoomy modkeys m
        → Step m (action_cb h (at_focus target) modkeys m)
    points :
        {m : Master}
        → (pt : Xypoint) (modkeys : List ℕ) → IsRoomyMove master pt modkeys m
        → Step m (mousepos_cb h pt modkeys m)
    types :
        {m : Master}
        → (keycode pr : ℕ) → Step m (send_keyevent h (remote_of m.focused_node) keycode pr m)
    clicks :
        {m : Master}
        → (button pr : ℕ) → Step m (send_clickevent h (remote_of m.focused_node) button pr m)
    moves : {m : Master} → (dx dy : ℤ) → Step m (send_moverel h (remote_of m.focused_node) dx dy m)

  pub data Run : Master → Master → Type 0 where
    stops : {m : Master} → Run m m
    goes_on : {m m' m'' : Master} → Step m m' → Run m' m'' → Run m m''

-- What `main` sets before the event loop.
pub record IsStarting (m : Master) : Type 0 where
  pub focused : m.focused_node ≡ master
  pub idle : m.effects ≡ []
