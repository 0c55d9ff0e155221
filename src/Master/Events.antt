-- ===== src/Master/Events.antt =====
-- main.c: the pointer at the edges of the nodes' screens, and the messages that come from a remote.
use enthrall.Prelude.{
  ℕ, ◌-◌, ◌==◌, ◌&&◌, Text, codes, length, get_or, ◌++◌, Bool, true, false, not, Option, none, some,
  List, [], ◌∷◌, if◌then◌else◌,
}
use enthrall.Message.{
  Xypoint, Rectangle, Msgbody, setup, ready, moverel, moveabs, mousepos, clickevent, keyevent,
  getclipboard, setclipboard, logmsg, setbrightness, setloglevel, new_message,
}
use enthrall.Edge.{
  Direction, left, right, up, down, Edgeevent, Dirmask, Trigger, out_of_sync, nothing, switches,
  aborted, trigger_edgeevent, point_edgemask, edge_change,
}
use enthrall.Master.{
  NodeRef, master, remote, cs_connected, is_settingup, FocusHint, fh_none, fh_dim_inactive,
  fh_flash_active, sets_clipboard, sets_mousepos, logs, aborts, float_one, Floats, Host, Master,
  with_remote, with_node, node_at, act,
}
use enthrall.Master.Remotes.{transition_brightness, fail_remote, enqueue_message}
use enthrall.Master.Send.{send_setclipboard, set_node_display_brightness}
use enthrall.Master.Focus.{focus_neighbor}

abbrev pub same_direction : Direction → Direction → Bool
same_direction left left = true
same_direction right right = true
same_direction up up = true
same_direction down down = true
same_direction d e = false

-- Where the pointer is put on the focused screen, from its relative position on the one it left.
unfoldable pub reposition_point : Floats → Direction → (src_x src_y : ℕ) → Rectangle → Xypoint
reposition_point f left src_x src_y dim = record {
  x = dim.x.hi;
  y = f.lrintf (f.mul src_y (f.of_int dim.y.hi));
}
reposition_point f right src_x src_y dim = record {
  x = dim.x.lo;
  y = f.lrintf (f.mul src_y (f.of_int dim.y.hi));
}
reposition_point f up src_x src_y dim = record {
  x = f.lrintf (f.mul src_x (f.of_int dim.x.hi));
  y = dim.y.hi;
}
reposition_point f down src_x src_y dim = record {
  x = f.lrintf (f.mul src_x (f.of_int dim.x.hi));
  y = dim.y.lo;
}

abbrev pub same_mask : Dirmask → Dirmask → Bool
same_mask m n =
    same_bit m.at_left n.at_left
    && same_bit m.at_right n.at_right
    && same_bit m.at_up n.at_up
    && same_bit m.at_down n.at_down
  where
    same_bit : Bool → Bool → Bool
    same_bit true b = b
    same_bit false b = not b

module _ (h : Host) where
  abbrev pub put_pointer : NodeRef → Xypoint → Master → Master
  put_pointer master pt m = act (sets_mousepos pt) m
  put_pointer (remote i) pt m = enqueue_message h i (new_message (moveabs pt)) m

  unfoldable pub edgeswitch_reposition : Direction → (src_x src_y : ℕ) → Master → Master
  edgeswitch_reposition dir src_x src_y m =
      put_pointer m.focused_node
        (reposition_point h.floats dir src_x src_y (node_at m m.focused_node).dimensions) m

  abbrev pub reposition_if : Master × Bool → Direction → (src_x src_y : ℕ) → Master
  reposition_if (m, true) dir src_x src_y = edgeswitch_reposition dir src_x src_y m
  reposition_if (m, false) dir src_x src_y = m

  -- `trigger_edgeevent` after its decision. `modkeys` are the keys of `get_current_modifiers`. An
  -- event that is out of sync is only logged.
  abbrev pub obey_trigger :
      Trigger → Direction → (src_x src_y : ℕ) → (modkeys : List ℕ) → Master → Master
  obey_trigger out_of_sync dir src_x src_y modkeys m = m
  obey_trigger nothing dir src_x src_y modkeys m = m
  obey_trigger switches dir src_x src_y modkeys m =
      reposition_if (focus_neighbor h dir modkeys false m) dir src_x src_y
  obey_trigger aborted dir src_x src_y modkeys m = act aborts m

  -- One round of the loop of `check_edgeevents`.
  abbrev pub edge_round :
      Option Edgeevent
      → NodeRef
      → Direction
      → (src_x src_y : ℕ) → (modkeys : List ℕ) → Master
      → Master
  edge_round none node dir src_x src_y modkeys m = m
  edge_round (some ev) node dir src_x src_y modkeys m =
      let t =
        trigger_edgeevent h.config.mouseswitch ((node_at m node).edgehist dir) ev
          (h.get_microtime m.answers) in
      obey_trigger t.1 dir src_x src_y modkeys (
        with_node node
          (λ n. record n { edgehist = λ d. if same_direction d dir then t.0 else n.edgehist d }) m)

  abbrev pub edge_rounds :
      List Direction
      → (oldmask newmask : Dirmask) → NodeRef
      → (src_x src_y : ℕ) → (modkeys : List ℕ) → Master
      → Master
  edge_rounds [] oldmask newmask node src_x src_y modkeys m = m
  edge_rounds (dir ∷ dirs) oldmask newmask node src_x src_y modkeys m =
      edge_rounds dirs oldmask newmask node src_x src_y modkeys
        (edge_round (edge_change oldmask newmask dir) node dir src_x src_y modkeys m)

  unfoldable pub check_edgeevents : NodeRef → Xypoint → (modkeys : List ℕ) → Master → Master
  check_edgeevents node pt modkeys m =
      let dim = (node_at m node).dimensions in
      let newmask = point_edgemask pt dim in
      let oldmask = (node_at m node).edgemask in
      let m' = with_node node (λ n. record n { edgemask = newmask }) m in
      let xpos = h.floats.quot (h.floats.of_int pt.x) (h.floats.of_int dim.x.hi) in
      let ypos = h.floats.quot (h.floats.of_int pt.y) (h.floats.of_int dim.y.hi) in
      if same_mask newmask oldmask
      then m'
      else edge_rounds (left ∷ right ∷ up ∷ down ∷ []) oldmask newmask node xpos ypos modkeys m'

  unfoldable pub mousepos_cb : Xypoint → (modkeys : List ℕ) → Master → Master
  mousepos_cb pt modkeys m = check_edgeevents master pt modkeys m

  abbrev pub dim_new : FocusHint → ℕ → Master → Master
  dim_new fh_none i m = m
  dim_new (fh_dim_inactive b d s) i m =
      transition_brightness h (set_node_display_brightness h) (remote i) float_one b d s m
  dim_new (fh_flash_active b d s) i m = m

  abbrev pub become_ready : Bool → ℕ → Rectangle → Master → Master
  become_ready false i screendim m = fail_remote h i m
  become_ready true i screendim m = dim_new h.config.focus_hint i (
      with_remote i
        (λ r. record r {
          state = cs_connected;
          failcount = 0;
          node = record r.node { dimensions = screendim };
        })
        m)

  abbrev pub pass_clipboard : NodeRef → Master → Master
  pass_clipboard master m = m
  pass_clipboard (remote j) m = send_setclipboard h (some j) (h.get_clipboard_text m.answers) m

  -- What `log_direct` prints: a line, ended where the remote did not end it.
  abbrev pub log_line : Text → Text → Text
  log_line name line =
      name ++ codes ": " ++ line ++ (if get_or line (length line - 1) 0 == 10 then [] else 10 ∷ [])

  -- `handle_message`, for a message from the remote `i`.
  unfoldable pub handle_message : ℕ → Msgbody → (modkeys : List ℕ) → Master → Master
  handle_message i (ready screendim) modkeys m =
      become_ready (is_settingup (m.store i).state) i screendim m
  handle_message i (setclipboard text) modkeys m =
      let m' = act (sets_clipboard text) m in pass_clipboard m'.focused_node m'
  handle_message i (logmsg text) modkeys m = act (logs (log_line (m.store i).node.name text)) m
  handle_message i (mousepos pt) modkeys m = check_edgeevents (remote i) pt modkeys m
  handle_message i (setup v l kvs) modkeys m = fail_remote h i m
  handle_message i (moverel dx dy) modkeys m = fail_remote h i m
  handle_message i (moveabs pt) modkeys m = fail_remote h i m
  handle_message i (clickevent b pr) modkeys m = fail_remote h i m
  handle_message i (keyevent k pr) modkeys m = fail_remote h i m
  handle_message i getclipboard modkeys m = fail_remote h i m
  handle_message i (setbrightness f) modkeys m = fail_remote h i m
  handle_message i (setloglevel l) modkeys m = fail_remote h i m
