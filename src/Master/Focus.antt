-- ===== src/Master/Focus.antt =====
-- main.c: the focus moves from node to node.
use enthrall.Prelude.{ℕ, Bool, true, false, not, ◌||◌, Option, none, some, List, [], ◌∷◌}
use enthrall.Message.{new_message, getclipboard}
use enthrall.Edge.{Direction}
use enthrall.Master.{
  NodeRef, master, remote, same_node, is_connected, ShowNullswitch, ns_no, ns_yes, ns_hotkeyonly,
  grabs_inputs, ungrabs_inputs, Host, Master, node_at, act,
}
use enthrall.Master.Remotes.{indicate_switch, enqueue_message}
use enthrall.Master.Send.{
  pr_press, pr_release, send_keyevent, send_setclipboard, set_node_display_brightness,
}
use enthrall.Master.Connect.{reconnect_remote}

module _ (h : Host) where
  unfoldable pub transfer_clipboard : NodeRef → NodeRef → Master → Master
  transfer_clipboard master master m = m
  transfer_clipboard (remote i) to m = enqueue_message h i (new_message getclipboard) m
  transfer_clipboard master (remote j) m =
      send_setclipboard h (some j) (h.get_clipboard_text m.answers) m

  -- The keys stand before the `ET_null` that ends the array.
  abbrev pub send_keys : NodeRef → ℕ → List ℕ → Master → Master
  send_keys master pr keys m = m
  send_keys (remote i) pr [] m = m
  send_keys (remote i) pr (k ∷ keys) m =
      send_keys (remote i) pr keys (send_keyevent h (some i) k pr m)

  unfoldable pub transfer_modifiers : NodeRef → NodeRef → List ℕ → Master → Master
  transfer_modifiers start to modkeys m =
      send_keys to pr_press modkeys (send_keys start pr_release modkeys m)

  abbrev pub shows_nullswitch : ShowNullswitch → Bool → Bool
  shows_nullswitch ns_no via_hotkey = false
  shows_nullswitch ns_yes via_hotkey = true
  shows_nullswitch ns_hotkeyonly via_hotkey = via_hotkey

  abbrev pub goes_to : Bool → ℕ → Master → NodeRef × Master
  goes_to true i m = (remote i, m)
  goes_to false i m = let m' = (reconnect_remote h i m).0 in (m'.focused_node, m')

  -- The beginning of `focus_node`: where the focus goes. A remote that is not connected is given a new
  -- chance, and the focus stays.
  unfoldable pub choose_target : Option NodeRef → Master → NodeRef × Master
  choose_target none m = (m.focused_node, m)
  choose_target (some master) m = (master, m)
  choose_target (some (remote i)) m = goes_to (is_connected (m.store i).state) i m

  abbrev pub move_grab : NodeRef → NodeRef → Bool → Master → Master
  move_grab master master via_hotkey m = m
  move_grab master (remote j) via_hotkey m = act grabs_inputs m
  move_grab (remote i) master via_hotkey m = act (ungrabs_inputs via_hotkey) m
  move_grab (remote i) (remote j) via_hotkey m = m

  -- The end of `focus_node`, from the grab on.
  unfoldable pub switch_focus : NodeRef → NodeRef → List ℕ → Bool → Master → Master
  switch_focus start to modkeys via_hotkey m =
      let m' =
        transfer_modifiers start to modkeys
          (transfer_clipboard start to (move_grab start to via_hotkey m)) in
      record m' { last_focused_node = some m'.focused_node; focused_node = to }

  abbrev pub indicated : Bool → NodeRef → NodeRef → Master → Master
  indicated true start to m = indicate_switch h (set_node_display_brightness h) (some start) to m
  indicated false start to m = m

  abbrev pub switch_unless : Bool → NodeRef → NodeRef → List ℕ → Bool → Master → Master × Bool
  switch_unless true start to modkeys via_hotkey m = (m, false)
  switch_unless false start to modkeys via_hotkey m =
      (switch_focus start to modkeys via_hotkey m, true)

  -- `focus_node` when the target is chosen.
  unfoldable pub focus_target : NodeRef → NodeRef → List ℕ → Bool → Master → Master × Bool
  focus_target start to modkeys via_hotkey m =
      let stays = same_node to start in
      let shows = not stays || shows_nullswitch h.config.show_nullswitch via_hotkey in
      switch_unless stays start to modkeys via_hotkey (indicated shows start to m)

  -- A null node is `none`; the flag is the result 1.
  unfoldable pub focus_node : Option NodeRef → List ℕ → Bool → Master → Master × Bool
  focus_node n modkeys via_hotkey m =
      let t = choose_target n m in focus_target t.1.focused_node t.0 modkeys via_hotkey t.1

  unfoldable pub focus_neighbor : Direction → List ℕ → Bool → Master → Master × Bool
  focus_neighbor dir modkeys via_hotkey m =
      focus_node ((node_at m m.focused_node).neighbors dir) modkeys via_hotkey m
