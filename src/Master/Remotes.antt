-- ===== src/Master/Remotes.antt =====
-- main.c: how a remote is disconnected and failed, the focus going back to the master, and how a
-- message is enqueued for it.
use enthrall.Prelude.{
  ℕ, zero, suc, ◌+◌, ◌-◌, ltb, Bool, true, false, Option, none, some, List, [], ◌∷◌, if◌then◌else◌,
}
use enthrall.Message.{Message}
use enthrall.Msgchan.{mc_close, mc_enqueue_message}
use enthrall.Backoff.{next_reconnect_delay}
use enthrall.Master.{
  NodeRef, master, remote, same_node, cs_failed, cs_permfailed, FocusHint, fh_none, fh_dim_inactive,
  fh_flash_active, reconnect_remote_cb, set_brightness_cb, ungrabs_inputs, sets_display_brightness,
  closes, kills, float_one, Host, Master, with_remote, act, schedule,
}

module _ (h : Host) where
  -- The loop of `transition_brightness` from step `i` on, with `k` steps to go.
  abbrev pub fade : NodeRef → (start stop duration steps k i : ℕ) → Master → Master
  fade node start stop duration steps zero i m = m
  fade node start stop duration steps (suc k) i m =
      let frac = h.floats.quot (h.floats.of_nat i) (h.floats.of_nat steps) in
      let level = h.floats.add start (h.floats.mul frac (h.floats.sub stop start)) in
      let delay = h.floats.to_uint64 (h.floats.mul frac (h.floats.of_nat duration)) in
      fade node start stop duration steps k (i + 1)
        (schedule h (set_brightness_cb node level) delay m)

  -- `show` is what `set_node_display_brightness` does on a node.
  unfoldable pub transition_brightness :
      (NodeRef → ℕ → Master → Master) → NodeRef → (start stop duration steps : ℕ) → Master → Master
  transition_brightness show node start stop duration steps m =
      schedule h (set_brightness_cb node stop) duration
        (fade node start stop duration steps (steps - 1) 1 (show node start m))

  abbrev pub dims : Option NodeRef → NodeRef → Option NodeRef
  dims none to = none
  dims (some from) to = if same_node from to then none else some from

  abbrev pub dim_from :
      (NodeRef → ℕ → Master → Master) → Option NodeRef → (b d s : ℕ) → Master → Master
  dim_from show none b d s m = m
  dim_from show (some from) b d s m = transition_brightness show from float_one b d s m

  abbrev pub indicate_by :
      FocusHint → (NodeRef → ℕ → Master → Master) → Option NodeRef → NodeRef → Master → Master
  indicate_by fh_none show from to m = m
  indicate_by (fh_dim_inactive b d s) show from to m =
      transition_brightness show to b float_one d s (dim_from show (dims from to) b d s m)
  indicate_by (fh_flash_active b d s) show from to m =
      transition_brightness show to b float_one d s m

  -- A null `from` is `none`.
  unfoldable pub indicate_switch :
      (NodeRef → ℕ → Master → Master) → Option NodeRef → NodeRef → Master → Master
  indicate_switch show from to m = indicate_by h.config.focus_hint show from to m

  -- `set_node_display_brightness` on the master's own node, the only one that `focus_master` lights.
  abbrev pub show_master : NodeRef → ℕ → Master → Master
  show_master node f m = act (sets_display_brightness f) m

  unfoldable pub focus_master : Master → Master
  focus_master m = indicate_switch show_master none master (record (act (ungrabs_inputs true) m) {
    last_focused_node = some m.focused_node;
    focused_node = master;
  })

  abbrev pub close_all : List ℕ → Master → Master
  close_all [] m = m
  close_all (fd ∷ fds) m = close_all fds (act (closes fd) m)

  abbrev pub kill_child : Option ℕ → Master → Master
  kill_child none m = m
  kill_child (some pid) m = act (kills pid) m

  -- `disconnect_remote` up to its last test.
  unfoldable pub drop_connection : ℕ → Master → Master
  drop_connection i m =
      let c = mc_close (m.store i).msgchan in
      with_remote i (λ r. record r { sshpid = none; msgchan = (mc_close r.msgchan).0 })
        (kill_child (m.store i).sshpid (close_all c.1 m))

  abbrev pub focus_back : Bool → Master → Master
  focus_back false m = m
  focus_back true m = focus_master m

  unfoldable pub disconnect_remote : ℕ → Master → Master
  disconnect_remote i m = focus_back (same_node (remote i) m.focused_node) (drop_connection i m)

  -- The end of `fail_remote`; the flag says whether the remote has failed too often.
  abbrev pub after_failure : Bool → ℕ → Master → Master
  after_failure true i m = with_remote i (λ r. record r { state = cs_permfailed }) m
  after_failure false i m =
      let delay = next_reconnect_delay (m.store i).failcount h.config.max_interval in
      with_remote i (λ r. record r { state = cs_failed; reconnect_timer = some m.answers })
        (schedule h (reconnect_remote_cb i) delay m)

  unfoldable pub fail_remote : ℕ → Master → Master
  fail_remote i m =
      let counted =
        with_remote i (λ r. record r { failcount = r.failcount + 1 }) (disconnect_remote i m) in
      after_failure (ltb h.config.max_tries (counted.store i).failcount) i counted

  -- The flag is the failure of `mc_enqueue_message`.
  abbrev pub check_backlog : Bool → ℕ → Master → Master
  check_backlog false i m = m
  check_backlog true i m = fail_remote i m

  unfoldable pub enqueue_message : ℕ → Message → Master → Master
  enqueue_message i msg m =
      let r = mc_enqueue_message (m.store i).msgchan msg in
      check_backlog r.1 i (with_remote i (λ rmt. record rmt { msgchan = r.0 }) m)
