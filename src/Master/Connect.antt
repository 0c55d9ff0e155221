-- ===== src/Master/Connect.antt =====
-- main.c: connections are made, retried and given up.
use enthrall.Prelude.{ℕ, ◌+◌, Bool, true, false, Option, none, some, List, [], ◌∷◌, if◌then◌else◌}
use enthrall.Kvmap.{flatten_kvmap}
use enthrall.Message.{Message, new_message, setup}
use enthrall.Msgchan.{mc_init}
use enthrall.Timer.{cancel_call}
use enthrall.Master.{
  master, remote, Remote, cs_settingup, cs_permfailed, is_connected, is_settingup, is_failed,
  Callback, reconnect_remote_cb, set_brightness_cb, Host, Master, with_remote,
}
use enthrall.Master.Remotes.{disconnect_remote, enqueue_message}
use enthrall.Master.Send.{set_node_display_brightness}

abbrev pub prot_version : ℕ
prot_version = 0

abbrev pub setup_message : ℕ → Remote → Message
setup_message loglevel rmt = new_message (setup prot_version loglevel (flatten_kvmap rmt.params))

module _ (h : Host) where
  -- The parent's side: `sockfds[1]` belongs to the child, and is closed at once.
  unfoldable pub setup_remote : ℕ → Master → Master
  setup_remote i m =
      let fd = h.socketpair m.answers in
      let pid = h.fork (m.answers + 1) in
      let started =
        with_remote i
          (λ r. record r {
            sshpid = some pid;
            state = cs_settingup;
            msgchan = mc_init r.msgchan fd fd;
          })
          (record m { answers = m.answers + 2 }) in
      enqueue_message h i (setup_message m.loglevel (m.store i)) started

  unfoldable pub call_reconnect : ℕ → Master → Master
  call_reconnect i m = setup_remote i (with_remote i (λ r. record r { reconnect_timer = none }) m)

  -- The test of the timer, which is left as it was.
  abbrev pub cancel_timer : Option ℕ → Master → Master
  cancel_timer none m = m
  cancel_timer (some t) m = record m { calls = (cancel_call t m.calls).0 }

  abbrev pub stop_setup : Bool → ℕ → Master → Master
  stop_setup false i m = m
  stop_setup true i m = disconnect_remote h i m

  abbrev pub reconnect_unless : Bool → ℕ → Master → Master × Bool
  reconnect_unless true i m = (m, false)
  reconnect_unless false i m =
      let cancelled = cancel_timer (m.store i).reconnect_timer m in
      let stopped = stop_setup (is_settingup (m.store i).state) i cancelled in
      (setup_remote i (with_remote i (λ r. record r { failcount = 0 }) stopped), true)

  -- The flag is the result 1.
  unfoldable pub reconnect_remote : ℕ → Master → Master × Bool
  reconnect_remote i m = reconnect_unless (is_connected (m.store i).state) i m

  abbrev pub count_up : Bool → ℕ → ℕ
  count_up true n = n + 1
  count_up false n = n

  -- `for_each_remote`: `step` is made on every enabled remote, and the flags it returns are counted.
  abbrev pub for_each_remote : (ℕ → Master → Master × Bool) → List ℕ → Master → ℕ → Master × ℕ
  for_each_remote step [] m count = (m, count)
  for_each_remote step (i ∷ rest) m count =
      let r = if (m.store i).enabled then step i m else (m, false) in
      for_each_remote step rest r.0 (count_up r.1 count)

  unfoldable pub reconnect_remotes : Master → Master × ℕ
  reconnect_remotes m = for_each_remote reconnect_remote m.remotes m 0

  -- The body of the loop of `halt_reconnects`, by the two states it looks for.
  abbrev pub halt_by : (settingup failed : Bool) → ℕ → Master → Master × Bool
  halt_by true failed i m =
      (with_remote i (λ r. record r { state = cs_permfailed }) (disconnect_remote h i m), true)
  halt_by false true i m = (
    with_remote i (λ r. record r { state = cs_permfailed })
        (cancel_timer (m.store i).reconnect_timer m),
    true,
  )
  halt_by false false i m = (m, false)

  unfoldable pub halt_remote : ℕ → Master → Master × Bool
  halt_remote i m = halt_by (is_settingup (m.store i).state) (is_failed (m.store i).state) i m

  unfoldable pub halt_reconnects : Master → Master × ℕ
  halt_reconnects m = for_each_remote halt_remote m.remotes m 0

  abbrev pub brighten : Bool → ℕ → ℕ → Master → Master
  brighten true i f m = set_node_display_brightness h (remote i) f m
  brighten false i f m = m

  -- What a scheduled call does when it is due.
  unfoldable pub run_callback : Callback → Master → Master
  run_callback (reconnect_remote_cb i) m = call_reconnect i m
  run_callback (set_brightness_cb master f) m = set_node_display_brightness h master f m
  run_callback (set_brightness_cb (remote i) f) m = brighten (is_connected (m.store i).state) i f m
