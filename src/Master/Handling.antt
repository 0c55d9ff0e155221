-- ===== src/Master/Handling.antt =====
-- main.c: events other than pointer moves and focus switches keep what holds of the focus.
use enthrall.Prelude.{
  ℕ, ◌==◌, ◌≡◌, refl, ap, Bool, true, false, none, some, List, Bool-cases, inl, inr,
}
use enthrall.Message.{
  Msgbody, Rectangle, setup, ready, moverel, moveabs, mousepos, clickevent, keyevent, getclipboard,
  setclipboard, logmsg, setbrightness, setloglevel,
}
use enthrall.Master.{
  NodeRef, master, remote, Remote, cs_connected, is_connected, is_settingup, FocusHint, fh_none,
  fh_dim_inactive, fh_flash_active, Callback, reconnect_remote_cb, set_brightness_cb, float_one,
  Host, Master, with_remote,
}
use enthrall.Master.Send.{send_setclipboard, set_node_display_brightness}
use enthrall.Master.Connect.{call_reconnect, brighten, run_callback}
use enthrall.Master.Events.{dim_new, become_ready, pass_clipboard, handle_message}
use enthrall.Master.Showing.{transition-keeps}
use enthrall.Master.Sane.{IsSane, states-IsSane, same_states, fail-IsSane}
use enthrall.Master.Keeping.{send-IsSane, show-IsSane, waits-IsSane, setup-IsSane, unfocused}

module _ (h : Host) where
  -- A message from a remote, other than a pointer position, which may switch the focus.
  abbrev pub IsQuiet : Msgbody → Type 0
  IsQuiet (mousepos pt) = ⊥
  IsQuiet (setup v l kvs) = Unit {0}
  IsQuiet (ready r) = Unit {0}
  IsQuiet (moverel dx dy) = Unit {0}
  IsQuiet (moveabs pt) = Unit {0}
  IsQuiet (clickevent b pr) = Unit {0}
  IsQuiet (keyevent k pr) = Unit {0}
  IsQuiet getclipboard = Unit {0}
  IsQuiet (setclipboard t) = Unit {0}
  IsQuiet (logmsg t) = Unit {0}
  IsQuiet (setbrightness f) = Unit {0}
  IsQuiet (setloglevel l) = Unit {0}

  dim-IsSane : (hint : FocusHint) (i : ℕ) (m : Master) → IsSane m → IsSane (dim_new h hint i m)
  dim-IsSane fh_none i m s = s
  dim-IsSane (fh_dim_inactive b d f) i m s =
      transition-keeps h IsSane (waits-IsSane h) (set_node_display_brightness h) (remote i)
        float_one b d f m (show-IsSane h (remote i) float_one m s)
  dim-IsSane (fh_flash_active b d f) i m s = s

  -- A remote becomes connected, which it may be with or without the focus.
  connect-IsSane :
      (i : ℕ) (f : Remote → Remote) (m : Master)
      → ((r : Remote) → (f r).state ≡ cs_connected)
      → IsSane m
      → IsSane (with_remote i f m)
  connect-IsSane i f m k s = record {
    live = λ j q. elim (Bool-cases (j == i)) [
      | inl t ↦ rw t (ap is_connected (k (m.store j)))
      | inr n ↦ rw n (s.live j q)
    ];
    grabs = s.grabs;
  }

  ready-IsSane :
      (b : Bool) (i : ℕ) (dim : Rectangle) (m : Master)
      → IsSane m
      → IsSane (become_ready h b i dim m)
  ready-IsSane false i dim m s = fail-IsSane h i m s
  ready-IsSane true i dim m s = dim-IsSane h.config.focus_hint i _ (
      connect-IsSane i
        (λ r. record r {
          state = cs_connected;
          failcount = 0;
          node = record r.node { dimensions = dim };
        })
        m (λ r. refl) s)

  pass-IsSane : (n : NodeRef) (m : Master) → IsSane m → IsSane (pass_clipboard h n m)
  unfolding send_setclipboard
  pass-IsSane master m s = s
  pass-IsSane (remote j) m s = send-IsSane h (some j) _ m s

  -- Whatever a remote sends, pointer positions apart, a remote with the focus is connected and the
  -- platform was last asked to grab the inputs just when a remote has it, if this was so before.
  pub handle-IsSane :
      (i : ℕ) (body : Msgbody) (modkeys : List ℕ) (m : Master)
      → IsQuiet body
      → IsSane m
      → IsSane (handle_message h i body modkeys m)
  unfolding handle_message
  handle-IsSane i (ready dim) modkeys m q s =
      ready-IsSane (is_settingup (m.store i).state) i dim m s
  handle-IsSane i (setclipboard t) modkeys m q s =
      pass-IsSane m.focused_node _ (states-IsSane m _ (λ j. refl) refl refl s)
  handle-IsSane i (logmsg t) modkeys m q s = states-IsSane m _ (λ j. refl) refl refl s
  handle-IsSane i (mousepos pt) modkeys m q s = absurd q
  handle-IsSane i (setup v l kvs) modkeys m q s = fail-IsSane h i m s
  handle-IsSane i (moverel dx dy) modkeys m q s = fail-IsSane h i m s
  handle-IsSane i (moveabs pt) modkeys m q s = fail-IsSane h i m s
  handle-IsSane i (clickevent b pr) modkeys m q s = fail-IsSane h i m s
  handle-IsSane i (keyevent k pr) modkeys m q s = fail-IsSane h i m s
  handle-IsSane i getclipboard modkeys m q s = fail-IsSane h i m s
  handle-IsSane i (setbrightness f) modkeys m q s = fail-IsSane h i m s
  handle-IsSane i (setloglevel l) modkeys m q s = fail-IsSane h i m s

  -- A reconnection is only due for a remote that is not connected.
  abbrev pub IsTimely : Callback → Master → Type 0
  IsTimely (reconnect_remote_cb i) m = is_connected (m.store i).state ≡ false
  IsTimely (set_brightness_cb node f) m = Unit {0}

  brighten-IsSane : (b : Bool) (i f : ℕ) (m : Master) → IsSane m → IsSane (brighten h b i f m)
  brighten-IsSane true i f m s = show-IsSane h (remote i) f m s
  brighten-IsSane false i f m s = s

  -- A scheduled call for a brightness, or for the reconnection of a remote that is not connected, keeps
  -- that a remote with the focus is connected, and that the platform was last asked to grab the inputs
  -- just when a remote has it.
  pub callback-IsSane :
      (cb : Callback) (m : Master) → IsTimely cb m → IsSane m → IsSane (run_callback h cb m)
  unfolding run_callback call_reconnect
  callback-IsSane (reconnect_remote_cb i) m t s = setup-IsSane h i _ (unfocused h i m s t) (
      states-IsSane m _
        (same_states i (λ r. record r { reconnect_timer = none }) m.store (λ r. refl)) refl refl s)
  callback-IsSane (set_brightness_cb master f) m t s = show-IsSane h master f m s
  callback-IsSane (set_brightness_cb (remote i) f) m t s =
      brighten-IsSane (is_connected (m.store i).state) i f m s
