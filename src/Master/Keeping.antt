-- ===== src/Master/Keeping.antt =====
-- main.c: messages, connections, hotkeys and scheduled calls keep what holds of the focus.
use enthrall.Prelude.{
  ℕ, zero, suc, ◌+◌, ◌==◌, ◌≡◌, refl, ap, ◌∙◌, Bool, true, false, Option, none, some, List, [], ◌∷◌,
  Bool-cases, inl, inr, if◌then◌else◌,
}
use enthrall.Message.{Message, new_message, clickevent}
use enthrall.Msgchan.{mc_init}
use enthrall.Master.{
  NodeRef, master, remote, same_node, Remote, Connstate, cs_new, cs_settingup, cs_failed,
  cs_permfailed, cs_connected, is_connected, is_settingup, is_failed, Host, Master,
}
use enthrall.Master.Remotes.{indicate_switch, disconnect_remote}
use enthrall.Master.Send.{
  send_to, enqueue_times, click_count, click_button, send_clickevent, send_setbrightness,
  set_node_display_brightness,
}
use enthrall.Master.Connect.{
  setup_remote, cancel_timer, stop_setup, reconnect_unless, reconnect_remote, for_each_remote,
  halt_by, halt_remote,
}
use enthrall.Master.Showing.{Waits, indicate-keeps}
use enthrall.Master.Failing.{FocusAfter, disconnect-Disconnects}
use enthrall.Master.Sane.{
  IsSane, same_node_remote, quietly-IsSane, states-IsSane, same_states, disconnect-IsSane,
  enqueue-IsSane,
}

module _ (h : Host) where
  pub send-IsSane :
      (rmt : Option ℕ) (msg : Message) (m : Master) → IsSane m → IsSane (send_to h rmt msg m)
  send-IsSane none msg m s = s
  send-IsSane (some i) msg m s = enqueue-IsSane h i msg m s

  times-IsSane :
      (n i : ℕ) (msg : Message) (m : Master) → IsSane m → IsSane (enqueue_times h n i msg m)
  times-IsSane zero i msg m s = s
  times-IsSane (suc n) i msg m s = times-IsSane n i msg _ (enqueue-IsSane h i msg m s)

  pub click-IsSane :
      (rmt : Option ℕ) (button pr : ℕ) (m : Master)
      → IsSane m
      → IsSane (send_clickevent h rmt button pr m)
  unfolding send_clickevent
  click-IsSane none button pr m s = s
  click-IsSane (some i) button pr m s =
      let mult = (m.store i).scrollmult in
      times-IsSane (click_count button mult) i
        (new_message (clickevent (click_button button mult) pr)) m s

  pub show-IsSane :
      (node : NodeRef) (f : ℕ) (m : Master)
      → IsSane m
      → IsSane (set_node_display_brightness h node f m)
  unfolding set_node_display_brightness send_setbrightness
  show-IsSane master f m s = states-IsSane m _ (λ j. refl) refl refl s
  show-IsSane (remote i) f m s = send-IsSane (some i) _ m s

  pub waits-IsSane : Waits h IsSane
  waits-IsSane node f delay m s = states-IsSane m _ (λ j. refl) refl refl s

  pub indicate-IsSane :
      (start : Option NodeRef) (to : NodeRef) (m : Master)
      → IsSane m
      → IsSane (indicate_switch h (set_node_display_brightness h) start to m)
  indicate-IsSane start to m s =
      indicate-keeps h IsSane IsSane waits-IsSane waits-IsSane (set_node_display_brightness h) start
        to m (λ n f e. show-IsSane n f m s) (λ f m' p. show-IsSane to f m' p) (λ m' p. p) s

  pub setup-IsSane :
      (i : ℕ) (m : Master)
      → same_node (remote i) m.focused_node ≡ false
      → IsSane m
      → IsSane (setup_remote h i m)
  unfolding setup_remote
  setup-IsSane i m n s =
      let F : Remote → Remote = λ r. record r {
        sshpid = some (h.fork (m.answers + 1));
        state = cs_settingup;
        msgchan = mc_init r.msgchan (h.socketpair m.answers) (h.socketpair m.answers);
      } in
      enqueue-IsSane h i _ _ (quietly-IsSane i F m _ n refl (refl, refl) s)

  -- A remote that is not connected has not got the focus.
  pub unfocused :
      (i : ℕ) (m : Master)
      → IsSane m
      → is_connected (m.store i).state ≡ false
      → same_node (remote i) m.focused_node ≡ false
  unfocused i m s n = by_node m.focused_node refl
    where
      clash : (b : Bool) → b ≡ true → b ≡ false → (c : Bool) → c ≡ false
      clash b p q c = cc

      by_node : (f : NodeRef) → m.focused_node ≡ f → same_node (remote i) f ≡ false
      by_node master e = refl
      by_node (remote j) e = elim (Bool-cases (i == j)) [
        | inl t ↦
            clash _ (ap (λ k. is_connected (m.store k).state) (same_node_remote i j t) ∙ s.live j e)
              n _
        | inr f ↦ f
      ]

  cancel-IsSane : (t : Option ℕ) (m : Master) → IsSane m → IsSane (cancel_timer h t m)
  cancel-IsSane none m s = s
  cancel-IsSane (some t) m s = states-IsSane m _ (λ j. refl) refl refl s

  -- Once a remote is disconnected it has not got the focus.
  disconnect_unfocused :
      (i : ℕ) (m : Master) → same_node (remote i) (disconnect_remote h i m).focused_node ≡ false
  disconnect_unfocused i m =
      by_focus (same_node (remote i) m.focused_node) refl (disconnect-Disconnects h i m).focus
    where
      by_focus :
          (b : Bool)
          → same_node (remote i) m.focused_node ≡ b
          → FocusAfter b m (disconnect_remote h i m)
          → same_node (remote i) (disconnect_remote h i m).focused_node ≡ false
      by_focus true e f = ap (same_node (remote i)) f.0
      by_focus false e f = ap (same_node (remote i)) f.0 ∙ e

  stop-IsSane :
      (b : Bool) (i : ℕ) (m : Master)
      → same_node (remote i) m.focused_node ≡ false
      → IsSane m
      → IsSane (stop_setup h b i m)
        × (same_node (remote i) (stop_setup h b i m).focused_node ≡ false)
  stop-IsSane false i m n s = (s, n)
  stop-IsSane true i m n s = (disconnect-IsSane h i m s, disconnect_unfocused i m)

  cancel_focus : (t : Option ℕ) (m : Master) → (cancel_timer h t m).focused_node ≡ m.focused_node
  cancel_focus none m = refl
  cancel_focus (some t) m = refl

  reconnect_unless-IsSane :
      (b : Bool) (i : ℕ) (m : Master)
      → is_connected (m.store i).state ≡ b
      → IsSane m
      → IsSane (reconnect_unless h b i m).0
  reconnect_unless-IsSane true i m e s = s
  reconnect_unless-IsSane false i m e s =
      let t = (m.store i).reconnect_timer in
      let c = cancel-IsSane t m s in
      let d =
        stop-IsSane (is_settingup (m.store i).state) i (cancel_timer h t m)
          (ap (same_node (remote i)) (cancel_focus t m) ∙ unfocused i m s e) c in
      setup-IsSane i _ d.1 (
        states-IsSane _ _ (same_states i (λ r. record r { failcount = 0 }) _ (λ r. refl)) refl refl
          d.0)

  pub reconnect-IsSane : (i : ℕ) (m : Master) → IsSane m → IsSane (reconnect_remote h i m).0
  unfolding reconnect_remote
  reconnect-IsSane i m s = reconnect_unless-IsSane (is_connected (m.store i).state) i m refl s

  chosen :
      (step : ℕ → Master → Master × Bool)
      → ((i : ℕ) (m : Master) → IsSane m → IsSane (step i m).0)
      → (b : Bool) (i : ℕ) (m : Master) → IsSane m
      → IsSane (if b then step i m else (m, false)).0
  chosen step k true i m s = k i m s
  chosen step k false i m s = s

  pub each-IsSane :
      (step : ℕ → Master → Master × Bool)
      → ((i : ℕ) (m : Master) → IsSane m → IsSane (step i m).0)
      → (is : List ℕ) (m : Master) (count : ℕ) → IsSane m
      → IsSane (for_each_remote h step is m count).0
  each-IsSane step k [] m count s = s
  each-IsSane step k (i ∷ rest) m count s =
      each-IsSane step k rest _ _ (chosen step k (m.store i).enabled i m s)

  halt_by-IsSane :
      (settingup failed : Bool) (i : ℕ) (m : Master)
      → is_connected (m.store i).state ≡ false
      → IsSane m
      → IsSane (halt_by h settingup failed i m).0
  halt_by-IsSane true failed i m e s =
      quietly-IsSane i (λ r. record r { state = cs_permfailed }) (disconnect_remote h i m) _
        (disconnect_unfocused i m) refl (refl, refl) (disconnect-IsSane h i m s)
  halt_by-IsSane false true i m e s =
      let t = (m.store i).reconnect_timer in
      quietly-IsSane i (λ r. record r { state = cs_permfailed }) (cancel_timer h t m) _
        (ap (same_node (remote i)) (cancel_focus t m) ∙ unfocused i m s e) refl (refl, refl)
        (cancel-IsSane t m s)
  halt_by-IsSane false false i m e s = s

  pub halt-IsSane : (i : ℕ) (m : Master) → IsSane m → IsSane (halt_remote h i m).0
  unfolding halt_remote
  halt-IsSane i m s = by_state (m.store i).state refl
    where
      by_state :
          (c : Connstate)
          → (m.store i).state ≡ c
          → IsSane (halt_by h (is_settingup c) (is_failed c) i m).0
      by_state cs_new e = s
      by_state cs_settingup e = halt_by-IsSane true false i m (ap is_connected e) s
      by_state cs_failed e = halt_by-IsSane false true i m (ap is_connected e) s
      by_state cs_permfailed e = s
      by_state cs_connected e = s
