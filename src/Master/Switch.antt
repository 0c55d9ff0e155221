-- ===== src/Master/Switch.antt =====
-- main.c: what `focus_node` comes to.
use enthrall.Prelude.{
  ℕ, suc, ◌≡◌, refl, sym, ap, ◌∙◌, subst, Bool, true, false, some, List, length, arith,
}
use enthrall.Master.{NodeRef, master, remote, same_node, is_connected, Host, Master}
use enthrall.Master.Send.{pr_press, pr_release}
use enthrall.Master.Connect.{reconnect_remote}
use enthrall.Master.Focus.{
  transfer_clipboard, send_keys, transfer_modifiers, move_grab, switch_focus, indicated,
  focus_target, choose_target, focus_node, shows_nullswitch,
}
use enthrall.Master.Sane.{IsSane, is_remote}
use enthrall.Master.Keeping.{reconnect-IsSane, indicate-IsSane}
use enthrall.Master.Focusing.{HasRoom, Switching, still-Switching}
use enthrall.Master.Transfer.{
  budget, budget-length, keys_to_start, keys_to_target, clipboard_moves, indicated_switch,
  grab_moves,
}

-- The messages that a switch may send to one of its nodes: a brightness, the clipboard and the keys.
abbrev pub switch_room : List ℕ → ℕ
switch_room modkeys = suc (suc (length modkeys))

-- A switch that was made.
pub record Focuses (n : NodeRef) (m : Master) (r : Master × Bool) : Type 0 where
  pub switched : r.1 ≡ true
  pub focused : r.0.focused_node ≡ n
  pub last : r.0.last_focused_node ≡ some m.focused_node
  pub sane : IsSane r.0

module _ (h : Host) (start to : NodeRef) (apart : same_node to start ≡ false) where
  switch-Focuses :
      (modkeys : List ℕ) (via : Bool) (m0 m : Master)
      → m0.focused_node ≡ start
      → Switching start to (is_remote start) (suc (budget modkeys 0)) (suc (budget modkeys 0)) m
      → Focuses to m0 (switch_focus h start to modkeys via m, true)
  unfolding switch_focus transfer_modifiers
  switch-Focuses modkeys via m0 m f s =
      let g = grab_moves h start to via m apart s.grabs in
      let s1 =
        still-Switching start to (is_remote start) (is_remote to) _ _ m (move_grab h start to via m)
          g.0 g.1 g.2 s in
      let s2 = clipboard_moves h start to (is_remote to) apart start to refl refl _ _ _ s1 in
      let s3 =
        keys_to_start h start to (is_remote to) apart start pr_release refl modkeys 0 _ _ s2 in
      let s4 = keys_to_target h start to (is_remote to) apart to pr_press refl modkeys 0 0 _ s3 in
      let m4 = send_keys h to pr_press modkeys (
        send_keys h start pr_release modkeys
          (transfer_clipboard h start to (move_grab h start to via m))) in
      record {
        switched = refl;
        focused = refl;
        last = ap some (s4.focused ∙ sym f);
        sane = record {
          live = λ j e. (subst (λ n. HasRoom 0 n m4) e s4.to_room).0;
          grabs = s4.grabs;
        };
      }

  target-Focuses :
      (modkeys : List ℕ) (via : Bool) (m : Master)
      → m.focused_node ≡ start
      → IsSane m
      → HasRoom (switch_room modkeys) start m
      → HasRoom (switch_room modkeys) to m
      → Focuses to m (focus_target h start to modkeys via m)
  unfolding focus_target
  target-Focuses modkeys via m f s a b =
      let s0 : Switching start to (is_remote start) (switch_room modkeys) (switch_room modkeys) m =
        record { focused = f; grabs = s.grabs ∙ ap is_remote f; start_room = a; to_room = b } in
      rw apart (
        switch-Focuses modkeys via m _ f (
          rw (budget-length modkeys) (
            indicated_switch h start to (is_remote start) apart (suc (length modkeys))
              (suc (length modkeys)) m s0)))

module _ (h : Host) where
  choose_live :
      (n : NodeRef) (k : ℕ) (m : Master) → HasRoom k n m → choose_target h (some n) m ≡ (n, m)
  unfolding choose_target
  choose_live master k m r = refl
  choose_live (remote i) k m r = rw r.0 refl

  -- If the focus is where it should be, is asked to go to another node, and the remotes among the two
  -- are connected with room in their queues for the messages of the switch, then `focus_node` returns
  -- 1, that node has the focus, the last one is the one before, and a remote that has the focus is
  -- still connected, the platform having been last asked to grab the inputs just when a remote has it.
  pub focus-Focuses :
      (n : NodeRef) (modkeys : List ℕ) (via_hotkey : Bool) (m : Master)
      → IsSane m
      → same_node n m.focused_node ≡ false
      → HasRoom (switch_room modkeys) m.focused_node m
      → HasRoom (switch_room modkeys) n m
      → Focuses n m (focus_node h (some n) modkeys via_hotkey m)
  unfolding focus_node
  focus-Focuses n modkeys via_hotkey m s apart a b =
      rw (choose_live n (switch_room modkeys) m b)
        (target-Focuses h m.focused_node n apart modkeys via_hotkey m refl s a b)

  same_node_refl : (n : NodeRef) → same_node n n ≡ true
  same_node_refl master = refl
  same_node_refl (remote i) = ground arith

  indicated-IsSane :
      (b : Bool) (start to : NodeRef) (m : Master) → IsSane m → IsSane (indicated h b start to m)
  indicated-IsSane true start to m s = indicate-IsSane h (some start) to m s
  indicated-IsSane false start to m s = s

  pub stay-IsSane :
      (n : NodeRef) (modkeys : List ℕ) (via : Bool) (m : Master)
      → IsSane m
      → ((focus_target h n n modkeys via m).1 ≡ false) × IsSane (focus_target h n n modkeys via m).0
  unfolding focus_target
  stay-IsSane n modkeys via m s =
      rw (same_node_refl n)
        (refl, indicated-IsSane (shows_nullswitch h h.config.show_nullswitch via) n n m s)

  -- Asked for a remote that is not connected, `focus_node` returns 0; afterwards a remote that has the
  -- focus is connected, and the platform was last asked to grab the inputs just when a remote has it, if
  -- this was so before.
  pub focus_absent-IsSane :
      (i : ℕ) (modkeys : List ℕ) (via_hotkey : Bool) (m : Master)
      → IsSane m
      → is_connected (m.store i).state ≡ false
      → ((focus_node h (some (remote i)) modkeys via_hotkey m).1 ≡ false)
        × IsSane (focus_node h (some (remote i)) modkeys via_hotkey m).0
  unfolding focus_node choose_target
  focus_absent-IsSane i modkeys via_hotkey m s e =
      let m' = (reconnect_remote h i m).0 in
      rw e (stay-IsSane m'.focused_node modkeys via_hotkey m' (reconnect-IsSane h i m s))
