-- ===== src/Master/Send.antt =====
-- main.c: the messages that the master sends to a remote. A null remote is `none`.
use enthrall.Prelude.{
  ℕ, zero, suc, ◌==◌, ◌||◌, Text, Bool, true, false, Option, none, some, if◌then◌else◌,
}
use enthrall.Prelude.Int.{ℤ, pos, negsuc, abs}
use enthrall.Message.{
  Message, new_message, moverel, clickevent, keyevent, setclipboard, setbrightness, setloglevel,
}
use enthrall.Master.{NodeRef, master, remote, sets_display_brightness, Host, Master, act}
use enthrall.Master.Remotes.{enqueue_message}

abbrev pub mb_scrollup : ℕ
mb_scrollup = 3

abbrev pub mb_scrolldown : ℕ
mb_scrolldown = 4

abbrev pub pr_press : ℕ
pr_press = 1

abbrev pub pr_release : ℕ
pr_release = 2

abbrev pub is_negative : ℤ → Bool
is_negative (pos n) = false
is_negative (negsuc n) = true

abbrev is_scroll : ℕ → Bool
is_scroll button = button == mb_scrollup || button == mb_scrolldown

-- How often an event goes out, and with which button: `scrollmult` counts and may turn the wheel.
unfoldable pub click_count : ℕ → ℤ → ℕ
click_count button scrollmult = if is_scroll button then abs scrollmult else 1

unfoldable pub click_button : ℕ → ℤ → ℕ
click_button button scrollmult =
    if is_scroll button
    then if is_negative scrollmult
      then if button == mb_scrollup then mb_scrolldown else mb_scrollup
      else button
    else button

module _ (h : Host) where
  abbrev pub send_to : Option ℕ → Message → Master → Master
  send_to none msg m = m
  send_to (some i) msg m = enqueue_message h i msg m

  unfoldable pub send_keyevent : Option ℕ → (keycode pressrel : ℕ) → Master → Master
  send_keyevent rmt kc pr m = send_to rmt (new_message (keyevent kc pr)) m

  unfoldable pub send_moverel : Option ℕ → ℤ → ℤ → Master → Master
  send_moverel rmt dx dy m = send_to rmt (new_message (moverel dx dy)) m

  abbrev pub enqueue_times : ℕ → ℕ → Message → Master → Master
  enqueue_times zero i msg m = m
  enqueue_times (suc n) i msg m = enqueue_times n i msg (enqueue_message h i msg m)

  unfoldable pub send_clickevent : Option ℕ → (button pressrel : ℕ) → Master → Master
  send_clickevent none button pr m = m
  send_clickevent (some i) button pr m =
      let mult = (m.store i).scrollmult in
      enqueue_times (click_count button mult) i
        (new_message (clickevent (click_button button mult) pr)) m

  unfoldable pub send_setbrightness : Option ℕ → ℕ → Master → Master
  send_setbrightness rmt f m = send_to rmt (new_message (setbrightness f)) m

  unfoldable pub send_setclipboard : Option ℕ → Text → Master → Master
  send_setclipboard rmt text m = send_to rmt (new_message (setclipboard text)) m

  unfoldable pub send_setloglevel : Option ℕ → ℕ → Master → Master
  send_setloglevel rmt level m = send_to rmt (new_message (setloglevel level)) m

  unfoldable pub set_node_display_brightness : NodeRef → ℕ → Master → Master
  set_node_display_brightness master f m = act (sets_display_brightness f) m
  set_node_display_brightness (remote i) f m = send_setbrightness (some i) f m
