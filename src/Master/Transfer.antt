-- ===== src/Master/Transfer.antt =====
-- main.c: the messages of a focus switch, where the two nodes' channels have room for them.
use enthrall.Prelude.{
  ℕ, suc, ◌≡◌, refl, ap, Bool, true, false, none, some, List, [], ◌∷◌, length, if◌then◌else◌,
}
use enthrall.Master.{NodeRef, master, remote, same_node, Host, Master}
use enthrall.Master.Remotes.{dims}
use enthrall.Master.Send.{
  send_keyevent, send_setbrightness, send_setclipboard, set_node_display_brightness,
}
use enthrall.Master.Focus.{transfer_clipboard, send_keys, move_grab, indicated}
use enthrall.Master.Showing.{grabbed, indicate-keeps}
use enthrall.Master.Sane.{is_remote}
use enthrall.Master.Focusing.{Switching, still-Switching, less_start, less_to, to_start, to_target}

-- The room that one message for each key takes, besides `a`.
abbrev pub budget : List ℕ → ℕ → ℕ
budget [] a = a
budget (k ∷ keys) a = suc (budget keys a)

pub budget-length : (keys : List ℕ) → budget keys 0 ≡ length keys
budget-length [] = refl
budget-length (k ∷ keys) = ap suc (budget-length keys)

module _ (h : Host) (start to : NodeRef) (g : Bool) (apart : same_node to start ≡ false) where
  pub keys_to_start :
      (n : NodeRef) (pr : ℕ)
      → start ≡ n
      → (keys : List ℕ) (a b : ℕ) (m : Master) → Switching start to g (budget keys a) b m
      → Switching start to g a b (send_keys h n pr keys m)
  unfolding send_keyevent
  keys_to_start master pr e [] a b m s = s
  keys_to_start master pr e (k ∷ keys) a b m s =
      keys_to_start master pr e keys a b m (less_start h start to g apart (budget keys a) b m s)
  keys_to_start (remote i) pr e [] a b m s = s
  keys_to_start (remote i) pr e (k ∷ keys) a b m s =
      keys_to_start (remote i) pr e keys a b _
        (to_start h start to g apart i e (budget keys a) b _ m s)

  pub keys_to_target :
      (n : NodeRef) (pr : ℕ)
      → to ≡ n
      → (keys : List ℕ) (a b : ℕ) (m : Master) → Switching start to g a (budget keys b) m
      → Switching start to g a b (send_keys h n pr keys m)
  unfolding send_keyevent
  keys_to_target master pr e [] a b m s = s
  keys_to_target master pr e (k ∷ keys) a b m s =
      keys_to_target master pr e keys a b m (less_to h start to g apart a (budget keys b) m s)
  keys_to_target (remote i) pr e [] a b m s = s
  keys_to_target (remote i) pr e (k ∷ keys) a b m s =
      keys_to_target (remote i) pr e keys a b _
        (to_target h start to g apart i e a (budget keys b) _ m s)

  pub clipboard_moves :
      (n k : NodeRef)
      → start ≡ n
      → to ≡ k
      → (a b : ℕ) (m : Master) → Switching start to g (suc a) (suc b) m
      → Switching start to g a b (transfer_clipboard h n k m)
  unfolding transfer_clipboard send_setclipboard
  clipboard_moves master master e f a b m s =
      less_start h start to g apart a b m (less_to h start to g apart (suc a) b m s)
  clipboard_moves master (remote j) e f a b m s =
      to_target h start to g apart j f a b _ m (less_start h start to g apart a (suc b) m s)
  clipboard_moves (remote i) k e f a b m s =
      to_start h start to g apart i e a b _ m (less_to h start to g apart (suc a) b m s)

  show_start :
      (n : NodeRef)
      → start ≡ n
      → (a b f : ℕ) (m : Master) → Switching start to g (suc a) b m
      → Switching start to g a b (set_node_display_brightness h n f m)
  unfolding set_node_display_brightness send_setbrightness
  show_start master e a b f m s =
      less_start h start to g apart a b _
        (still-Switching start to g g (suc a) b m _ refl refl s.grabs s)
  show_start (remote i) e a b f m s = to_start h start to g apart i e a b _ m s

  show_target :
      (n : NodeRef)
      → to ≡ n
      → (a b f : ℕ) (m : Master) → Switching start to g a (suc b) m
      → Switching start to g a b (set_node_display_brightness h n f m)
  unfolding set_node_display_brightness send_setbrightness
  show_target master e a b f m s =
      less_to h start to g apart a b _
        (still-Switching start to g g a (suc b) m _ refl refl s.grabs s)
  show_target (remote i) e a b f m s = to_target h start to g apart i e a b _ m s

  dimmed_start : (n : NodeRef) → dims h (some start) to ≡ some n → start ≡ n
  dimmed_start n e = by_same (same_node start to) e
    where
      by_same : (b : Bool) → (if b then none else some start) ≡ some n → start ≡ n
      by_same true e = cc
      by_same false e = cc

  -- The hints come before the grab changes.
  pub indicated_switch :
      (a b : ℕ) (m : Master)
      → Switching start to g (suc a) (suc b) m
      → Switching start to g a b (indicated h true start to m)
  indicated_switch a b m s =
      indicate-keeps h (Switching start to g a (suc b)) (Switching start to g a b)
        (λ node f delay m p. still-Switching start to g g a (suc b) m _ refl refl p.grabs p)
        (λ node f delay m p. still-Switching start to g g a b m _ refl refl p.grabs p)
        (set_node_display_brightness h) (some start) to m
        (λ n f e. show_start n (dimmed_start n e) a (suc b) f m s)
        (λ f m' p. show_target to refl a b f m' p) (λ m' p. less_to h start to g apart a b m' p)
        (less_start h start to g apart a (suc b) m s)

pub grab_moves :
    (h : Host) (start to : NodeRef) (via : Bool) (m : Master)
    → same_node to start ≡ false
    → grabbed m.effects ≡ is_remote start
    → ((move_grab h start to via m).store ≡ m.store)
      × ((move_grab h start to via m).focused_node ≡ m.focused_node)
      × (grabbed (move_grab h start to via m).effects ≡ is_remote to)
grab_moves h master master via m n e = cc
grab_moves h master (remote j) via m n e = (refl, refl, refl)
grab_moves h (remote i) master via m n e = (refl, refl, refl)
grab_moves h (remote i) (remote j) via m n e = (refl, refl, e)
