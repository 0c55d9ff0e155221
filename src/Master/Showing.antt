-- ===== src/Master/Showing.antt =====
-- main.c: the visual hints only schedule calls and show a brightness, so they keep what these keep.
use enthrall.Prelude.{
  ℕ, zero, suc, ◌+◌, ◌-◌, ◌≡◌, refl, ◌∙◌, Bool, true, false, Option, none, some, List, [], ◌∷◌,
}
use enthrall.Master.{
  NodeRef, master, FocusHint, fh_none, fh_dim_inactive, fh_flash_active, set_brightness_cb, Effect,
  grabs_inputs, ungrabs_inputs, sets_display_brightness, sets_clipboard, sets_mousepos, closes,
  kills, logs, exits, aborts, float_one, Host, Master, schedule,
}
use enthrall.Master.Remotes.{
  fade, transition_brightness, dims, dim_from, indicate_by, indicate_switch, show_master,
  focus_master,
}

-- Whether the last request on the inputs was to grab them; the latest effect stands first.
abbrev pub grabbed : List Effect → Bool
grabbed [] = false
grabbed (grabs_inputs ∷ es) = true
grabbed (ungrabs_inputs restore ∷ es) = false
grabbed (sets_display_brightness f ∷ es) = grabbed es
grabbed (sets_clipboard t ∷ es) = grabbed es
grabbed (sets_mousepos pt ∷ es) = grabbed es
grabbed (closes fd ∷ es) = grabbed es
grabbed (kills pid ∷ es) = grabbed es
grabbed (logs t ∷ es) = grabbed es
grabbed (exits ∷ es) = grabbed es
grabbed (aborts ∷ es) = grabbed es

-- The children that were killed and waited for, the latest first.
abbrev pub killings : List Effect → List ℕ
killings [] = []
killings (kills pid ∷ es) = pid ∷ killings es
killings (grabs_inputs ∷ es) = killings es
killings (ungrabs_inputs restore ∷ es) = killings es
killings (sets_display_brightness f ∷ es) = killings es
killings (sets_clipboard t ∷ es) = killings es
killings (sets_mousepos pt ∷ es) = killings es
killings (closes fd ∷ es) = killings es
killings (logs t ∷ es) = killings es
killings (exits ∷ es) = killings es
killings (aborts ∷ es) = killings es

module _ (h : Host) where
  -- What stays when a brightness change is scheduled.
  abbrev pub Waits : (Master → Type 0) → Type 0
  Waits P =
      (node : NodeRef) (f delay : ℕ) (m : Master)
      → P m
      → P (schedule h (set_brightness_cb node f) delay m)

  fade-keeps :
      (P : Master → Type 0)
      → Waits P
      → (node : NodeRef) (start stop duration steps k i : ℕ) (m : Master) → P m
      → P (fade h node start stop duration steps k i m)
  fade-keeps P w node start stop duration steps zero i m p = p
  fade-keeps P w node start stop duration steps (suc k) i m p =
      fade-keeps P w node start stop duration steps k (i + 1) _ (w node _ _ m p)

  pub transition-keeps :
      (P : Master → Type 0)
      → Waits P
      → (show : NodeRef → ℕ → Master → Master)
      → (node : NodeRef) (start stop duration steps : ℕ) (m : Master) → P (show node start m)
      → P (transition_brightness h show node start stop duration steps m)
  unfolding transition_brightness
  transition-keeps P w show node start stop duration steps m p =
      w node stop duration _ (fade-keeps P w node start stop duration steps (steps - 1) 1 _ p)

  -- The nodes that a switch dims.
  abbrev pub Dimmed : Option NodeRef → NodeRef → NodeRef → Type 0
  Dimmed start to n = dims h start to ≡ some n

  dim-keeps :
      (P : Master → Type 0)
      → Waits P
      → (show : NodeRef → ℕ → Master → Master) → (start : Option NodeRef) (b d s : ℕ) (m : Master)
      → ((n : NodeRef) (f : ℕ) → start ≡ some n → P (show n f m))
      → P m
      → P (dim_from h show start b d s m)
  dim-keeps P w show none b d s m k p = p
  dim-keeps P w show (some n) b d s m k p =
      transition-keeps P w show n float_one b d s m (k n float_one refl)

  indicate_by-keeps :
      (P Q : Master → Type 0)
      → Waits P
      → Waits Q
      → (hint : FocusHint) → (show : NodeRef → ℕ → Master → Master)
      → (start : Option NodeRef) (to : NodeRef) (m : Master)
      → ((n : NodeRef) (f : ℕ) → Dimmed start to n → P (show n f m))
      → ((f : ℕ) (m' : Master) → P m' → Q (show to f m'))
      → ((m' : Master) → P m' → Q m')
      → P m
      → Q (indicate_by h hint show start to m)
  indicate_by-keeps P Q w v fh_none show start to m k l e p = e m p
  indicate_by-keeps P Q w v (fh_dim_inactive b d s) show start to m k l e p =
      transition-keeps Q v show to b float_one d s _
        (l b _ (dim-keeps P w show (dims h start to) b d s m k p))
  indicate_by-keeps P Q w v (fh_flash_active b d s) show start to m k l e p =
      transition-keeps Q v show to b float_one d s m (l b m p)

  pub indicate-keeps :
      (P Q : Master → Type 0)
      → Waits P
      → Waits Q
      → (show : NodeRef → ℕ → Master → Master)
      → (start : Option NodeRef) (to : NodeRef) (m : Master)
      → ((n : NodeRef) (f : ℕ) → Dimmed start to n → P (show n f m))
      → ((f : ℕ) (m' : Master) → P m' → Q (show to f m'))
      → ((m' : Master) → P m' → Q m')
      → P m
      → Q (indicate_switch h show start to m)
  unfolding indicate_switch
  indicate-keeps P Q w v show start to m k l e p =
      indicate_by-keeps P Q w v h.config.focus_hint show start to m k l e p

  -- What `focus_master` makes of a state.
  pub record FocusesMaster (m m' : Master) : Type 0 where
    pub stored : m'.store ≡ m.store
    pub listed : m'.remotes ≡ m.remotes
    pub focused : m'.focused_node ≡ master
    pub last : m'.last_focused_node ≡ some m.focused_node
    pub released : grabbed m'.effects ≡ false
    pub killed : killings m'.effects ≡ killings m.effects

  pub focus_master-FocusesMaster : (m : Master) → FocusesMaster m (focus_master h m)
  unfolding focus_master
  focus_master-FocusesMaster m =
      let copy : (m' m'' : Master)
          → m''.store ≡ m'.store
          → m''.remotes ≡ m'.remotes
          → m''.focused_node ≡ m'.focused_node
          → m''.last_focused_node ≡ m'.last_focused_node
          → grabbed m''.effects ≡ grabbed m'.effects
          → killings m''.effects ≡ killings m'.effects
          → FocusesMaster m m'
          → FocusesMaster m m'' =
        λ m' m'' a b c d e g p. record {
          stored = a ∙ p.stored;
          listed = b ∙ p.listed;
          focused = c ∙ p.focused;
          last = d ∙ p.last;
          released = e ∙ p.released;
          killed = g ∙ p.killed;
        } in
      let w : Waits (FocusesMaster m) =
        λ node f delay m' p. copy m' _ refl refl refl refl refl refl p in
      indicate-keeps (FocusesMaster m) (FocusesMaster m) w w (show_master h) none master _
        (λ n f e. record {
          stored = refl;
          listed = refl;
          focused = refl;
          last = refl;
          released = refl;
          killed = refl;
        })
        (λ f m' p. copy m' _ refl refl refl refl refl refl p) (λ m' p. p)
        record {
          stored = refl;
          listed = refl;
          focused = refl;
          last = refl;
          released = refl;
          killed = refl;
        }
