-- ===== src/Hotkeys.antt =====
-- x11.c: the hotkeys that are bound, and how a key event finds one. `A` is what a hotkey calls:
-- function and argument together.
pub mod Binding
mod Tests
use Prim.Native.Nat.{bit_and}
use enthrall.Prelude.{
  ℕ, ◌==◌, Bool, true, false, ◌&&◌, Option, none, some, List, [], ◌∷◌, if◌then◌else◌,
}

-- `struct xhotkey`; its link is the list.
pub record Xhotkey (A : Type 0) : Type 0 where
  pub key : ℕ
  pub modmask : ℕ
  pub callback : A

-- What is looked at of an `XKeyEvent`.
pub record KeyEvent : Type 0 where
  pub keycode : ℕ
  pub state : ℕ

-- `relevant` is `relevant_modmask`.
module _ {A : Type 0} (relevant : ℕ) where
  unfoldable pub match_hotkey : Xhotkey A → KeyEvent → Bool
  match_hotkey hk kev =
      kev.keycode == hk.key && bit_and kev.state relevant == bit_and hk.modmask relevant

  unfoldable pub find_hotkey : List (Xhotkey A) → KeyEvent → Option (Xhotkey A)
  find_hotkey [] kev = none
  find_hotkey (k ∷ rest) kev =
      let later = find_hotkey rest kev in if match_hotkey k kev then some k else later

  -- The end of `bind_hotkey`, by the search for a collision. A hotkey whose grab fails stays on the
  -- list; the caller exits then.
  abbrev pub bind_unless :
      Option (Xhotkey A)
      → (ℕ × ℕ)
      → A
      → (grabbed : Bool) → List (Xhotkey A)
      → List (Xhotkey A) × Bool
  bind_unless (some k) parsed callback grabbed hotkeys = (hotkeys, false)
  bind_unless none (kc, modmask) callback grabbed hotkeys =
      (record { key = kc; modmask = modmask; callback = callback } ∷ hotkeys, grabbed)

  -- `parsed` is what `parse_keystring` makes of the string, and `grabbed` whether the X server grants
  -- the key; the flag is the result 0.
  unfoldable pub bind_hotkey :
      (parsed : Option (ℕ × ℕ)) → A → (grabbed : Bool) → List (Xhotkey A) → List (Xhotkey A) × Bool
  bind_hotkey none callback grabbed hotkeys = (hotkeys, false)
  bind_hotkey (some (kc, modmask)) callback grabbed hotkeys =
      bind_unless (find_hotkey hotkeys (record { keycode = kc; state = modmask })) (kc, modmask)
        callback grabbed hotkeys
