-- ===== src/Keymap.antt =====
-- x11.c and osx-keycodes.c: the modifier keys that are pressed, as a list of keycodes that ends with ET_null.
pub mod Collected
mod Tests
use Prim.Native.Nat.{bit_and}
use enthrall.Prelude.{
  ℕ, zero, suc, ◌+◌, ◌*◌, ◌/◌, ◌%◌, ◌^◌, ◌==◌, ltb, Bool, true, false, not, Option, none, some,
  List, [], ◌∷◌, ◌++◌, length, if◌then◌else◌,
}
use enthrall.Hotkeys.{Xhotkey, KeyEvent, find_hotkey}

-- XkbKeycodeToKeysym(3), the macro IsModifierKey, and keysym_to_keycode of x11-keycodes.c.
pub record Keymap : Type 0 where
  pub keycode_to_keysym : ℕ → ℕ
  pub is_modifier_key : ℕ → Bool
  pub keysym_to_keycode : ℕ → ℕ

-- Two for each of the eight modifiers.
abbrev pub maxmods : ℕ
maxmods = 8 * 2

-- `modkeys` as far as it is written, and whether `goto out` was reached.
pub record Modkeys : Type 0 where
  pub keys : List ℕ
  pub out : Bool

abbrev pub bits : List ℕ
bits = 0 ∷ 1 ∷ 2 ∷ 3 ∷ 4 ∷ 5 ∷ 6 ∷ 7 ∷ []

abbrev pub has_bit : ℕ → ℕ → Bool
has_bit byte bit = byte / 2 ^ bit % 2 == 1

module _ (x : Keymap) where
  abbrev pub add_key : ℕ → Modkeys → Modkeys
  add_key etk c =
      if etk == 0
      then c
      else record { keys = c.keys ++ (etk ∷ []); out = length (c.keys ++ (etk ∷ [])) == maxmods }

  -- What is done for a key that is pressed.
  unfoldable pub take_key : ℕ → Modkeys → Modkeys
  take_key kc c =
      let sym = x.keycode_to_keysym kc in
      if x.is_modifier_key sym then add_key (x.keysym_to_keycode sym) c else c

  -- The inner loop, which the `goto` leaves.
  unfoldable pub byte_loop : (i byte : ℕ) → List ℕ → Modkeys → Modkeys
  byte_loop i byte [] c = c
  byte_loop i byte (bit ∷ rest) c =
      let c' = if has_bit byte bit then take_key (i * 8 + bit) c else c in
      let later = byte_loop i byte rest c' in if c'.out then c' else later

  -- The outer loop, from the byte `i` on.
  unfoldable pub keymap_loop : ℕ → List ℕ → Modkeys → Modkeys
  keymap_loop i [] c = c
  keymap_loop i (byte ∷ rest) c =
      let c' = if byte == 0 then c else byte_loop i byte bits c in
      let later = keymap_loop (i + 1) rest c' in if c'.out then c' else later

  unfoldable pub get_keymap_modifiers : List ℕ → List ℕ
  get_keymap_modifiers keymap_state =
      (keymap_loop 0 keymap_state (record { keys = []; out = false })).keys ++ (0 ∷ [])

-- `do_hotkey`: the callback of the hotkey that is found is called with the keymap, which the server is
-- asked for.
abbrev pub call_hotkey :
    {A : Type 0} {W : Type 0} → (A → List ℕ → W → W) → List ℕ → Option (Xhotkey A) → W → W × Bool
call_hotkey callback keymap_state none w = (w, false)
call_hotkey callback keymap_state (some k) w = (callback k.callback keymap_state w, true)

unfoldable pub do_hotkey :
    {A : Type 0} {W : Type 0}
    → (relevant : ℕ) → (A → List ℕ → W → W)
    → List ℕ
    → List (Xhotkey A)
    → KeyEvent
    → W
    → W × Bool
do_hotkey relevant callback keymap_state hotkeys kev w =
    call_hotkey callback keymap_state (find_hotkey relevant hotkeys kev) w

-- An entry of `osx_modifiers`, by its mask and its keycode.
pub record OsxModifier : Type 0 where
  pub mask : ℕ
  pub etkey : ℕ

abbrev pub etkeycodes_loop : List OsxModifier → ℕ → List ℕ
etkeycodes_loop [] modmask = []
etkeycodes_loop (m ∷ rest) modmask =
    let later = etkeycodes_loop rest modmask in
    if bit_and modmask m.mask == 0 then later else m.etkey ∷ later

unfoldable pub modmask_to_etkeycodes : List OsxModifier → ℕ → List ℕ
modmask_to_etkeycodes modifiers modmask = etkeycodes_loop modifiers modmask ++ (0 ∷ [])
