-- ===== src/Keymap/Tests.antt =====
-- A keymap in which two modifiers and a letter are pressed.
use enthrall.Prelude.{ℕ, ◌+◌, ◌==◌, ◌||◌, ◌≡◌, ◌≤◌, refl, true, List, [], ◌∷◌, ◌++◌, length, take}
use enthrall.Hotkeys.{find_hotkey, match_hotkey}
use enthrall.Keymap.{
  Keymap, maxmods, take_key, byte_loop, keymap_loop, get_keymap_modifiers, do_hotkey,
  modmask_to_etkeycodes,
}
use enthrall.Keymap.Collected.{modifiers_of, pressed, get_keymap_modifiers_lem}

-- The keysym is the key code; 9 and 18 are modifiers.
abbrev keymap : Keymap
keymap = record {
  keycode_to_keysym = λ kc. kc;
  is_modifier_key = λ sym. sym == 9 || sym == 18;
  keysym_to_keycode = λ sym. sym + 100;
}

-- The bits 9, 12 and 18.
abbrev state : List ℕ
state = 0 ∷ 18 ∷ 4 ∷ []

collected : get_keymap_modifiers keymap state ≡ 109 ∷ 118 ∷ 0 ∷ []
unfolding get_keymap_modifiers keymap_loop byte_loop take_key
collected = refl

get_keymap_modifiers_lem_example :
    (get_keymap_modifiers keymap state
      ≡ take maxmods (modifiers_of keymap (pressed 0 state)) ++ (0 ∷ []))
    × (length (get_keymap_modifiers keymap state) ≤ maxmods + 1)
get_keymap_modifiers_lem_example = get_keymap_modifiers_lem keymap state

hotkey_called :
    do_hotkey 13
      (λ a ks n. n + a)
      state
      (record { key = 30; modmask = 4; callback = 2 } ∷ [])
      (record { keycode = 30; state = 4 })
      1
    ≡ (3, true)
unfolding do_hotkey find_hotkey match_hotkey
hotkey_called = refl

from_mask :
    modmask_to_etkeycodes
      (record { mask = 1; etkey = 10 }
        ∷ record { mask = 2; etkey = 20 }
        ∷ record { mask = 4; etkey = 30 }
        ∷ [])
      5
    ≡ 10 ∷ 30 ∷ 0 ∷ []
unfolding modmask_to_etkeycodes
from_mask = refl
