-- ===== src/Keystring/OsxSearch.antt =====
-- osx-keycodes.c: parse_keystring gives the code of the key, which it shifts on the way so that 0 is none.
use enthrall.Prelude.{ℕ, Text, Option, none, some, List, [], ◌∷◌}
use enthrall.Keystring.Described.{with_mask}
use enthrall.Keystring.OsxKeys.{osx_string_to_keycode}

module _ (vk : Text → ℕ) where
  -- What the pieces mean, without the shift.
  abbrev pub osx_single : List Text → ℕ → Option (ℕ × ℕ)
  osx_single [] modmask = some (0, modmask)
  osx_single (t ∷ []) modmask = with_mask modmask (osx_string_to_keycode vk t)
  osx_single (t ∷ u ∷ us) modmask = none
