-- ===== src/Hotkeys/Tests.antt =====
-- Two keys with one key code and different modifiers; the bit 16 is not relevant.
use enthrall.Prelude.{ℕ, ◌≡◌, refl, [], ◌∷◌, some}
use enthrall.Hotkeys.{Xhotkey, find_hotkey, match_hotkey}
use enthrall.Hotkeys.Binding.{IsUnambiguous}

abbrev first : Xhotkey ℕ
first = record { key = 30; modmask = 4; callback = 1 }

abbrev second : Xhotkey ℕ
second = record { key = 30; modmask = 5; callback = 2 }

found : find_hotkey 13 (second ∷ first ∷ []) (record { keycode = 30; state = 20 }) ≡ some first
unfolding find_hotkey match_hotkey
found = refl

no_other : IsUnambiguous 13 (first ∷ [])
unfolding find_hotkey
no_other = (λ kev m. refl, tt)
