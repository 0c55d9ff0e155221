-- ===== src/Keycodes/Tests.antt =====
-- A small table: two keysyms have one keycode.
use enthrall.Prelude.{◌*◌, Text, ℕ, ◌+◌, ◌≡◌, refl, List, [], ◌∷◌, inl, inr}
use enthrall.Keycodes.{designated, x11_keycodes_init, keysym_to_keycode, keycode_to_xkeycode}
use enthrall.Keycodes.Lookup.{IsFunctional, keys_differ-IsFunctional}
use enthrall.Keycodes.Table.{keysym_rows, basic_fromkeysym}
use enthrall.Keycodes.Lossless.{entries_of, keysym_returns}

abbrev table : List ℕ
table = 0 ∷ 7 ∷ 0 ∷ 2 ∷ 7 ∷ []

as_designated : designated 0 ((3, 2) ∷ (1, 7) ∷ (4, 7) ∷ []) ≡ table
unfolding designated
as_designated = refl

-- Numbers for the names: their characters as digits.
abbrev digits_of : Text → ℕ → ℕ
digits_of [] n = n
digits_of (c ∷ t) n = digits_of t (n * 256 + c)

abbrev number : Text → ℕ
number t = digits_of t 0

numbers_differ : IsFunctional (entries_of number keysym_rows)
numbers_differ = keys_differ-IsFunctional (entries_of number keysym_rows) refl

keysym_returns_example :
    (keysym_to_keycode (basic_fromkeysym number) 98 ≡ 2)
    × (keycode_to_xkeycode (λ n. 8 + n) (x11_keycodes_init (basic_fromkeysym number)) 2 ≡ 8 + 98)
keysym_returns_example =
    keysym_returns number (λ n. 8 + n) 98 2 numbers_differ (inr (inl (refl, refl)))
