-- ===== src/Keycodes.antt =====
-- x11-keycodes.c: the table from X keysyms to keycodes, and its inversion.
pub mod Inverse
pub mod Inversion
pub mod Codes
pub mod Table
pub mod Lookup
pub mod Lossless
mod Tests
use enthrall.Prelude.{
  ℕ, zero, suc, ◌+◌, ◌==◌, ltb, leb, max, Text, Bool, true, false, List, [], ◌∷◌, length, get_or,
  set, replicate, if◌then◌else◌,
}

module _ {A : Type 0} where
  -- The last index of an array initializer and one more, as C counts an array.
  abbrev pub array_length : List (ℕ × A) → ℕ
  array_length [] = 0
  array_length ((i, v) ∷ rest) = max (suc i) (array_length rest)

  abbrev pub store_all : List (ℕ × A) → List A → List A
  store_all [] table = table
  store_all ((i, v) ∷ rest) table = store_all rest (set table i v)

  -- A static array with designated initializers: zeros, then the entries in order.
  unfoldable pub designated : A → List (ℕ × A) → List A
  designated zero_value entries = store_all entries (replicate (array_length entries) zero_value)

-- The loop for `maxkc`.
abbrev pub max_keycode : List ℕ → ℕ → ℕ
max_keycode [] maxkc = maxkc
max_keycode (kc ∷ rest) maxkc = max_keycode rest (if ltb maxkc kc then kc else maxkc)

-- The loop that inverts, from the keysym `i` on.
abbrev pub invert : List ℕ → ℕ → List ℕ → List ℕ
invert [] i table = table
invert (kc ∷ rest) i table = invert rest (i + 1) (if kc == 0 then table else set table kc i)

-- `basic_tokeysym`; its `numents` is the list's length.
unfoldable pub x11_keycodes_init : List ℕ → List ℕ
x11_keycodes_init fromkeysym = invert fromkeysym 0 (replicate (max_keycode fromkeysym 0 + 1) 0)

unfoldable pub keysym_to_keycode : List ℕ → ℕ → ℕ
keysym_to_keycode fromkeysym sym =
    if leb (length fromkeysym) sym then 0 else get_or fromkeysym sym 0

-- `to_xkeycode` is XKeysymToKeycode(3).
unfoldable pub keycode_to_xkeycode : (ℕ → ℕ) → List ℕ → ℕ → ℕ
keycode_to_xkeycode to_xkeycode tokeysym kc =
    if leb (length tokeysym) kc then 0 else to_xkeycode (get_or tokeysym kc 0)
