-- ===== src/Keystring.antt =====
-- x11.c and osx-keycodes.c: parse_keystring, which reads the name of a hotkey. The two files have the same
-- loop over the pieces of the string, with a table of modifiers and a search for keys of their own.
pub mod Described
pub mod XKeys
pub mod OsxKeys
pub mod OsxSearch
mod Tests
use Prim.Native.Nat.{bit_or}
use enthrall.Prelude.{
  ℕ, zero, suc, ◌+◌, ◌-◌, ◌==◌, leb, ltb, Text, codes, str_eq, Bool, true, false, ◌&&◌, Option,
  none, some, List, [], ◌∷◌, map, length, if◌then◌else◌,
}

-- tolower(3) in the C locale, and `!strcasecmp(a, b)`.
abbrev pub to_lower : ℕ → ℕ
to_lower c = if leb 65 c && leb c 90 then c + 32 else c

abbrev pub str_case_eq : Text → Text → Bool
str_case_eq a b = str_eq (map to_lower a) (map to_lower b)

-- The character `+`.
abbrev pub plus : ℕ
plus = 43

-- The `strcspn(k, "+")` characters that are copied to `tmp`.
abbrev pub component : Text → Text
component [] = []
component (c ∷ k) = let rest = component k in if c == plus then [] else c ∷ rest

-- `k += klen`
abbrev pub after_component : Text → Text
after_component [] = []
after_component (c ∷ k) = let rest = after_component k in if c == plus then c ∷ k else rest

abbrev pub skip_plus : Text → Text
skip_plus [] = []
skip_plus (c ∷ k) = k

-- An entry of the table of modifiers.
pub record Modifier : Type 0 where
  pub name : Text
  pub mask : ℕ

abbrev pub find_modifier : List Modifier → Text → Option ℕ
find_modifier [] tmp = none
find_modifier (m ∷ rest) tmp =
    let later = find_modifier rest tmp in if str_case_eq m.name tmp then some m.mask else later

-- `take_key` is what the loop makes of a piece that names no modifier, and of the key before it, 0 where
-- there is none; it is `none` where the loop ends with an error.
module _ (modifiers : List Modifier) (take_key : Text → ℕ → Option ℕ) where
  -- The outer `none` is a count that is not enough, and the inner one the status -1.
  unfoldable pub parse_loop : ℕ → Text → (kc modmask : ℕ) → Option (Option (ℕ × ℕ))
  parse_loop fuel [] kc modmask = some (some (kc, modmask))
  parse_loop zero (c ∷ k) kc modmask = none
  parse_loop (suc fuel) (c ∷ k) kc modmask =
      let tmp = component (c ∷ k) in
      let rest = skip_plus (after_component (c ∷ k)) in
      elim (find_modifier modifiers tmp) [
        | some mask ↦ parse_loop fuel rest kc (bit_or modmask mask)
        | none ↦ elim (take_key tmp kc) [
          | none ↦ some none
          | some kc' ↦ parse_loop fuel rest kc' modmask
        ]
      ]

  -- Each round takes a character at least, so the string's length is enough.
  unfoldable pub parse_keystring : Text → Option (Option (ℕ × ℕ))
  parse_keystring ks = parse_loop (length ks) ks 0 0
