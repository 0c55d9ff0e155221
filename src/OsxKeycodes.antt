-- ===== src/OsxKeycodes.antt =====
-- osx-keycodes.c: the table from keycodes to the codes of OS X, its inversion, and the names of keys in
-- the configuration.
pub mod Table
pub mod Physical
mod Tests
use enthrall.Prelude.{
  ℕ, zero, suc, ◌+◌, ◌-◌, ◌==◌, ltb, leb, Bool, true, false, ◌||◌, List, [], ◌∷◌, length, get_or,
  set, replicate, if◌then◌else◌,
}
use enthrall.OsxKeycodes.Table.{Entry, unmapped}

-- The loop for `maxcgkc`.
abbrev pub max_cgkeycode : List Entry → ℕ → ℕ
max_cgkeycode [] maxcgkc = maxcgkc
max_cgkeycode (e ∷ rest) maxcgkc =
    max_cgkeycode rest
      (if e.kc == 0 then maxcgkc else if ltb maxcgkc (e.kc - 1) then e.kc - 1 else maxcgkc)

-- The loop that inverts, from the keycode `i` on.
abbrev pub invert : List Entry → ℕ → List ℕ → List ℕ
invert [] i table = table
invert (e ∷ rest) i table =
    invert rest (i + 1) (if e.kc == 0 || e.nobackmap then table else set table (e.kc - 1) i)

-- `basic_fromcgkeycode`; its `numents` is the list's length.
unfoldable pub osx_keycodes_init : List Entry → List ℕ
osx_keycodes_init tocgkeycode = invert tocgkeycode 0 (replicate (max_cgkeycode tocgkeycode 0 + 1) 0)

-- `kVK_NULL`
abbrev pub kvk_null : ℕ
kvk_null = 65535

unfoldable pub etkeycode_to_cgkeycode : List Entry → ℕ → ℕ
etkeycode_to_cgkeycode tocgkeycode kc =
    if leb (length tocgkeycode) kc
    then kvk_null
    else if (get_or tocgkeycode kc unmapped).kc == 0
    then kvk_null
    else (get_or tocgkeycode kc unmapped).kc - 1

unfoldable pub cgkeycode_to_etkeycode : List ℕ → ℕ → ℕ
cgkeycode_to_etkeycode fromcgkeycode kc =
    if leb (length fromcgkeycode) kc then 0 else get_or fromcgkeycode kc 0
