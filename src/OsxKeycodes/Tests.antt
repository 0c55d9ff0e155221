-- ===== src/OsxKeycodes/Tests.antt =====
-- A small table: two keycodes have one code, and the first of them is not mapped back.
use enthrall.Prelude.{ℕ, ◌≡◌, refl, Bool, true, false, List, [], ◌∷◌, inl, inr}
use enthrall.OsxKeycodes.{osx_keycodes_init, etkeycode_to_cgkeycode, cgkeycode_to_etkeycode}
use enthrall.OsxKeycodes.Table.{Entry, unmapped}
use enthrall.OsxKeycodes.Physical.{cgkeycode_returns}

abbrev entry : ℕ → Bool → Entry
entry kc nobackmap = record { kc = kc; nobackmap = nobackmap }

abbrev table : List Entry
table = unmapped ∷ entry 5 true ∷ entry 1 false ∷ entry 5 false ∷ []

-- The code 4 belongs to the keycode 3, although 1 comes first.
mapped_back : cgkeycode_to_etkeycode (osx_keycodes_init table) 4 ≡ 3
unfolding osx_keycodes_init cgkeycode_to_etkeycode
mapped_back = refl

cgkeycode_returns_example :
    etkeycode_to_cgkeycode table (cgkeycode_to_etkeycode (osx_keycodes_init table) 4) ≡ 4
cgkeycode_returns_example = cgkeycode_returns table 4 (inr (inr (inr (inl refl))))
