-- ===== src/Keystring/OsxKeys.antt =====
-- osx-keycodes.c: osx_string_to_keycode and its two tables, and parse_keystring with them.
use enthrall.Prelude.{
  ℕ, ◌+◌, ◌-◌, ◌==◌, ltb, Text, codes, str_eq, Option, none, some, List, [], ◌∷◌, map, length,
  get_or, if◌then◌else◌,
}
use enthrall.Keycodes.{designated}
use enthrall.OsxKeycodes.Table.{shifted}
use enthrall.Keystring.{Modifier, parse_keystring}

-- A character and the name of its key, without the prefix of the Carbon header.
pub record Single : Type 0 where
  pub char : ℕ
  pub code : Text

abbrev letter : ℕ → Text → Single
letter char code = record { char = char; code = code }

abbrev pub singlechars : List Single
singlechars =
    letter 48 (codes "ANSI_0")
    ∷ letter 49 (codes "ANSI_1")
    ∷ letter 50 (codes "ANSI_2")
    ∷ letter 51 (codes "ANSI_3")
    ∷ letter 52 (codes "ANSI_4")
    ∷ letter 53 (codes "ANSI_5")
    ∷ letter 54 (codes "ANSI_6")
    ∷ letter 55 (codes "ANSI_7")
    ∷ letter 56 (codes "ANSI_8")
    ∷ letter 57 (codes "ANSI_9")
    ∷ letter 97 (codes "ANSI_A")
    ∷ letter 98 (codes "ANSI_B")
    ∷ letter 99 (codes "ANSI_C")
    ∷ letter 100 (codes "ANSI_D")
    ∷ letter 101 (codes "ANSI_E")
    ∷ letter 102 (codes "ANSI_F")
    ∷ letter 103 (codes "ANSI_G")
    ∷ letter 104 (codes "ANSI_H")
    ∷ letter 105 (codes "ANSI_I")
    ∷ letter 106 (codes "ANSI_J")
    ∷ letter 107 (codes "ANSI_K")
    ∷ letter 108 (codes "ANSI_L")
    ∷ letter 109 (codes "ANSI_M")
    ∷ letter 110 (codes "ANSI_N")
    ∷ letter 111 (codes "ANSI_O")
    ∷ letter 112 (codes "ANSI_P")
    ∷ letter 113 (codes "ANSI_Q")
    ∷ letter 114 (codes "ANSI_R")
    ∷ letter 115 (codes "ANSI_S")
    ∷ letter 116 (codes "ANSI_T")
    ∷ letter 117 (codes "ANSI_U")
    ∷ letter 118 (codes "ANSI_V")
    ∷ letter 119 (codes "ANSI_W")
    ∷ letter 120 (codes "ANSI_X")
    ∷ letter 121 (codes "ANSI_Y")
    ∷ letter 122 (codes "ANSI_Z")
    ∷ []

-- A longer name, and that of its key.
pub record Named : Type 0 where
  pub str : Text
  pub code : Text

abbrev named : Text → Text → Named
named str code = record { str = str; code = code }

abbrev pub keys : List Named
keys =
    named (codes "Equal") (codes "ANSI_Equal")
    ∷ named (codes "Minus") (codes "ANSI_Minus")
    ∷ named (codes "RightBracket") (codes "ANSI_RightBracket")
    ∷ named (codes "LeftBracket") (codes "ANSI_LeftBracket")
    ∷ named (codes "Quote") (codes "ANSI_Quote")
    ∷ named (codes "Semicolon") (codes "ANSI_Semicolon")
    ∷ named (codes "Backslash") (codes "ANSI_Backslash")
    ∷ named (codes "Comma") (codes "ANSI_Comma")
    ∷ named (codes "Slash") (codes "ANSI_Slash")
    ∷ named (codes "Period") (codes "ANSI_Period")
    ∷ named (codes "Grave") (codes "ANSI_Grave")
    ∷ named (codes "KPDecimal") (codes "ANSI_KeypadDecimal")
    ∷ named (codes "KPMultiply") (codes "ANSI_KeypadMultiply")
    ∷ named (codes "KPPlus") (codes "ANSI_KeypadPlus")
    ∷ named (codes "KPClear") (codes "ANSI_KeypadClear")
    ∷ named (codes "KPDivide") (codes "ANSI_KeypadDivide")
    ∷ named (codes "KPEnter") (codes "ANSI_KeypadEnter")
    ∷ named (codes "KPMinus") (codes "ANSI_KeypadMinus")
    ∷ named (codes "KPEquals") (codes "ANSI_KeypadEquals")
    ∷ named (codes "KP0") (codes "ANSI_Keypad0")
    ∷ named (codes "KP1") (codes "ANSI_Keypad1")
    ∷ named (codes "KP2") (codes "ANSI_Keypad2")
    ∷ named (codes "KP3") (codes "ANSI_Keypad3")
    ∷ named (codes "KP4") (codes "ANSI_Keypad4")
    ∷ named (codes "KP5") (codes "ANSI_Keypad5")
    ∷ named (codes "KP6") (codes "ANSI_Keypad6")
    ∷ named (codes "KP7") (codes "ANSI_Keypad7")
    ∷ named (codes "KP8") (codes "ANSI_Keypad8")
    ∷ named (codes "KP9") (codes "ANSI_Keypad9")
    ∷ named (codes "Return") (codes "Return")
    ∷ named (codes "Tab") (codes "Tab")
    ∷ named (codes "Space") (codes "Space")
    ∷ named (codes "Delete") (codes "Delete")
    ∷ named (codes "Escape") (codes "Escape")
    ∷ named (codes "Command") (codes "Command")
    ∷ named (codes "Shift") (codes "Shift")
    ∷ named (codes "CapsLock") (codes "CapsLock")
    ∷ named (codes "Option") (codes "Option")
    ∷ named (codes "Control") (codes "Control")
    ∷ named (codes "RightShift") (codes "RightShift")
    ∷ named (codes "RightOption") (codes "RightOption")
    ∷ named (codes "RightControl") (codes "RightControl")
    ∷ named (codes "Function") (codes "Function")
    ∷ named (codes "VolumeUp") (codes "VolumeUp")
    ∷ named (codes "VolumeDown") (codes "VolumeDown")
    ∷ named (codes "Mute") (codes "Mute")
    ∷ named (codes "Help") (codes "Help")
    ∷ named (codes "Home") (codes "Home")
    ∷ named (codes "PageUp") (codes "PageUp")
    ∷ named (codes "ForwardDelete") (codes "ForwardDelete")
    ∷ named (codes "End") (codes "End")
    ∷ named (codes "PageDown") (codes "PageDown")
    ∷ named (codes "LeftArrow") (codes "LeftArrow")
    ∷ named (codes "RightArrow") (codes "RightArrow")
    ∷ named (codes "DownArrow") (codes "DownArrow")
    ∷ named (codes "UpArrow") (codes "UpArrow")
    ∷ named (codes "F1") (codes "F1")
    ∷ named (codes "F2") (codes "F2")
    ∷ named (codes "F3") (codes "F3")
    ∷ named (codes "F4") (codes "F4")
    ∷ named (codes "F5") (codes "F5")
    ∷ named (codes "F6") (codes "F6")
    ∷ named (codes "F7") (codes "F7")
    ∷ named (codes "F8") (codes "F8")
    ∷ named (codes "F9") (codes "F9")
    ∷ named (codes "F10") (codes "F10")
    ∷ named (codes "F11") (codes "F11")
    ∷ named (codes "F12") (codes "F12")
    ∷ named (codes "F13") (codes "F13")
    ∷ named (codes "F14") (codes "F14")
    ∷ named (codes "F15") (codes "F15")
    ∷ named (codes "F16") (codes "F16")
    ∷ named (codes "F17") (codes "F17")
    ∷ named (codes "F18") (codes "F18")
    ∷ named (codes "F19") (codes "F19")
    ∷ named (codes "F20") (codes "F20")
    ∷ []

-- `osx_modifiers`, with the four masks of the header.
abbrev pub osx_modifiers : (command shift option control : ℕ) → List Modifier
osx_modifiers command shift option control =
    record { name = codes "command"; mask = command }
    ∷ record { name = codes "shift"; mask = shift }
    ∷ record { name = codes "option"; mask = option }
    ∷ record { name = codes "control"; mask = control }
    ∷ []

abbrev pub kcunshift : ℕ → ℕ
kcunshift kc = if kc == 0 then 0 else kc - 1

abbrev pub unshift_result : Option (Option (ℕ × ℕ)) → Option (Option (ℕ × ℕ))
unshift_result none = none
unshift_result (some none) = some none
unshift_result (some (some (kc, modmask))) = some (some (kcunshift kc, modmask))

-- The header gives each name a number.
module _ (vk : Text → ℕ) where
  -- The array `singlechars`, with its codes shifted by one.
  abbrev pub single_table : List ℕ
  single_table = designated 0 (map (λ (r : Single). (r.char, vk r.code + 1)) singlechars)

  abbrev pub unshift : ℕ → Option ℕ
  unshift shifted_code = if shifted_code == 0 then none else some (shifted_code - 1)

  abbrev pub search_keys : List Named → Text → Option ℕ
  search_keys [] str = none
  search_keys (r ∷ rest) str =
      let later = search_keys rest str in if str_eq str r.str then some (vk r.code) else later

  -- `none` is the status -1.
  unfoldable pub osx_string_to_keycode : Text → Option ℕ
  osx_string_to_keycode [] = search_keys keys []
  osx_string_to_keycode (idx ∷ []) =
      if ltb idx (length single_table) then unshift (get_or single_table idx 0) else none
  osx_string_to_keycode (c ∷ d ∷ str) = search_keys keys (c ∷ d ∷ str)

  abbrev pub osx_take_key : Text → ℕ → Option ℕ
  osx_take_key tmp kc = elim (osx_string_to_keycode tmp) [
    | none ↦ none
    | some code ↦ if kc == 0 then some (shifted code) else none
  ]

  unfoldable pub osx_parse_keystring : List Modifier → Text → Option (Option (ℕ × ℕ))
  osx_parse_keystring modifiers ks = unshift_result (parse_keystring modifiers osx_take_key ks)
