-- ===== src/OsxKeycodes/Table.antt =====
-- osx-keycodes.c: the table `basic_tocgkeycode`.
use enthrall.Prelude.{ℕ, ◌+◌, ◌%◌, ◌^◌, Text, codes, Bool, true, false, List, [], ◌∷◌, map}
use enthrall.Keycodes.{designated}
use enthrall.Keycodes.Codes.{
  Keycode, keycode_value, et_a, et_b, et_c, et_d, et_e, et_f, et_g, et_h, et_i, et_j, et_k, et_l,
  et_m, et_n, et_o, et_p, et_q, et_r, et_s, et_t, et_u, et_v, et_w, et_x, et_y, et_z, et_upper_a,
  et_upper_b, et_upper_c, et_upper_d, et_upper_e, et_upper_f, et_upper_g, et_upper_h, et_upper_i,
  et_upper_j, et_upper_k, et_upper_l, et_upper_m, et_upper_n, et_upper_o, et_upper_p, et_upper_q,
  et_upper_r, et_upper_s, et_upper_t, et_upper_u, et_upper_v, et_upper_w, et_upper_x, et_upper_y,
  et_upper_z, et_0, et_1, et_2, et_3, et_4, et_5, et_6, et_7, et_8, et_9, et_backtick, et_tilde,
  et_exclpt, et_atsign, et_numsign, et_dollar, et_percent, et_caret, et_ampersand, et_asterisk,
  et_leftparen, et_rightparen, et_dash, et_underscore, et_plus, et_equal, et_leftbracket,
  et_leftbrace, et_rightbracket, et_rightbrace, et_backslash, et_pipe, et_semicolon, et_colon,
  et_singlequote, et_doublequote, et_comma, et_lessthan, et_period, et_greaterthan, et_slash,
  et_qstmark, et_leftshift, et_rightshift, et_leftcontrol, et_rightcontrol, et_leftmod2,
  et_rightmod2, et_leftmod3, et_rightmod3, et_space, et_return, et_tab, et_escape, et_left,
  et_right, et_up, et_down, et_backspace, et_delete, et_home, et_end, et_pageup, et_pagedown,
  et_kp_0, et_kp_1, et_kp_2, et_kp_3, et_kp_4, et_kp_5, et_kp_6, et_kp_7, et_kp_8, et_kp_9,
  et_kp_equal, et_kp_divide, et_kp_multiply, et_kp_subtract, et_kp_add, et_kp_enter, et_kp_dot,
  et_f1, et_f2, et_f3, et_f4, et_f5, et_f6, et_f7, et_f8, et_f9, et_f10, et_f11, et_f12, et_f13,
  et_f14, et_f15, et_f16, et_f17, et_f18, et_f19, et_f20,
}

-- An entry: the keycode, the name of the key without the prefix of the Carbon header, and the flag.
pub record Row : Type 0 where
  pub key : Keycode
  pub name : Text
  pub nobackmap : Bool

abbrev osxkey : Keycode → Text → Bool → Row
osxkey key name nobackmap = record { key = key; name = name; nobackmap = nobackmap }

abbrev pub cgkeycode_rows : List Row
cgkeycode_rows =
    osxkey et_a (codes "ANSI_A") false
    ∷ osxkey et_b (codes "ANSI_B") false
    ∷ osxkey et_c (codes "ANSI_C") false
    ∷ osxkey et_d (codes "ANSI_D") false
    ∷ osxkey et_e (codes "ANSI_E") false
    ∷ osxkey et_f (codes "ANSI_F") false
    ∷ osxkey et_g (codes "ANSI_G") false
    ∷ osxkey et_h (codes "ANSI_H") false
    ∷ osxkey et_i (codes "ANSI_I") false
    ∷ osxkey et_j (codes "ANSI_J") false
    ∷ osxkey et_k (codes "ANSI_K") false
    ∷ osxkey et_l (codes "ANSI_L") false
    ∷ osxkey et_m (codes "ANSI_M") false
    ∷ osxkey et_n (codes "ANSI_N") false
    ∷ osxkey et_o (codes "ANSI_O") false
    ∷ osxkey et_p (codes "ANSI_P") false
    ∷ osxkey et_q (codes "ANSI_Q") false
    ∷ osxkey et_r (codes "ANSI_R") false
    ∷ osxkey et_s (codes "ANSI_S") false
    ∷ osxkey et_t (codes "ANSI_T") false
    ∷ osxkey et_u (codes "ANSI_U") false
    ∷ osxkey et_v (codes "ANSI_V") false
    ∷ osxkey et_w (codes "ANSI_W") false
    ∷ osxkey et_x (codes "ANSI_X") false
    ∷ osxkey et_y (codes "ANSI_Y") false
    ∷ osxkey et_z (codes "ANSI_Z") false
    ∷ osxkey et_upper_a (codes "ANSI_A") false
    ∷ osxkey et_upper_b (codes "ANSI_B") false
    ∷ osxkey et_upper_c (codes "ANSI_C") false
    ∷ osxkey et_upper_d (codes "ANSI_D") false
    ∷ osxkey et_upper_e (codes "ANSI_E") false
    ∷ osxkey et_upper_f (codes "ANSI_F") false
    ∷ osxkey et_upper_g (codes "ANSI_G") false
    ∷ osxkey et_upper_h (codes "ANSI_H") false
    ∷ osxkey et_upper_i (codes "ANSI_I") false
    ∷ osxkey et_upper_j (codes "ANSI_J") false
    ∷ osxkey et_upper_k (codes "ANSI_K") false
    ∷ osxkey et_upper_l (codes "ANSI_L") false
    ∷ osxkey et_upper_m (codes "ANSI_M") false
    ∷ osxkey et_upper_n (codes "ANSI_N") false
    ∷ osxkey et_upper_o (codes "ANSI_O") false
    ∷ osxkey et_upper_p (codes "ANSI_P") false
    ∷ osxkey et_upper_q (codes "ANSI_Q") false
    ∷ osxkey et_upper_r (codes "ANSI_R") false
    ∷ osxkey et_upper_s (codes "ANSI_S") false
    ∷ osxkey et_upper_t (codes "ANSI_T") false
    ∷ osxkey et_upper_u (codes "ANSI_U") false
    ∷ osxkey et_upper_v (codes "ANSI_V") false
    ∷ osxkey et_upper_w (codes "ANSI_W") false
    ∷ osxkey et_upper_x (codes "ANSI_X") false
    ∷ osxkey et_upper_y (codes "ANSI_Y") false
    ∷ osxkey et_upper_z (codes "ANSI_Z") false
    ∷ osxkey et_0 (codes "ANSI_0") false
    ∷ osxkey et_1 (codes "ANSI_1") false
    ∷ osxkey et_2 (codes "ANSI_2") false
    ∷ osxkey et_3 (codes "ANSI_3") false
    ∷ osxkey et_4 (codes "ANSI_4") false
    ∷ osxkey et_5 (codes "ANSI_5") false
    ∷ osxkey et_6 (codes "ANSI_6") false
    ∷ osxkey et_7 (codes "ANSI_7") false
    ∷ osxkey et_8 (codes "ANSI_8") false
    ∷ osxkey et_9 (codes "ANSI_9") false
    ∷ osxkey et_backtick (codes "ANSI_Grave") false
    ∷ osxkey et_tilde (codes "ANSI_Grave") false
    ∷ osxkey et_exclpt (codes "ANSI_1") false
    ∷ osxkey et_atsign (codes "ANSI_2") false
    ∷ osxkey et_numsign (codes "ANSI_3") false
    ∷ osxkey et_dollar (codes "ANSI_4") false
    ∷ osxkey et_percent (codes "ANSI_5") false
    ∷ osxkey et_caret (codes "ANSI_6") false
    ∷ osxkey et_ampersand (codes "ANSI_7") false
    ∷ osxkey et_asterisk (codes "ANSI_8") false
    ∷ osxkey et_leftparen (codes "ANSI_9") true
    ∷ osxkey et_rightparen (codes "ANSI_0") true
    ∷ osxkey et_dash (codes "ANSI_Minus") false
    ∷ osxkey et_underscore (codes "ANSI_Minus") false
    ∷ osxkey et_plus (codes "ANSI_Equal") false
    ∷ osxkey et_equal (codes "ANSI_Equal") false
    ∷ osxkey et_leftbracket (codes "ANSI_LeftBracket") false
    ∷ osxkey et_leftbrace (codes "ANSI_LeftBracket") false
    ∷ osxkey et_rightbracket (codes "ANSI_RightBracket") false
    ∷ osxkey et_rightbrace (codes "ANSI_RightBracket") false
    ∷ osxkey et_backslash (codes "ANSI_Backslash") false
    ∷ osxkey et_pipe (codes "ANSI_Backslash") false
    ∷ osxkey et_semicolon (codes "ANSI_Semicolon") false
    ∷ osxkey et_colon (codes "ANSI_Semicolon") false
    ∷ osxkey et_singlequote (codes "ANSI_Quote") false
    ∷ osxkey et_doublequote (codes "ANSI_Quote") false
    ∷ osxkey et_comma (codes "ANSI_Comma") false
    ∷ osxkey et_lessthan (codes "ANSI_Comma") true
    ∷ osxkey et_period (codes "ANSI_Period") false
    ∷ osxkey et_greaterthan (codes "ANSI_Period") false
    ∷ osxkey et_slash (codes "ANSI_Slash") false
    ∷ osxkey et_qstmark (codes "ANSI_Slash") false
    ∷ osxkey et_leftcontrol (codes "Control") false
    ∷ osxkey et_rightcontrol (codes "RightControl") false
    ∷ osxkey et_leftshift (codes "Shift") false
    ∷ osxkey et_rightshift (codes "RightShift") false
    ∷ osxkey et_leftmod2 (codes "Command") false
    ∷ osxkey et_rightmod2 (codes "Command") false
    ∷ osxkey et_leftmod3 (codes "Option") false
    ∷ osxkey et_rightmod3 (codes "RightOption") false
    ∷ osxkey et_space (codes "Space") false
    ∷ osxkey et_return (codes "Return") false
    ∷ osxkey et_tab (codes "Tab") false
    ∷ osxkey et_escape (codes "Escape") false
    ∷ osxkey et_left (codes "LeftArrow") false
    ∷ osxkey et_right (codes "RightArrow") false
    ∷ osxkey et_up (codes "UpArrow") false
    ∷ osxkey et_down (codes "DownArrow") false
    ∷ osxkey et_backspace (codes "Delete") false
    ∷ osxkey et_delete (codes "ForwardDelete") false
    ∷ osxkey et_home (codes "Home") false
    ∷ osxkey et_end (codes "End") false
    ∷ osxkey et_pageup (codes "PageUp") false
    ∷ osxkey et_pagedown (codes "PageDown") false
    ∷ osxkey et_f1 (codes "F1") false
    ∷ osxkey et_f2 (codes "F2") false
    ∷ osxkey et_f3 (codes "F3") false
    ∷ osxkey et_f4 (codes "F4") false
    ∷ osxkey et_f5 (codes "F5") false
    ∷ osxkey et_f6 (codes "F6") false
    ∷ osxkey et_f7 (codes "F7") false
    ∷ osxkey et_f8 (codes "F8") false
    ∷ osxkey et_f9 (codes "F9") false
    ∷ osxkey et_f10 (codes "F10") false
    ∷ osxkey et_f11 (codes "F11") false
    ∷ osxkey et_f12 (codes "F12") false
    ∷ osxkey et_f13 (codes "F13") false
    ∷ osxkey et_f14 (codes "F14") false
    ∷ osxkey et_f15 (codes "F15") false
    ∷ osxkey et_f16 (codes "F16") false
    ∷ osxkey et_f17 (codes "F17") false
    ∷ osxkey et_f18 (codes "F18") false
    ∷ osxkey et_f19 (codes "F19") false
    ∷ osxkey et_f20 (codes "F20") false
    ∷ osxkey et_kp_0 (codes "ANSI_Keypad0") false
    ∷ osxkey et_kp_1 (codes "ANSI_Keypad1") false
    ∷ osxkey et_kp_2 (codes "ANSI_Keypad2") false
    ∷ osxkey et_kp_3 (codes "ANSI_Keypad3") false
    ∷ osxkey et_kp_4 (codes "ANSI_Keypad4") false
    ∷ osxkey et_kp_5 (codes "ANSI_Keypad5") false
    ∷ osxkey et_kp_6 (codes "ANSI_Keypad6") false
    ∷ osxkey et_kp_7 (codes "ANSI_Keypad7") false
    ∷ osxkey et_kp_8 (codes "ANSI_Keypad8") false
    ∷ osxkey et_kp_9 (codes "ANSI_Keypad9") false
    ∷ osxkey et_kp_dot (codes "ANSI_KeypadDecimal") false
    ∷ osxkey et_kp_multiply (codes "ANSI_KeypadMultiply") false
    ∷ osxkey et_kp_divide (codes "ANSI_KeypadDivide") false
    ∷ osxkey et_kp_add (codes "ANSI_KeypadPlus") false
    ∷ osxkey et_kp_subtract (codes "ANSI_KeypadMinus") false
    ∷ osxkey et_kp_enter (codes "ANSI_KeypadEnter") false
    ∷ osxkey et_kp_equal (codes "ANSI_KeypadEquals") false
    ∷ []

-- The type of the table's entries: the shifted code, and the flag.
pub record Entry : Type 0 where
  pub kc : ℕ
  pub nobackmap : Bool

-- What the array holds where nothing is written.
abbrev pub unmapped : Entry
unmapped = record { kc = 0; nobackmap = false }

-- `kcshift`, into a CGKeyCode of 16 bits.
abbrev pub shifted : ℕ → ℕ
shifted k = (k + 1) % 2 ^ 16

-- The header gives each name a number.
abbrev pub entry_of : (Text → ℕ) → Row → Entry
entry_of vk r = record { kc = shifted (vk r.name); nobackmap = r.nobackmap }

unfoldable pub basic_tocgkeycode : (Text → ℕ) → List Entry
basic_tocgkeycode vk =
    designated unmapped (map (λ r. (keycode_value r.key, entry_of vk r)) cgkeycode_rows)
