-- ===== src/Keycodes/Table.antt =====
-- x11-keycodes.c: the table `basic_fromkeysym`.
use enthrall.Prelude.{ℕ, Text, codes, List, [], ◌∷◌, map}
use enthrall.Keycodes.{designated}
use enthrall.Keycodes.Codes.{
  Keycode, keycode_value, et_a, et_b, et_c, et_d, et_e, et_f, et_g, et_h, et_i, et_j, et_k, et_l,
  et_m, et_n, et_o, et_p, et_q, et_r, et_s, et_t, et_u, et_v, et_w, et_x, et_y, et_z, et_upper_a,
  et_upper_b, et_upper_c, et_upper_d, et_upper_e, et_upper_f, et_upper_g, et_upper_h, et_upper_i,
  et_upper_j, et_upper_k, et_upper_l, et_upper_m, et_upper_n, et_upper_o, et_upper_p, et_upper_q,
  et_upper_r, et_upper_s, et_upper_t, et_upper_u, et_upper_v, et_upper_w, et_upper_x, et_upper_y,
  et_upper_z, et_0, et_1, et_2, et_3, et_4, et_5, et_6, et_7, et_8, et_9, et_backtick, et_tilde,
  et_exclpt, et_atsign, et_numsign, et_dollar, et_percent, et_caret, et_ampersand, et_asterisk,
  et_leftparen, et_rightparen, et_dash, et_underscore, et_plus, et_equal, et_leftbracket,
  et_leftbrace, et_rightbracket, et_rightbrace, et_backslash, et_pipe, et_semicolon, et_colon,
  et_singlequote, et_doublequote, et_comma, et_lessthan, et_period, et_greaterthan, et_slash,
  et_qstmark, et_leftshift, et_rightshift, et_leftcontrol, et_rightcontrol, et_leftmod1,
  et_rightmod1, et_leftmod2, et_rightmod2, et_leftmod3, et_rightmod3, et_leftmod4, et_rightmod4,
  et_space, et_return, et_tab, et_escape, et_left, et_right, et_up, et_down, et_backspace,
  et_delete, et_insert, et_home, et_end, et_pageup, et_pagedown, et_kp_0, et_kp_1, et_kp_2, et_kp_3,
  et_kp_4, et_kp_5, et_kp_6, et_kp_7, et_kp_8, et_kp_9, et_kp_equal, et_kp_divide, et_kp_multiply,
  et_kp_subtract, et_kp_add, et_kp_enter, et_kp_dot, et_f1, et_f2, et_f3, et_f4, et_f5, et_f6,
  et_f7, et_f8, et_f9, et_f10, et_f11, et_f12, et_f13, et_f14, et_f15, et_f16, et_f17, et_f18,
  et_f19, et_f20, et_f21, et_f22, et_f23, et_f24, et_f25, et_f26, et_f27, et_f28, et_f29, et_f30,
}

-- An entry: the keysym's name without the prefix of X11/keysymdef.h, and the keycode.
pub record Row : Type 0 where
  pub keysym : Text
  pub key : Keycode

abbrev row : Text → Keycode → Row
row keysym key = record { keysym = keysym; key = key }

abbrev pub keysym_rows : List Row
keysym_rows =
    row (codes "a") et_a
    ∷ row (codes "b") et_b
    ∷ row (codes "c") et_c
    ∷ row (codes "d") et_d
    ∷ row (codes "e") et_e
    ∷ row (codes "f") et_f
    ∷ row (codes "g") et_g
    ∷ row (codes "h") et_h
    ∷ row (codes "i") et_i
    ∷ row (codes "j") et_j
    ∷ row (codes "k") et_k
    ∷ row (codes "l") et_l
    ∷ row (codes "m") et_m
    ∷ row (codes "n") et_n
    ∷ row (codes "o") et_o
    ∷ row (codes "p") et_p
    ∷ row (codes "q") et_q
    ∷ row (codes "r") et_r
    ∷ row (codes "s") et_s
    ∷ row (codes "t") et_t
    ∷ row (codes "u") et_u
    ∷ row (codes "v") et_v
    ∷ row (codes "w") et_w
    ∷ row (codes "x") et_x
    ∷ row (codes "y") et_y
    ∷ row (codes "z") et_z
    ∷ row (codes "A") et_upper_a
    ∷ row (codes "B") et_upper_b
    ∷ row (codes "C") et_upper_c
    ∷ row (codes "D") et_upper_d
    ∷ row (codes "E") et_upper_e
    ∷ row (codes "F") et_upper_f
    ∷ row (codes "G") et_upper_g
    ∷ row (codes "H") et_upper_h
    ∷ row (codes "I") et_upper_i
    ∷ row (codes "J") et_upper_j
    ∷ row (codes "K") et_upper_k
    ∷ row (codes "L") et_upper_l
    ∷ row (codes "M") et_upper_m
    ∷ row (codes "N") et_upper_n
    ∷ row (codes "O") et_upper_o
    ∷ row (codes "P") et_upper_p
    ∷ row (codes "Q") et_upper_q
    ∷ row (codes "R") et_upper_r
    ∷ row (codes "S") et_upper_s
    ∷ row (codes "T") et_upper_t
    ∷ row (codes "U") et_upper_u
    ∷ row (codes "V") et_upper_v
    ∷ row (codes "W") et_upper_w
    ∷ row (codes "X") et_upper_x
    ∷ row (codes "Y") et_upper_y
    ∷ row (codes "Z") et_upper_z
    ∷ row (codes "0") et_0
    ∷ row (codes "1") et_1
    ∷ row (codes "2") et_2
    ∷ row (codes "3") et_3
    ∷ row (codes "4") et_4
    ∷ row (codes "5") et_5
    ∷ row (codes "6") et_6
    ∷ row (codes "7") et_7
    ∷ row (codes "8") et_8
    ∷ row (codes "9") et_9
    ∷ row (codes "grave") et_backtick
    ∷ row (codes "asciitilde") et_tilde
    ∷ row (codes "exclam") et_exclpt
    ∷ row (codes "at") et_atsign
    ∷ row (codes "numbersign") et_numsign
    ∷ row (codes "dollar") et_dollar
    ∷ row (codes "percent") et_percent
    ∷ row (codes "asciicircum") et_caret
    ∷ row (codes "ampersand") et_ampersand
    ∷ row (codes "asterisk") et_asterisk
    ∷ row (codes "parenleft") et_leftparen
    ∷ row (codes "parenright") et_rightparen
    ∷ row (codes "minus") et_dash
    ∷ row (codes "underscore") et_underscore
    ∷ row (codes "plus") et_plus
    ∷ row (codes "equal") et_equal
    ∷ row (codes "bracketleft") et_leftbracket
    ∷ row (codes "braceleft") et_leftbrace
    ∷ row (codes "bracketright") et_rightbracket
    ∷ row (codes "braceright") et_rightbrace
    ∷ row (codes "backslash") et_backslash
    ∷ row (codes "bar") et_pipe
    ∷ row (codes "semicolon") et_semicolon
    ∷ row (codes "colon") et_colon
    ∷ row (codes "apostrophe") et_singlequote
    ∷ row (codes "quotedbl") et_doublequote
    ∷ row (codes "comma") et_comma
    ∷ row (codes "less") et_lessthan
    ∷ row (codes "period") et_period
    ∷ row (codes "greater") et_greaterthan
    ∷ row (codes "slash") et_slash
    ∷ row (codes "question") et_qstmark
    ∷ row (codes "Shift_L") et_leftshift
    ∷ row (codes "Shift_R") et_rightshift
    ∷ row (codes "Control_L") et_leftcontrol
    ∷ row (codes "Control_R") et_rightcontrol
    ∷ row (codes "Meta_L") et_leftmod1
    ∷ row (codes "Meta_R") et_rightmod1
    ∷ row (codes "Alt_L") et_leftmod2
    ∷ row (codes "Alt_R") et_rightmod2
    ∷ row (codes "Super_L") et_leftmod3
    ∷ row (codes "Super_R") et_rightmod3
    ∷ row (codes "Hyper_L") et_leftmod4
    ∷ row (codes "Hyper_R") et_rightmod4
    ∷ row (codes "space") et_space
    ∷ row (codes "Return") et_return
    ∷ row (codes "Tab") et_tab
    ∷ row (codes "Escape") et_escape
    ∷ row (codes "Left") et_left
    ∷ row (codes "Right") et_right
    ∷ row (codes "Up") et_up
    ∷ row (codes "Down") et_down
    ∷ row (codes "BackSpace") et_backspace
    ∷ row (codes "Delete") et_delete
    ∷ row (codes "Insert") et_insert
    ∷ row (codes "Home") et_home
    ∷ row (codes "End") et_end
    ∷ row (codes "Page_Up") et_pageup
    ∷ row (codes "Page_Down") et_pagedown
    ∷ row (codes "F1") et_f1
    ∷ row (codes "F2") et_f2
    ∷ row (codes "F3") et_f3
    ∷ row (codes "F4") et_f4
    ∷ row (codes "F5") et_f5
    ∷ row (codes "F6") et_f6
    ∷ row (codes "F7") et_f7
    ∷ row (codes "F8") et_f8
    ∷ row (codes "F9") et_f9
    ∷ row (codes "F10") et_f10
    ∷ row (codes "F11") et_f11
    ∷ row (codes "F12") et_f12
    ∷ row (codes "F13") et_f13
    ∷ row (codes "F14") et_f14
    ∷ row (codes "F15") et_f15
    ∷ row (codes "F16") et_f16
    ∷ row (codes "F17") et_f17
    ∷ row (codes "F18") et_f18
    ∷ row (codes "F19") et_f19
    ∷ row (codes "F20") et_f20
    ∷ row (codes "F21") et_f21
    ∷ row (codes "F22") et_f22
    ∷ row (codes "F23") et_f23
    ∷ row (codes "F24") et_f24
    ∷ row (codes "F25") et_f25
    ∷ row (codes "F26") et_f26
    ∷ row (codes "F27") et_f27
    ∷ row (codes "F28") et_f28
    ∷ row (codes "F29") et_f29
    ∷ row (codes "F30") et_f30
    ∷ row (codes "KP_0") et_kp_0
    ∷ row (codes "KP_1") et_kp_1
    ∷ row (codes "KP_2") et_kp_2
    ∷ row (codes "KP_3") et_kp_3
    ∷ row (codes "KP_4") et_kp_4
    ∷ row (codes "KP_5") et_kp_5
    ∷ row (codes "KP_6") et_kp_6
    ∷ row (codes "KP_7") et_kp_7
    ∷ row (codes "KP_8") et_kp_8
    ∷ row (codes "KP_9") et_kp_9
    ∷ row (codes "KP_Equal") et_kp_equal
    ∷ row (codes "KP_Divide") et_kp_divide
    ∷ row (codes "KP_Multiply") et_kp_multiply
    ∷ row (codes "KP_Subtract") et_kp_subtract
    ∷ row (codes "KP_Add") et_kp_add
    ∷ row (codes "KP_Enter") et_kp_enter
    ∷ row (codes "KP_Separator") et_kp_dot
    ∷ []

-- The header of X gives each name a number.
unfoldable pub basic_fromkeysym : (Text → ℕ) → List ℕ
basic_fromkeysym xk = designated 0 (map (λ r. (xk r.keysym, keycode_value r.key)) keysym_rows)
