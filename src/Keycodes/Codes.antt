-- ===== src/Keycodes/Codes.antt =====
-- keycodes.h: the platform-independent keycodes.
use enthrall.Prelude.{ℕ, leb, Bool, ◌&&◌}

-- The enumeration. A capital letter is `upper` here.
pub data Keycode : Type 0 where
  et_null et_a et_b et_c et_d et_e et_f et_g et_h et_i et_j et_k et_l et_m et_n et_o : Keycode
  et_p et_q et_r et_s et_t et_u et_v et_w et_x et_y et_z et_upper_a et_upper_b : Keycode
  et_upper_c et_upper_d et_upper_e et_upper_f et_upper_g et_upper_h et_upper_i : Keycode
  et_upper_j et_upper_k et_upper_l et_upper_m et_upper_n et_upper_o et_upper_p : Keycode
  et_upper_q et_upper_r et_upper_s et_upper_t et_upper_u et_upper_v et_upper_w : Keycode
  et_upper_x et_upper_y et_upper_z et_0 et_1 et_2 et_3 et_4 et_5 et_6 et_7 et_8 et_9 : Keycode
  et_backtick et_tilde et_exclpt et_atsign et_numsign et_dollar et_percent et_caret : Keycode
  et_ampersand et_asterisk et_leftparen et_rightparen et_dash et_underscore et_plus : Keycode
  et_equal et_leftbracket et_leftbrace et_rightbracket et_rightbrace et_backslash : Keycode
  et_pipe et_semicolon et_colon et_singlequote et_doublequote et_comma et_lessthan : Keycode
  et_period et_greaterthan et_slash et_qstmark et_leftshift et_rightshift : Keycode
  et_leftcontrol et_rightcontrol et_leftmod1 et_rightmod1 et_leftmod2 et_rightmod2 : Keycode
  et_leftmod3 et_rightmod3 et_leftmod4 et_rightmod4 et_leftmod5 et_rightmod5 et_space : Keycode
  et_return et_tab et_escape et_left et_right et_up et_down et_backspace et_delete : Keycode
  et_insert et_home et_end et_pageup et_pagedown et_kp_0 et_kp_1 et_kp_2 et_kp_3 : Keycode
  et_kp_4 et_kp_5 et_kp_6 et_kp_7 et_kp_8 et_kp_9 et_kp_equal et_kp_divide : Keycode
  et_kp_multiply et_kp_subtract et_kp_add et_kp_enter et_kp_dot et_f1 et_f2 et_f3 : Keycode
  et_f4 et_f5 et_f6 et_f7 et_f8 et_f9 et_f10 et_f11 et_f12 et_f13 et_f14 et_f15 : Keycode
  et_f16 et_f17 et_f18 et_f19 et_f20 et_f21 et_f22 et_f23 et_f24 et_f25 et_f26 et_f27 : Keycode
  et_f28 et_f29 et_f30 et_eject et_volumeup et_volumedown et_mute et_playpause : Keycode
  et_fastforward et_rewind et_brightnessup et_brightnessdown : Keycode

-- `keycode_t`: each constant's value.
abbrev pub keycode_value : Keycode → ℕ
keycode_value et_null = 0
keycode_value et_a = 1
keycode_value et_b = 2
keycode_value et_c = 3
keycode_value et_d = 4
keycode_value et_e = 5
keycode_value et_f = 6
keycode_value et_g = 7
keycode_value et_h = 8
keycode_value et_i = 9
keycode_value et_j = 10
keycode_value et_k = 11
keycode_value et_l = 12
keycode_value et_m = 13
keycode_value et_n = 14
keycode_value et_o = 15
keycode_value et_p = 16
keycode_value et_q = 17
keycode_value et_r = 18
keycode_value et_s = 19
keycode_value et_t = 20
keycode_value et_u = 21
keycode_value et_v = 22
keycode_value et_w = 23
keycode_value et_x = 24
keycode_value et_y = 25
keycode_value et_z = 26
keycode_value et_upper_a = 27
keycode_value et_upper_b = 28
keycode_value et_upper_c = 29
keycode_value et_upper_d = 30
keycode_value et_upper_e = 31
keycode_value et_upper_f = 32
keycode_value et_upper_g = 33
keycode_value et_upper_h = 34
keycode_value et_upper_i = 35
keycode_value et_upper_j = 36
keycode_value et_upper_k = 37
keycode_value et_upper_l = 38
keycode_value et_upper_m = 39
keycode_value et_upper_n = 40
keycode_value et_upper_o = 41
keycode_value et_upper_p = 42
keycode_value et_upper_q = 43
keycode_value et_upper_r = 44
keycode_value et_upper_s = 45
keycode_value et_upper_t = 46
keycode_value et_upper_u = 47
keycode_value et_upper_v = 48
keycode_value et_upper_w = 49
keycode_value et_upper_x = 50
keycode_value et_upper_y = 51
keycode_value et_upper_z = 52
keycode_value et_0 = 53
keycode_value et_1 = 54
keycode_value et_2 = 55
keycode_value et_3 = 56
keycode_value et_4 = 57
keycode_value et_5 = 58
keycode_value et_6 = 59
keycode_value et_7 = 60
keycode_value et_8 = 61
keycode_value et_9 = 62
keycode_value et_backtick = 63
keycode_value et_tilde = 64
keycode_value et_exclpt = 65
keycode_value et_atsign = 66
keycode_value et_numsign = 67
keycode_value et_dollar = 68
keycode_value et_percent = 69
keycode_value et_caret = 70
keycode_value et_ampersand = 71
keycode_value et_asterisk = 72
keycode_value et_leftparen = 73
keycode_value et_rightparen = 74
keycode_value et_dash = 75
keycode_value et_underscore = 76
keycode_value et_plus = 77
keycode_value et_equal = 78
keycode_value et_leftbracket = 79
keycode_value et_leftbrace = 80
keycode_value et_rightbracket = 81
keycode_value et_rightbrace = 82
keycode_value et_backslash = 83
keycode_value et_pipe = 84
keycode_value et_semicolon = 85
keycode_value et_colon = 86
keycode_value et_singlequote = 87
keycode_value et_doublequote = 88
keycode_value et_comma = 89
keycode_value et_lessthan = 90
keycode_value et_period = 91
keycode_value et_greaterthan = 92
keycode_value et_slash = 93
keycode_value et_qstmark = 94
keycode_value et_leftshift = 95
keycode_value et_rightshift = 96
keycode_value et_leftcontrol = 97
keycode_value et_rightcontrol = 98
keycode_value et_leftmod1 = 99
keycode_value et_rightmod1 = 100
keycode_value et_leftmod2 = 101
keycode_value et_rightmod2 = 102
keycode_value et_leftmod3 = 103
keycode_value et_rightmod3 = 104
keycode_value et_leftmod4 = 105
keycode_value et_rightmod4 = 106
keycode_value et_leftmod5 = 107
keycode_value et_rightmod5 = 108
keycode_value et_space = 109
keycode_value et_return = 110
keycode_value et_tab = 111
keycode_value et_escape = 112
keycode_value et_left = 113
keycode_value et_right = 114
keycode_value et_up = 115
keycode_value et_down = 116
keycode_value et_backspace = 117
keycode_value et_delete = 118
keycode_value et_insert = 119
keycode_value et_home = 120
keycode_value et_end = 121
keycode_value et_pageup = 122
keycode_value et_pagedown = 123
keycode_value et_kp_0 = 124
keycode_value et_kp_1 = 125
keycode_value et_kp_2 = 126
keycode_value et_kp_3 = 127
keycode_value et_kp_4 = 128
keycode_value et_kp_5 = 129
keycode_value et_kp_6 = 130
keycode_value et_kp_7 = 131
keycode_value et_kp_8 = 132
keycode_value et_kp_9 = 133
keycode_value et_kp_equal = 134
keycode_value et_kp_divide = 135
keycode_value et_kp_multiply = 136
keycode_value et_kp_subtract = 137
keycode_value et_kp_add = 138
keycode_value et_kp_enter = 139
keycode_value et_kp_dot = 140
keycode_value et_f1 = 141
keycode_value et_f2 = 142
keycode_value et_f3 = 143
keycode_value et_f4 = 144
keycode_value et_f5 = 145
keycode_value et_f6 = 146
keycode_value et_f7 = 147
keycode_value et_f8 = 148
keycode_value et_f9 = 149
keycode_value et_f10 = 150
keycode_value et_f11 = 151
keycode_value et_f12 = 152
keycode_value et_f13 = 153
keycode_value et_f14 = 154
keycode_value et_f15 = 155
keycode_value et_f16 = 156
keycode_value et_f17 = 157
keycode_value et_f18 = 158
keycode_value et_f19 = 159
keycode_value et_f20 = 160
keycode_value et_f21 = 161
keycode_value et_f22 = 162
keycode_value et_f23 = 163
keycode_value et_f24 = 164
keycode_value et_f25 = 165
keycode_value et_f26 = 166
keycode_value et_f27 = 167
keycode_value et_f28 = 168
keycode_value et_f29 = 169
keycode_value et_f30 = 170
keycode_value et_eject = 171
keycode_value et_volumeup = 172
keycode_value et_volumedown = 173
keycode_value et_mute = 174
keycode_value et_playpause = 175
keycode_value et_fastforward = 176
keycode_value et_rewind = 177
keycode_value et_brightnessup = 178
keycode_value et_brightnessdown = 179

unfoldable pub is_modifier_key : ℕ → Bool
is_modifier_key k = leb (keycode_value et_leftshift) k && leb k (keycode_value et_rightmod5)

unfoldable pub is_keypad_key : ℕ → Bool
is_keypad_key k = leb (keycode_value et_kp_0) k && leb k (keycode_value et_kp_dot)
