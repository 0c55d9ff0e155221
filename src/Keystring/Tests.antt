-- ===== src/Keystring/Tests.antt =====
-- Some names of hotkeys, with small tables of numbers.
use enthrall.Prelude.{
  ℕ, ◌%◌, ◌==◌, ◌<◌, ◌≡◌, refl, Text, codes, some, List, length, get_or, if◌then◌else◌, arith,
}
use enthrall.Keystring.{Modifier, parse_loop, parse_keystring}
use enthrall.Keystring.Described.{pieces, described, parse_keystring_lem}
use enthrall.Keystring.XKeys.{XServer, xmodifiers, x_take_key, x_take_key-IsKeySearch}
use enthrall.Keystring.OsxKeys.{osx_modifiers}

-- A keysym is the first character of its name, and its key code is less by 90.
abbrev server : XServer
server = record {
  string_to_keysym = λ t. get_or t 0 0;
  is_modifier_key = λ sym. sym == 83;
  keysym_to_keycode = λ sym. if sym == 97 then 7 else 0;
}

abbrev shift_a : Text
shift_a = codes "Shift+a+mod1"

parsed : parse_keystring xmodifiers (x_take_key server) shift_a ≡ some (some (7, 9))
unfolding parse_keystring parse_loop x_take_key
parsed = refl

-- A string with modifiers only has the code 0.
no_key : parse_keystring xmodifiers (x_take_key server) (codes "shift+") ≡ some (some (0, 1))
unfolding parse_keystring parse_loop x_take_key
no_key = refl

parse_keystring_lem_example :
    parse_keystring xmodifiers (x_take_key server) shift_a
    ≡ some (described xmodifiers (x_take_key server) (pieces shift_a))
parse_keystring_lem_example =
    parse_keystring_lem xmodifiers (x_take_key server) (x_take_key-IsKeySearch server) shift_a

abbrev modifiers : List Modifier
modifiers = osx_modifiers 1 2 4 8

abbrev number : Text → ℕ
number t = length t % 128

abbrev few : (t : Text) → number t < 65535
few t = omega arith

abbrev command_f1 : Text
command_f1 = codes "command+F1"
