-- ===== src/Ssh/Reading.antt =====
-- A reader of ssh(1)'s command line, as its manual has it, for the options that the program uses.
use enthrall.Prelude.{
  ◌==◌, Text, codes, str_eq, Bool, false, Option, none, some, List, [], ◌∷◌, if◌then◌else◌,
}

-- The options that take a value: -E, -p, -b, -i and -l.
pub data Flag : Type 0 where
  to_log to_port to_bind to_identity to_user : Flag

pub data Kind : Type 0 where
  takes : Flag → Kind
  alone operand : Kind

abbrev pub starts_dash : Text → Bool
starts_dash [] = false
starts_dash (c ∷ t) = c == 45

abbrev pub kind_of : Text → Kind
kind_of a =
    if starts_dash a
    then if str_eq a (codes "-E")
      then takes to_log
      else if str_eq a (codes "-p")
      then takes to_port
      else if str_eq a (codes "-b")
      then takes to_bind
      else if str_eq a (codes "-i")
      then takes to_identity
      else if str_eq a (codes "-l")
      then takes to_user
      else alone
    else operand

-- What ssh has read: the options' values, the host, and the command to run there.
pub record Reads : Type 0 where
  pub log : Option Text
  pub port : Option Text
  pub bind : Option Text
  pub identity : Option Text
  pub user : Option Text
  pub host : Option Text
  pub command : List Text

abbrev pub nothing_read : Reads
nothing_read = record {
  log = none;
  port = none;
  bind = none;
  identity = none;
  user = none;
  host = none;
  command = [];
}

abbrev pub put : Flag → Text → Reads → Reads
put to_log v r = record r { log = some v }
put to_port v r = record r { port = some v }
put to_bind v r = record r { bind = some v }
put to_identity v r = record r { identity = some v }
put to_user v r = record r { user = some v }

-- The options come first; the first operand is the host, and what follows it the command.
abbrev pub read_args : Option Flag → List Text → Reads → Reads
read_args o [] r = r
read_args (some f) (v ∷ rest) r = read_args none rest (put f v r)
read_args none (a ∷ rest) r = elim (kind_of a) [
  | takes f ↦ read_args (some f) rest r
  | alone ↦ read_args none rest r
  | operand ↦ record r { host = some a; command = rest }
]
