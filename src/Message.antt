-- ===== src/Message.antt =====
-- The messages of proto.x and message.h, and what message.c does with one that is not I/O.
pub mod Codec
pub mod Drain
pub mod Fill
pub mod Samples
mod Tests
use enthrall.Prelude.{
  ℕ, ◌≤◌, Text, codes, leb, ◌==◌, Bool, true, false, not, ◌&&◌, List, [], ◌∷◌, get_or,
  if◌then◌else◌,
}
use enthrall.Prelude.Int.{ℤ}
use enthrall.Kvmap.{Kvent}

-- Screen positions are `int32_t`; the code compares, subtracts and scales them.
pub record Xypoint : Type 0 where
  pub x : ℤ
  pub y : ℤ

pub record Range : Type 0 where
  pub lo : ℤ
  pub hi : ℤ

pub record Rectangle : Type 0 where
  pub x : Range
  pub y : Range

-- `union msgbody`. A `float` is its bit pattern.
pub data Msgbody : Type 0 where
  setup : (prot_vers loglevel : ℕ) → List Kvent → Msgbody
  ready : Rectangle → Msgbody
  moverel : ℤ → ℤ → Msgbody
  moveabs : Xypoint → Msgbody
  mousepos : Xypoint → Msgbody
  clickevent : (button pressrel : ℕ) → Msgbody
  keyevent : (keycode pressrel : ℕ) → Msgbody
  getclipboard : Msgbody
  setclipboard : Text → Msgbody
  logmsg : Text → Msgbody
  setbrightness : ℕ → Msgbody
  setloglevel : ℕ → Msgbody

-- `msgtype_t`
unfoldable pub msgtype : Msgbody → ℕ
msgtype (setup p l kvs) = 1
msgtype (ready r) = 2
msgtype (moverel dx dy) = 3
msgtype (moveabs pt) = 4
msgtype (mousepos pt) = 5
msgtype (clickevent b p) = 6
msgtype (keyevent k p) = 7
msgtype getclipboard = 8
msgtype (setclipboard t) = 9
msgtype (logmsg t) = 10
msgtype (setbrightness f) = 11
msgtype (setloglevel l) = 12

-- `struct message`; the link to the next one is the list that holds it.
pub record Message : Type 0 where
  pub body : Msgbody
  pub from_xdr : Bool

abbrev pub new_message : Msgbody → Message
new_message body = record { body = body; from_xdr = false }

-- `msgtype_names`: entry 0 is the null pointer of a table with no entry for it.
abbrev msgtype_names : List Text
msgtype_names =
    []
    ∷ codes "SETUP"
    ∷ codes "READY"
    ∷ codes "MOVEREL"
    ∷ codes "MOVEABS"
    ∷ codes "MOUSEPOS"
    ∷ codes "CLICKEVENT"
    ∷ codes "KEYEVENT"
    ∷ codes "GETCLIPBOARD"
    ∷ codes "SETCLIPBOARD"
    ∷ codes "LOGMSG"
    ∷ codes "SETBRIGHTNESS"
    ∷ codes "SETLOGLEVEL"
    ∷ []

unfoldable pub msgtype_name : ℕ → Text
msgtype_name type =
    if leb 13 type
    then codes "???"
    else if type == 0
    then codes "???"
    else get_or msgtype_names type []
