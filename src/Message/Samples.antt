-- ===== src/Message/Samples.antt =====
-- A codec for two kinds of body, which meets what is assumed of the XDR routines, and messages.
use enthrall.Prelude.{ℕ, Option, none, some, List, [], ◌∷◌, refl, arith}
use enthrall.Message.{Msgbody, keyevent, setloglevel, Message, new_message}
use enthrall.Message.Codec.{Xdr, IsSendable}

abbrev write_body : Msgbody → List ℕ
write_body (keyevent k p) = k ∷ p ∷ []
write_body (setloglevel l) = l ∷ []
write_body _ = []

abbrev read_body : List ℕ → Option Msgbody
read_body (k ∷ p ∷ []) = some (keyevent k p)
read_body (l ∷ []) = some (setloglevel l)
read_body _ = none

abbrev pub codec : Xdr
codec = record { encode = write_body; decode = read_body; measure = λ b. 4 }

abbrev pub press : Message
press = new_message (keyevent 30 1)

abbrev pub level : Message
level = new_message (setloglevel 5)

pub press-IsSendable : IsSendable codec press.body
press-IsSendable = record { reads_back = refl; measured = omega arith; fits = omega arith }

pub level-IsSendable : IsSendable codec level.body
level-IsSendable = record { reads_back = refl; measured = omega arith; fits = omega arith }
