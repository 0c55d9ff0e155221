-- ===== src/Message/Drain.antt =====
-- message.c: `drain_msgbuf`, which writes a buffer out over as many calls as the descriptor wants.
pub mod Laws
use enthrall.Prelude.{
  ℕ, zero, suc, ◌+◌, ◌-◌, Option, none, some, List, [], ◌∷◌, ◌++◌, length, take, drop, min, ltb,
  Bool, true, false, if◌then◌else◌,
}
use enthrall.Message.Codec.{PartSend}

-- What a call of write(2) does, chosen by the environment: take up to `k + 1` of the bytes offered
-- (it takes one at least), or fail with EAGAIN or EWOULDBLOCK, or fail otherwise.
pub data WriteEvent : Type 0 where
  accepts : (k : ℕ) → WriteEvent
  would_block : WriteEvent
  write_error : (errno : ℕ) → WriteEvent

-- The results 1, 0 and negative.
pub data Status : Type 0 where
  complete incomplete : Status
  error : (errno : ℕ) → Status

-- `written` are the bytes that went out during the call; `rest` are the events not used up.
pub record Drained : Type 0 where
  pub status : Status
  pub ps : PartSend
  pub written : List ℕ
  pub rest : List WriteEvent

abbrev pub bytes : Option (List ℕ) → List ℕ
bytes none = []
bytes (some b) = b

-- The bytes that have still to go out.
abbrev pub unsent : PartSend → List ℕ
unsent ps = drop ps.bytes_sent (bytes ps.buf)

abbrev pub finish : PartSend → List WriteEvent → Drained
finish ps rest = record {
  status = complete;
  ps = record { buf = none; len = 0; bytes_sent = 0 };
  written = [];
  rest = rest;
}

abbrev pub stop : Status → PartSend → List WriteEvent → Drained
stop s ps rest = record { status = s; ps = ps; written = []; rest = rest }

abbrev pub offered : ℕ → PartSend → List ℕ
offered k ps = take (min (suc k) (ps.len - ps.bytes_sent)) (unsent ps)

-- Where the events run out the descriptor blocks.
unfoldable pub drain_msgbuf : List WriteEvent → PartSend → Drained
drain_msgbuf [] ps = if ltb ps.bytes_sent ps.len then stop incomplete ps [] else finish ps []
drain_msgbuf (would_block ∷ evs) ps =
    if ltb ps.bytes_sent ps.len then stop incomplete ps evs else finish ps (would_block ∷ evs)
drain_msgbuf (write_error e ∷ evs) ps =
    if ltb ps.bytes_sent ps.len then stop (error e) ps evs else finish ps (write_error e ∷ evs)
drain_msgbuf (accepts k ∷ evs) ps =
    let chunk = offered k ps in
    let later = drain_msgbuf evs (record ps { bytes_sent = ps.bytes_sent + length chunk }) in
    if ltb ps.bytes_sent ps.len
    then record later { written = chunk ++ later.written }
    else finish ps (accepts k ∷ evs)
