-- ===== src/Message/Fill.antt =====
-- message.c: `fill_msgbuf`, which collects a message over as many calls as the descriptor wants.
pub mod Heading
pub mod Laws
pub mod Progress
pub mod Receive
use enthrall.Prelude.{
  ℕ, suc, ◌+◌, ◌-◌, Option, none, some, List, [], ◌∷◌, ◌++◌, length, take, drop, min, ltb, ◌==◌,
  Bool, true, false, if◌then◌else◌,
}
use enthrall.Message.Codec.{PartRecv, msghdr_size, ntohl}

-- What a call of read(2) does, chosen by the environment: it gives up to `k + 1` of the bytes asked
-- for, at least one if any have arrived; or it fails with EAGAIN or EWOULDBLOCK, or otherwise; or it
-- finds the end of the stream.
pub data ReadEvent : Type 0 where
  gives : (k : ℕ) → ReadEvent
  would_block end_of_file : ReadEvent
  read_error : (errno : ℕ) → ReadEvent

-- A descriptor: the bytes that arrive on it, in order, and what its next reads do.
pub record InFd : Type 0 where
  pub stream : List ℕ
  pub events : List ReadEvent

-- What read(2) returns: a positive count with its bytes, -1 with EAGAIN, 0, or -1 with another error.
pub data ReadResult : Type 0 where
  got : List ℕ → ReadResult
  again eof : ReadResult
  failed : ℕ → ReadResult

abbrev pub read : ReadEvent → ℕ → List ℕ → ReadResult
read (gives k) n [] = again
read (gives k) n (b ∷ bs) = got (take (min (suc k) n) (b ∷ bs))
read would_block n s = again
read end_of_file n s = eof
read (read_error e) n s = failed e

-- The results 1, 0 and negative, and a failed `assert`.
pub data Status : Type 0 where
  complete incomplete aborted : Status
  error : (errno : ℕ) → Status

abbrev pub einval : ℕ
einval = 22

abbrev pub enomem : ℕ
enomem = 12

pub record Filled : Type 0 where
  pub status : Status
  pub pr : PartRecv
  pub fd : InFd

abbrev pub stop : Status → PartRecv → List ℕ → List ReadEvent → Filled
stop s pr stream events = record {
  status = s;
  pr = pr;
  fd = record { stream = stream; events = events };
}

-- `buf + off` takes the bytes of the chunk; what lay behind `off` before is no longer looked at.
abbrev pub write_at : List ℕ → ℕ → List ℕ → List ℕ
write_at buf off chunk = take off buf ++ chunk

abbrev pub recv_header : PartRecv → List ℕ → PartRecv
recv_header pr chunk = record pr {
  hdrbuf = write_at pr.hdrbuf pr.bytes_recvd chunk;
  bytes_recvd = pr.bytes_recvd + length chunk;
}

-- The first loop. Where the events run out the descriptor blocks.
unfoldable pub fill_header : List ReadEvent → List ℕ → PartRecv → Filled
fill_header [] s pr = stop (if ltb pr.bytes_recvd msghdr_size then incomplete else complete) pr s []
fill_header (ev ∷ evs) s pr =
    if ltb pr.bytes_recvd msghdr_size
    then elim (read ev (msghdr_size - pr.bytes_recvd) s) [
      | got chunk ↦ fill_header evs (drop (length chunk) s) (recv_header pr chunk)
      | again ↦ stop incomplete pr s evs
      | eof ↦ stop (error einval) pr s evs
      | failed e ↦ stop (error e) pr s evs
    ]
    else stop complete pr s (ev ∷ evs)

abbrev pub recv_payload : PartRecv → List ℕ → List ℕ → PartRecv
recv_payload pr p chunk = record pr {
  plbuf = some (write_at p (pr.bytes_recvd - msghdr_size) chunk);
  bytes_recvd = pr.bytes_recvd + length chunk;
}

-- The second loop, over `to_read` and the allocated buffer.
unfoldable pub fill_payload : List ReadEvent → List ℕ → PartRecv → List ℕ → ℕ → Filled
fill_payload [] s pr p to_read = stop (if ltb 0 to_read then incomplete else complete) pr s []
fill_payload (ev ∷ evs) s pr p to_read =
    if ltb 0 to_read
    then elim (read ev to_read s) [
      | got chunk ↦
          fill_payload evs (drop (length chunk) s) (recv_payload pr p chunk)
            (write_at p (pr.bytes_recvd - msghdr_size) chunk) (to_read - length chunk)
      | again ↦ stop incomplete pr s evs
      | eof ↦ stop (error einval) pr s evs
      | failed e ↦ stop (error e) pr s evs
    ]
    else stop complete pr s (ev ∷ evs)

-- `msgsize - (bytes_recvd - MSGHDR_SIZE)` as a `ssize_t`: where it would be negative it is 0 here,
-- and the loop does not run in either case.
abbrev pub to_read : PartRecv → ℕ
to_read pr = ntohl pr.hdrbuf - (pr.bytes_recvd - msghdr_size)

-- What follows the first loop. `alloc` says whether malloc(3) succeeds.
unfoldable pub after_header : (ℕ → Bool) → PartRecv → InFd → Filled
after_header alloc pr fd = elim pr.plbuf [
  | some p ↦ fill_payload fd.events fd.stream pr p (to_read pr)
  | none ↦
      if pr.bytes_recvd == msghdr_size
      then if alloc (ntohl pr.hdrbuf)
        then fill_payload fd.events fd.stream (record pr { plbuf = some [] }) [] (to_read pr)
        else stop (error enomem) pr fd.stream fd.events
      else stop aborted pr fd.stream fd.events
]

-- The first loop either returns from the function or is followed by the rest.
unfoldable pub resume_fill : (ℕ → Bool) → Filled → Filled
resume_fill alloc h = elim h.status [ complete ↦ after_header alloc h.pr h.fd | _ ↦ h ]

unfoldable pub fill_msgbuf : (ℕ → Bool) → InFd → PartRecv → Filled
fill_msgbuf alloc fd pr = resume_fill alloc (fill_header fd.events fd.stream pr)
