-- ===== src/Message/Tests.antt =====
-- message.c on concrete buffers and descriptors.
use enthrall.Prelude.{ℕ, ◌≡◌, refl, none, some, List, [], ◌∷◌, map, true, arith}
use enthrall.Message.Codec.{PartSend, PartRecv, htonl, ntohl, parse_message}
use enthrall.Message.Drain
use enthrall.Message.Drain.{drain_msgbuf, unsent}
use enthrall.Message.Drain.Laws as DrainLaws
use enthrall.Message.Drain.Laws.{Drains, drain-Drains, drain-written}
use enthrall.Message.Fill
use enthrall.Message.Fill.{InFd, fill_msgbuf, resume_fill, after_header, fill_header, fill_payload}
use enthrall.Message.Fill.Laws.{Fills, fill-Fills}
use enthrall.Message.Fill.Receive.{fill-complete, receive-frame}
use enthrall.Message.Samples.{codec, press, press-IsSendable}

abbrev half_sent : PartSend
half_sent = record { buf = some (0 ∷ 0 ∷ 0 ∷ 2 ∷ 30 ∷ 1 ∷ []); len = 6; bytes_sent = 3 }

half_sent-IsValid : DrainLaws.IsValid half_sent
half_sent-IsValid = omega arith

drain_blocks :
    (drain_msgbuf (Drain.accepts 0 ∷ Drain.would_block ∷ []) half_sent).ps
    ≡ record half_sent { bytes_sent = 4 }
unfolding drain_msgbuf
drain_blocks = refl

drain-Drains_example :
    Drains half_sent (drain_msgbuf (Drain.accepts 0 ∷ Drain.write_error 32 ∷ []) half_sent)
drain-Drains_example =
    drain-Drains (Drain.accepts 0 ∷ Drain.write_error 32 ∷ []) half_sent half_sent-IsValid

drain-written_example :
    ((drain_msgbuf (map Drain.accepts (0 ∷ 5 ∷ 5 ∷ [])) half_sent).status ≡ Drain.complete)
    × ((drain_msgbuf (map Drain.accepts (0 ∷ 5 ∷ 5 ∷ [])) half_sent).written ≡ 2 ∷ 30 ∷ 1 ∷ [])
drain-written_example = drain-written (0 ∷ 5 ∷ 5 ∷ []) half_sent half_sent-IsValid (omega arith)

-- Two bytes of the header have come; the rest of the frame and one byte more are there.
abbrev half_read : PartRecv
half_read = record { hdrbuf = 0 ∷ 0 ∷ []; plbuf = none; bytes_recvd = 2 }

abbrev wire : List ℕ → InFd
wire ks = record { stream = 0 ∷ 2 ∷ 30 ∷ 1 ∷ 0 ∷ []; events = map Fill.gives ks }

fill-Fills_example :
    Fills
      (0 ∷ 0 ∷ 0 ∷ 2 ∷ 30 ∷ 1 ∷ 0 ∷ [])
      (fill_msgbuf (λ n. true) (wire (0 ∷ 0 ∷ 9 ∷ 9 ∷ [])) half_read)
fill-Fills_example = fill-Fills (λ n. true) (wire (0 ∷ 0 ∷ 9 ∷ 9 ∷ [])) half_read (omega arith)

fill-complete_example :
    (fill_msgbuf (λ n. true) (wire (0 ∷ 0 ∷ 9 ∷ 9 ∷ [])) half_read).status ≡ Fill.complete
unfolding htonl
fill-complete_example =
    fill-complete (λ n. true) codec press.body (0 ∷ []) (0 ∷ 0 ∷ 9 ∷ 9 ∷ []) press-IsSendable refl
      (wire (0 ∷ 0 ∷ 9 ∷ 9 ∷ [])) half_read (omega arith) refl refl (omega arith)

receive-frame_example :
    (parse_message codec (fill_msgbuf (λ n. true) (wire (0 ∷ 0 ∷ 9 ∷ 9 ∷ [])) half_read).pr
      ≡ some (
        record { body = press.body; from_xdr = true },
        record { hdrbuf = 0 ∷ 0 ∷ 0 ∷ 2 ∷ []; plbuf = none; bytes_recvd = 0 },
      ))
    × ((fill_msgbuf (λ n. true) (wire (0 ∷ 0 ∷ 9 ∷ 9 ∷ [])) half_read).fd.stream ≡ 0 ∷ [])
unfolding htonl ntohl fill_msgbuf resume_fill after_header fill_header fill_payload
receive-frame_example =
    receive-frame (λ n. true) codec press.body (0 ∷ []) (wire (0 ∷ 0 ∷ 9 ∷ 9 ∷ [])) half_read
      press-IsSendable (omega arith) refl refl
