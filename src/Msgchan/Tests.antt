-- ===== src/Msgchan/Tests.antt =====
-- msgchan.c on concrete channels: two messages of a sender reach a receiver in pieces.
use enthrall.Prelude.{ℕ, ◌≡◌, ◌≢◌, refl, none, some, List, [], ◌∷◌, true, false, arith}
use enthrall.Message.Codec.{PartRecv, htonl, unparse_message, ntohl, parse_message}
use enthrall.Message.Drain
use enthrall.Message.Drain.{drain_msgbuf}
use enthrall.Message.Fill
use enthrall.Message.Fill.{
  InFd, ReadEvent, fill_msgbuf, resume_fill, after_header, fill_header, fill_payload,
}
use enthrall.Message.Samples.{codec, press, level, press-IsSendable, level-IsSendable}
use enthrall.Msgchan.{
  Monitor, Msgchan, mc_enqueue_message, mc_write_cb, mc_have_outbound_data, mc_dequeue_message,
  send_message, send_buffer, update_monitor, empty_send, recv_message, aborted,
}
use enthrall.Msgchan.Invariant.{Inv, write-Inv}
use enthrall.Msgchan.Receiving.{recv-Inv}
use enthrall.Msgchan.Inbound.{Takes, recv-Takes, collect, as_received, IsBeginning}
use enthrall.Msgchan.Link.{SendOp, enqueues, writable, run_sender, link-IsBeginning}

abbrev watching : Monitor
watching = record { registered = true; reads = true; writes = true }

abbrev no_recv : PartRecv
no_recv = record { hdrbuf = []; plbuf = none; bytes_recvd = 0 }

abbrev fresh : Msgchan
fresh = record {
  send_fd = 4;
  recv_fd = 4;
  send_mon = watching;
  recv_mon = watching;
  recv_msgbuf = no_recv;
  send_msgbuf = empty_send;
  queue = [];
  num_queued = 0;
}

abbrev loaded : Msgchan
loaded = record fresh { queue = press ∷ level ∷ []; num_queued = 2 }

fresh-Inv : Inv fresh
fresh-Inv = record { sound = omega arith; watched = λ e. refl }

loaded-Inv : Inv loaded
loaded-Inv = record { sound = omega arith; watched = λ e. refl }

abbrev history : List SendOp
history =
    enqueues press
    ∷ writable (Drain.accepts 2 ∷ Drain.would_block ∷ [])
    ∷ enqueues level
    ∷ writable (Drain.accepts 9 ∷ Drain.accepts 9 ∷ [])
    ∷ writable (Drain.accepts 9 ∷ [])
    ∷ []

abbrev sent_bytes : List ℕ
sent_bytes = 0 ∷ 0 ∷ 0 ∷ 2 ∷ 30 ∷ 1 ∷ 0 ∷ 0 ∷ 0 ∷ 1 ∷ 5 ∷ []

abbrev wakeups : List (List ReadEvent)
wakeups =
    (Fill.gives 4 ∷ Fill.gives 0 ∷ Fill.would_block ∷ [])
    ∷ (Fill.gives 0 ∷ Fill.gives 8 ∷ [])
    ∷ (Fill.gives 9 ∷ Fill.gives 9 ∷ [])
    ∷ []

abbrev after : Msgchan
after = record fresh { send_mon = record watching { writes = false } }

ran : run_sender codec history fresh ≡ some (sent_bytes, after)
unfolding run_sender mc_enqueue_message mc_write_cb mc_have_outbound_data send_message
    mc_dequeue_message send_buffer update_monitor drain_msgbuf unparse_message htonl
ran = refl

both_arrive :
    collect codec (λ n. true) wakeups sent_bytes fresh ≡ as_received press ∷ as_received level ∷ []
unfolding collect recv_message fill_msgbuf resume_fill after_header fill_header fill_payload ntohl
    parse_message
both_arrive = refl

link-IsBeginning_example :
    IsBeginning
      (collect codec (λ n. true) wakeups sent_bytes fresh)
      (as_received press ∷ as_received level ∷ [])
link-IsBeginning_example =
    link-IsBeginning codec (λ n. true) history fresh fresh sent_bytes after wakeups fresh-Inv refl
      refl (omega arith) refl (press-IsSendable, (level-IsSendable, tt)) ran

not_aborted : (mc_write_cb codec (λ c e. c) (Drain.accepts 2 ∷ []) loaded).status ≢ aborted
unfolding mc_write_cb mc_have_outbound_data send_message mc_dequeue_message send_buffer
    update_monitor drain_msgbuf unparse_message htonl
not_aborted e = cc

write-Inv_example : Inv (mc_write_cb codec (λ c e. c) (Drain.accepts 2 ∷ []) loaded).mc
write-Inv_example =
    write-Inv codec (λ c e. c) (Drain.accepts 2 ∷ []) loaded (λ c e v. v) loaded-Inv not_aborted

abbrev arriving : InFd
arriving = record { stream = sent_bytes; events = Fill.gives 4 ∷ Fill.end_of_file ∷ [] }

recv-Inv_example : Inv (recv_message codec (λ n. true) arriving loaded).mc
recv-Inv_example = recv-Inv codec (λ n. true) arriving loaded loaded-Inv

recv-Takes_example :
    Takes codec (press ∷ level ∷ []) [] (recv_message codec (λ n. true) arriving loaded)
unfolding htonl
recv-Takes_example =
    recv-Takes codec (λ n. true) (press ∷ level ∷ []) [] arriving loaded
      (press-IsSendable, (level-IsSendable, tt)) (omega arith) refl
