-- ===== src/Msgchan/Receiving.antt =====
-- msgchan.c: a call that receives keeps what holds of a channel.
use enthrall.Prelude.{ℕ, ◌≤◌, ◌≡◌, refl, Option, none, some, List, length, Bool, true, arith}
use enthrall.Message.{Message, Msgbody}
use enthrall.Message.Codec.{Xdr, PartRecv, parse_message, parse_body, msghdr_size}
use enthrall.Message.Fill
use enthrall.Message.Fill.{InFd, fill_msgbuf}
use enthrall.Message.Fill.Heading as FillHeading
use enthrall.Message.Fill.Laws.{fill-Fills}
use enthrall.Message.Fill.Heading.{absorbed}
use enthrall.Msgchan.{Msgchan, mc_have_outbound_data, parsed, recv_message, recv_done}
use enthrall.Msgchan.Invariant.{Inv, IsSound}

pub header_bound :
    (pl : Option (List ℕ)) (pr : PartRecv)
    → FillHeading.IsValidWith pl pr
    → length pr.hdrbuf ≤ msghdr_size
header_bound none pr v = v.1
header_bound (some p) pr v = omega (arith, v.0)

parsed-IsSound :
    (o : Option Msgbody) (mc : Msgchan) (fd : InFd)
    → IsSound mc
    → IsSound (parsed (parse_body o mc.recv_msgbuf) mc fd).mc
parsed-IsSound none mc fd v = v
parsed-IsSound (some b) mc fd v = record {
  counted = v.counted;
  sending = v.sending;
  receiving = (omega arith, header_bound mc.recv_msgbuf.plbuf mc.recv_msgbuf v.receiving);
}

recv_done-IsSound :
    (st : Fill.Status) (xdr : Xdr) (mc : Msgchan) (fd : InFd)
    → IsSound mc
    → IsSound (recv_done st xdr mc fd).mc
unfolding parse_message
recv_done-IsSound Fill.complete xdr mc fd v = parsed-IsSound _ mc fd v
recv_done-IsSound Fill.incomplete xdr mc fd v = v
recv_done-IsSound Fill.aborted xdr mc fd v = v
recv_done-IsSound (Fill.error e) xdr mc fd v = v

-- The side of a channel that sends.
record SendsAs (mc c : Msgchan) : Type 0 where
  mon : c.send_mon ≡ mc.send_mon
  buf : c.send_msgbuf ≡ mc.send_msgbuf
  queue : c.queue ≡ mc.queue

parsed-SendsAs :
    (o : Option (Message × PartRecv)) (mc : Msgchan) (fd : InFd) → SendsAs mc (parsed o mc fd).mc
parsed-SendsAs none mc fd = record { mon = refl; buf = refl; queue = refl }
parsed-SendsAs (some (m, pr)) mc fd = record { mon = refl; buf = refl; queue = refl }

recv_done-SendsAs :
    (st : Fill.Status) (xdr : Xdr) (mc : Msgchan) (fd : InFd)
    → SendsAs mc (recv_done st xdr mc fd).mc
recv_done-SendsAs Fill.complete xdr mc fd = parsed-SendsAs (parse_message xdr mc.recv_msgbuf) mc fd
recv_done-SendsAs Fill.incomplete xdr mc fd = record { mon = refl; buf = refl; queue = refl }
recv_done-SendsAs Fill.aborted xdr mc fd = record { mon = refl; buf = refl; queue = refl }
recv_done-SendsAs (Fill.error e) xdr mc fd = record { mon = refl; buf = refl; queue = refl }

watched-SendsAs :
    (mc c : Msgchan)
    → SendsAs mc c
    → (mc_have_outbound_data mc ≡ true → mc.send_mon.writes ≡ true)
    → mc_have_outbound_data c ≡ true
    → c.send_mon.writes ≡ true
unfolding mc_have_outbound_data
watched-SendsAs mc c s w e = rw (s.mon) (w (rw (← s.buf, ← s.queue) e))

-- `recv_message` keeps the invariant, whatever arrives, errors included.
pub recv-Inv :
    (xdr : Xdr) (alloc : ℕ → Bool) (fd : InFd) (mc : Msgchan)
    → Inv mc
    → Inv (recv_message xdr alloc fd mc).mc
unfolding recv_message mc_have_outbound_data
recv-Inv xdr alloc fd mc v =
    let r = fill_msgbuf alloc fd mc.recv_msgbuf in
    let filled : Msgchan = record mc { recv_msgbuf = r.pr } in
    record {
      sound = recv_done-IsSound r.status xdr filled r.fd (record {
        counted = v.sound.counted;
        sending = v.sound.sending;
        receiving = (fill-Fills alloc fd mc.recv_msgbuf v.sound.receiving).keeps.valid;
      });
      watched =
          watched-SendsAs filled (recv_done r.status xdr filled r.fd).mc
            (recv_done-SendsAs r.status xdr filled r.fd) v.watched;
    }
