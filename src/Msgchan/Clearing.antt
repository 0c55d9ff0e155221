-- ===== src/Msgchan/Clearing.antt =====
-- msgchan.c: what is left of a channel when it is cleared.
use enthrall.Prelude.{
  ◌-◌, ◌≡◌, refl, Option, some, List, [], ◌∷◌, length, false, arith, ap, sym, ◌∙◌,
}
use enthrall.Message.{Message}
use enthrall.Message.Codec.{PartRecv}
use enthrall.Message.Fill.Heading.{absorbed}
use enthrall.Msgchan.{
  Msgchan, mc_dequeue_message, clear_queue, mc_clear, mc_have_outbound_data, empty_send,
  dequeue_from,
}
use enthrall.Msgchan.Receiving.{header_bound}
use enthrall.Msgchan.Invariant.{Inv, IsSound}

pub dequeue-cons :
    (mc : Msgchan) (m : Message) (rest : List Message)
    → mc.queue ≡ m ∷ rest
    → mc_dequeue_message mc ≡ (some m, record mc { queue = rest; num_queued = mc.num_queued - 1 })
unfolding mc_dequeue_message
dequeue-cons mc m rest e = ap (λ q. dequeue_from q mc) e

clear_queue-empty :
    (q : List Message) (mc : Msgchan)
    → mc.queue ≡ q
    → mc.num_queued ≡ length q
    → ((clear_queue q mc).queue ≡ [])
      × ((clear_queue q mc).num_queued ≡ 0)
      × ((clear_queue q mc).recv_msgbuf ≡ mc.recv_msgbuf)
unfolding clear_queue
clear_queue-empty [] mc e n = (e, n, refl)
clear_queue-empty (m ∷ rest) mc e n =
    let d = dequeue-cons mc m rest e in
    let next = (mc_dequeue_message mc).1 in
    let count : next.num_queued ≡ mc.num_queued - 1 =
      ap (λ (p : Option Message × Msgchan). p.1.num_queued) d in
    let ih =
      clear_queue-empty rest next (ap (λ (p : Option Message × Msgchan). p.1.queue) d)
        (omega (arith, count, n)) in
    (ih.0, ih.1, ih.2 ∙ ap (λ (p : Option Message × Msgchan). p.1.recv_msgbuf) d)

-- `mc_clear` leaves no message queued, no bytes half sent or half received, and the count at 0.
pub clear-empty :
    (mc : Msgchan)
    → IsSound mc
    → ((mc_clear mc).queue ≡ [])
      × ((mc_clear mc).num_queued ≡ 0)
      × ((mc_clear mc).send_msgbuf ≡ empty_send)
      × (absorbed (mc_clear mc).recv_msgbuf ≡ [])
      × (mc_have_outbound_data (mc_clear mc) ≡ false)
unfolding mc_clear mc_have_outbound_data
clear-empty mc v =
    let c = clear_queue-empty mc.queue mc refl v.counted in (c.0, c.1, refl, refl, rw c.0)

clear-Inv : (mc : Msgchan) → IsSound mc → Inv (mc_clear mc)
unfolding mc_clear mc_have_outbound_data
clear-Inv mc v =
    let c = clear_queue-empty mc.queue mc refl v.counted in
    record {
      sound = record {
        counted = c.1 ∙ sym (ap length c.0);
        sending = record { whole = omega arith; within = omega arith };
        receiving = (
          omega arith,
          omega (
            arith,
            header_bound mc.recv_msgbuf.plbuf mc.recv_msgbuf v.receiving,
            ap (λ (p : PartRecv). length p.hdrbuf) c.2,
          ),
        );
      };
      watched = λ e. cc (rw c.0 at e);
    }
