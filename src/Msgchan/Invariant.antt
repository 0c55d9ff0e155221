-- ===== src/Msgchan/Invariant.antt =====
-- msgchan.c: what holds of a channel between calls, and that every call keeps it.
use enthrall.Prelude.{
  ℕ, ◌≡◌, refl, Option, none, some, List, [], ◌∷◌, length, Bool, true, false, arith, length-append,
  ap, ◌≢◌,
}
use enthrall.Message.{Message, Msgbody}
use enthrall.Message.Codec.{Xdr, PartSend, htonl, unparse_message}
use enthrall.Message.Drain.{WriteEvent}
use enthrall.Message.Drain.Laws as DrainLaws
use enthrall.Message.Fill.Heading as FillHeading
use enthrall.Message.Fill.Heading.{absorbed}
use enthrall.Msgchan.{
  Msgchan, mc_dequeue_message, mc_enqueue_message, SendStatus, Sent, sent, nothing, aborted, failed,
  send_buffer, load_buffer, send_loaded, send_next, send_message, mc_have_outbound_data,
  update_monitor, write_done, mc_write_cb, dequeue_from, send_from, with_buffer, write_some,
}

-- The count is right and the two buffers are valid.
pub record IsSound (mc : Msgchan) : Type 0 where
  pub counted : mc.num_queued ≡ length mc.queue
  pub sending : DrainLaws.IsValid mc.send_msgbuf
  pub receiving : FillHeading.IsValid mc.recv_msgbuf

-- A channel with something to send watches its descriptor for a chance to.
pub record Inv (mc : Msgchan) : Type 0 where
  pub sound : IsSound mc
  pub watched : mc_have_outbound_data mc ≡ true → mc.send_mon.writes ≡ true

pub enqueue-Inv : (mc : Msgchan) (msg : Message) → Inv mc → Inv (mc_enqueue_message mc msg).0
unfolding mc_enqueue_message
enqueue-Inv mc msg v = record {
  sound = record {
    counted = omega (arith, length-append mc.queue (msg ∷ []), v.sound.counted);
    sending = v.sound.sending;
    receiving = v.sound.receiving;
  };
  watched = λ _. refl;
}

update-Inv : (mc : Msgchan) → IsSound mc → Inv (update_monitor mc)
unfolding update_monitor mc_have_outbound_data
update-Inv mc v = record {
  sound = record { counted = v.counted; sending = v.sending; receiving = v.receiving };
  watched = λ e. ground arith;
}

buffer-IsSound :
    (evs : List WriteEvent) (mc : Msgchan) → IsSound mc → IsSound (send_buffer evs mc).mc
unfolding send_buffer
buffer-IsSound evs mc v = record {
  counted = v.counted;
  sending = (DrainLaws.drain-Drains evs mc.send_msgbuf v.sending).valid;
  receiving = v.receiving;
}

pub unparse-IsValid :
    (xdr : Xdr) (b : Msgbody) (ps q : PartSend)
    → ps.bytes_sent ≡ 0
    → unparse_message xdr b ps ≡ some q
    → DrainLaws.IsValid q
unfolding unparse_message htonl
unparse-IsValid xdr b ps q z e = ground arith

dequeue-IsSound : (mc : Msgchan) → IsSound mc → IsSound (mc_dequeue_message mc).1
unfolding mc_dequeue_message
dequeue-IsSound mc v = go mc.queue refl
  where
    go : (q : List Message) → mc.queue ≡ q → IsSound (dequeue_from q mc).1
    go [] e = v
    go (m ∷ rest) e = record {
      counted = omega (arith, v.counted, ap length e);
      sending = v.sending;
      receiving = v.receiving;
    }

loaded-IsSound :
    (xdr : Xdr) (evs : List WriteEvent) (msg : Message) (mc : Msgchan)
    → IsSound mc
    → IsSound (send_loaded evs (load_buffer xdr msg mc) mc).mc
loaded-IsSound xdr evs msg mc v = go (unparse_message xdr msg.body start) refl
  where
    start : PartSend
    start = record mc.send_msgbuf { bytes_sent = 0 }

    go :
        (o : Option PartSend)
        → unparse_message xdr msg.body start ≡ o
        → IsSound (send_loaded evs (with_buffer mc o) mc).mc
    go none e = v
    go (some ps) e =
        buffer-IsSound evs (record mc { send_msgbuf = ps })
          (record {
            counted = v.counted;
            sending = unparse-IsValid xdr msg.body start ps refl e;
            receiving = v.receiving;
          })

next-IsSound :
    (xdr : Xdr) (evs : List WriteEvent) (d : Option Message × Msgchan)
    → IsSound d.1
    → IsSound (send_next xdr evs d).mc
next-IsSound xdr evs (none, mc) v = v
next-IsSound xdr evs (some msg, mc) v = loaded-IsSound xdr evs msg mc v

send_from-IsSound :
    (b : Option (List ℕ)) (xdr : Xdr) (evs : List WriteEvent) (mc : Msgchan)
    → IsSound mc
    → IsSound (send_from b xdr evs mc).mc
send_from-IsSound (some b) xdr evs mc v = buffer-IsSound evs mc v
send_from-IsSound none xdr evs mc v =
    next-IsSound xdr evs (mc_dequeue_message mc) (dequeue-IsSound mc v)

pub send-IsSound :
    (xdr : Xdr) (evs : List WriteEvent) (mc : Msgchan)
    → IsSound mc
    → IsSound (send_message xdr evs mc).mc
unfolding send_message
send-IsSound xdr evs mc v = send_from-IsSound mc.send_msgbuf.buf xdr evs mc v

done-Inv :
    (st : SendStatus) (err_cb : Msgchan → ℕ → Msgchan) (r : Sent)
    → ((c : Msgchan) (e : ℕ) → IsSound c → IsSound (err_cb c e))
    → IsSound r.mc
    → (write_done st err_cb r).status ≢ aborted
    → r.status ≡ st
    → Inv (write_done st err_cb r).mc
done-Inv (failed e) err_cb r keep v ok h = update-Inv (err_cb r.mc e) (keep r.mc e v)
done-Inv sent err_cb r keep v ok h = update-Inv r.mc v
done-Inv nothing err_cb r keep v ok h = absurd (ok refl)
done-Inv aborted err_cb r keep v ok h = absurd (ok h)

some-Inv :
    (some_data : Bool) (xdr : Xdr) (err_cb : Msgchan → ℕ → Msgchan) (evs : List WriteEvent)
    (mc : Msgchan)
    → ((c : Msgchan) (e : ℕ) → IsSound c → IsSound (err_cb c e))
    → mc_have_outbound_data mc ≡ some_data
    → Inv mc
    → (write_some some_data xdr err_cb evs mc).status ≢ aborted
    → Inv (write_some some_data xdr err_cb evs mc).mc
some-Inv true xdr err_cb evs mc keep h v ok =
    let r = send_message xdr evs mc in
    done-Inv r.status err_cb r keep (send-IsSound xdr evs mc v.sound) ok refl
some-Inv false xdr err_cb evs mc keep h v ok = record {
  sound = record {
    counted = v.sound.counted;
    sending = v.sound.sending;
    receiving = v.sound.receiving;
  };
  watched = λ e. unfold mc_have_outbound_data in cc;
}

-- `mc_write_cb` keeps the invariant on every path that does not abort the process: the one with
-- nothing to send, the one that sends, and the one that fails, if the error callback leaves the
-- channel sound.
pub write-Inv :
    (xdr : Xdr) (err_cb : Msgchan → ℕ → Msgchan) (evs : List WriteEvent) (mc : Msgchan)
    → ((c : Msgchan) (e : ℕ) → IsSound c → IsSound (err_cb c e))
    → Inv mc
    → (mc_write_cb xdr err_cb evs mc).status ≢ aborted
    → Inv (mc_write_cb xdr err_cb evs mc).mc
unfolding mc_write_cb
write-Inv xdr err_cb evs mc keep v ok =
    some-Inv (mc_have_outbound_data mc) xdr err_cb evs mc keep refl v ok
