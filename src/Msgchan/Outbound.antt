-- ===== src/Msgchan/Outbound.antt =====
-- msgchan.c: what a channel puts on the wire is what was queued on it, in order.
use enthrall.Prelude.{
  is_some, ℕ, ◌+◌, ◌≤◌, ◌≡◌, ◌≢◌, refl, sym, ap, ◌∙◌, Option, none, some, List, [], ◌∷◌, ◌++◌,
  length, Bool, true, false, arith, append-nil, append_assoc, lt→ltb, ltb→lt, ◌↔◌, All, ◌||◌, subst,
  drop_all, ◌⊎◌, inl, inr,
}
use enthrall.Message.{Message}
use enthrall.Message.Codec.{Xdr, IsSendable, PartSend, unparse-frame, frame, msghdr_size}
use enthrall.Message.Drain.{WriteEvent, unsent, bytes, drain_msgbuf}
use enthrall.Message.Drain
use enthrall.Message.Drain.Laws as DrainLaws
use enthrall.Msgchan.{
  Msgchan, mc_dequeue_message, mc_enqueue_message, max_send_backlog, SendStatus, Sent, sent,
  nothing, aborted, failed, send_buffer, load_buffer, send_loaded, send_next, send_from,
  send_message, mc_have_outbound_data, update_monitor, write_done, write_some, mc_write_cb,
  with_buffer, nonempty, sent_status,
}
use enthrall.Msgchan.Invariant.{IsSound, unparse-IsValid}
use enthrall.Msgchan.Clearing.{dequeue-cons}

abbrev pub frames : Xdr → List Message → List ℕ
frames xdr [] = []
frames xdr (m ∷ ms) = frame xdr m.body ++ frames xdr ms

pub frames-append :
    (xdr : Xdr) (ms ns : List Message) → frames xdr (ms ++ ns) ≡ frames xdr ms ++ frames xdr ns
frames-append xdr [] ns = refl
frames-append xdr (m ∷ ms) ns =
    ap (◌++◌ (frame xdr m.body)) (frames-append xdr ms ns)
    ∙ sym (append_assoc (frame xdr m.body) (frames xdr ms) (frames xdr ns))

-- The bytes that the channel has still to send.
abbrev pub outbound : Xdr → Msgchan → List ℕ
outbound xdr mc = unsent mc.send_msgbuf ++ frames xdr mc.queue

abbrev pub AllSendable : Xdr → List Message → Type 0
AllSendable xdr ms = All (λ m. IsSendable xdr m.body) ms

-- A message that is enqueued goes behind everything that is waiting, also when the result is -1;
-- and the result is -1 just when more than 64 are queued.
pub enqueue-outbound :
    (xdr : Xdr) (mc : Msgchan) (msg : Message)
    → IsSound mc
    → let (mc', full) = mc_enqueue_message mc msg in
      (outbound xdr mc' ≡ outbound xdr mc ++ frame xdr msg.body)
      × ((full ≡ true) ↔ (max_send_backlog ≤ length mc.queue))
unfolding mc_enqueue_message
enqueue-outbound xdr mc msg v = (
  ap (◌++◌ (unsent mc.send_msgbuf))
        (frames-append xdr mc.queue (msg ∷ []) ∙ ap (◌++◌ (frames xdr mc.queue)) (append-nil _))
      ∙ sym (append_assoc (unsent mc.send_msgbuf) (frames xdr mc.queue) (frame xdr msg.body)),
  (λ e. omega (arith, v.counted, ltb→lt _ _ e), λ h. lt→ltb _ _ (omega (arith, v.counted))),
)

-- What goes out and what is left are together what was waiting, and nothing that fails is lost.
record SendsFrom (xdr : Xdr) (evs : List WriteEvent) (before : List ℕ) (r : Sent) : Type 0 where
  conserves : r.written ++ outbound xdr r.mc ≡ before
  sendable : AllSendable xdr r.mc.queue
  running : (r.status ≢ aborted) × (r.status ≢ nothing)
  refused : (errno : ℕ) → r.status ≡ failed errno → DrainLaws.Refuses errno evs

sent_failed : (st : Drain.Status) (e : ℕ) → sent_status st ≡ failed e → st ≡ Drain.error e
sent_failed Drain.complete e q = absurd (cc q)
sent_failed Drain.incomplete e q = absurd (cc q)
sent_failed (Drain.error x) e q = ap Drain.error (cc q)

sent_running : (st : Drain.Status) → (sent_status st ≢ aborted) × (sent_status st ≢ nothing)
sent_running Drain.complete = (λ e. cc, λ e. cc)
sent_running Drain.incomplete = (λ e. cc, λ e. cc)
sent_running (Drain.error x) = (λ e. cc, λ e. cc)

buffer-SendsFrom :
    (xdr : Xdr) (evs : List WriteEvent) (mc : Msgchan)
    → IsSound mc
    → AllSendable xdr mc.queue
    → SendsFrom xdr evs (outbound xdr mc) (send_buffer evs mc)
unfolding send_buffer
buffer-SendsFrom xdr evs mc v a =
    let d = drain_msgbuf evs mc.send_msgbuf in
    let c = DrainLaws.drain-Drains evs mc.send_msgbuf v.sending in
    record {
      conserves =
          sym (append_assoc d.written (unsent d.ps) (frames xdr mc.queue))
          ∙ ap (λ l. l ++ frames xdr mc.queue) c.conserves;
      sendable = a;
      running = sent_running d.status;
      refused = λ e q. DrainLaws.drain-Refuses evs mc.send_msgbuf e (sent_failed d.status e q);
    }

-- A message becomes a buffer that holds exactly its frame.
load-frame :
    (xdr : Xdr) (msg : Message) (mc : Msgchan)
    → IsSendable xdr msg.body
    → load_buffer xdr msg mc
      ≡ some (record mc {
        send_msgbuf = record {
          buf = some (frame xdr msg.body);
          len = length (xdr.encode msg.body) + msghdr_size;
          bytes_sent = 0;
        };
      })
load-frame xdr msg mc v =
    ap (with_buffer mc) (unparse-frame xdr msg.body (record mc.send_msgbuf { bytes_sent = 0 }) v)

loaded-SendsFrom :
    (xdr : Xdr) (evs : List WriteEvent) (msg : Message) (mc : Msgchan)
    → IsSound mc
    → IsSendable xdr msg.body
    → AllSendable xdr mc.queue
    → SendsFrom xdr evs
        (frame xdr msg.body ++ frames xdr mc.queue)
        (send_loaded evs (load_buffer xdr msg mc) mc)
loaded-SendsFrom xdr evs msg mc v s a =
    let start : PartSend = record mc.send_msgbuf { bytes_sent = 0 } in
    let ok = unparse-IsValid xdr msg.body start _ refl (unparse-frame xdr msg.body start s) in
    rw (load-frame xdr msg mc s) (
      buffer-SendsFrom xdr evs _
        (record { counted = v.counted; sending = ok; receiving = v.receiving }) a)

next-SendsFrom :
    (xdr : Xdr) (evs : List WriteEvent) (mc : Msgchan) (m : Message) (rest : List Message)
    → mc.queue ≡ m ∷ rest
    → IsSound mc
    → AllSendable xdr (m ∷ rest)
    → SendsFrom xdr evs (frames xdr (m ∷ rest)) (send_next xdr evs (mc_dequeue_message mc))
next-SendsFrom xdr evs mc m rest e v a = rw (dequeue-cons mc m rest e) (
    loaded-SendsFrom xdr evs m _
      (record {
        counted = omega (arith, v.counted, ap length e);
        sending = v.sending;
        receiving = v.receiving;
      })
      a.0 a.1)

-- `send_message` on a channel with something to send, by its buffer and its queue.
from-SendsFrom :
    (xdr : Xdr) (evs : List WriteEvent) (mc : Msgchan) (b : Option (List ℕ)) (q : List Message)
    → mc.send_msgbuf.buf ≡ b
    → mc.queue ≡ q
    → (is_some b || nonempty q) ≡ true
    → IsSound mc
    → AllSendable xdr q
    → SendsFrom xdr evs (outbound xdr mc) (send_from b xdr evs mc)
from-SendsFrom xdr evs mc (some b) q eb eq t v a =
    buffer-SendsFrom xdr evs mc v (subst (AllSendable xdr) (sym eq) a)
from-SendsFrom xdr evs mc none [] eb eq t v a = cc
from-SendsFrom xdr evs mc none (m ∷ rest) eb eq t v a =
    let unset : unsent mc.send_msgbuf ≡ [] =
      drop_all mc.send_msgbuf.bytes_sent (bytes mc.send_msgbuf.buf)
        (omega (arith, ap (λ o. length (bytes o)) eb)) in
    let before : frames xdr (m ∷ rest) ≡ outbound xdr mc =
      ap (λ l. l ++ frames xdr (m ∷ rest)) (sym unset)
      ∙ ap (λ k. unsent mc.send_msgbuf ++ frames xdr k) (sym eq) in
    subst (λ l. SendsFrom xdr evs l (send_next xdr evs (mc_dequeue_message mc))) before
      (next-SendsFrom xdr evs mc m rest eq v a)

-- What `mc_write_cb` comes to: the descriptor failed with an error, what went out is a beginning of
-- what was waiting and the channel is as the error callback has left it, but for the watch on writing;
-- or what went out and what is left are together what was waiting.
pub data Writes (xdr : Xdr) (err_cb : Msgchan → ℕ → Msgchan) (evs : List WriteEvent)
    (before : List ℕ) (r : Sent) : Type 0 where
  broke :
      (errno : ℕ) (mc : Msgchan)
      → r.status ≡ failed errno
      → DrainLaws.Refuses errno evs
      → r.written ++ outbound xdr mc ≡ before
      → r.mc ≡ record (err_cb mc errno) { send_mon = r.mc.send_mon }
      → Writes xdr err_cb evs before r
  went :
      r.written ++ outbound xdr r.mc ≡ before
      → AllSendable xdr r.mc.queue
      → (r.status ≡ sent) ⊎ (r.status ≡ nothing)
      → Writes xdr err_cb evs before r

done-Writes :
    (st : SendStatus) (xdr : Xdr) (err_cb : Msgchan → ℕ → Msgchan) (evs : List WriteEvent)
    (before : List ℕ) (r : Sent)
    → r.status ≡ st
    → SendsFrom xdr evs before r
    → Writes xdr err_cb evs before (write_done st err_cb r)
unfolding update_monitor
done-Writes (failed x) xdr err_cb evs before r e s = broke x r.mc e (s.refused x e) s.conserves refl
done-Writes sent xdr err_cb evs before r e s = went s.conserves s.sendable (inl e)
done-Writes nothing xdr err_cb evs before r e s = absurd (s.running.1 e)
done-Writes aborted xdr err_cb evs before r e s = absurd (s.running.0 e)

some-Writes :
    (some_data : Bool) (xdr : Xdr) (err_cb : Msgchan → ℕ → Msgchan) (evs : List WriteEvent)
    (mc : Msgchan)
    → mc_have_outbound_data mc ≡ some_data
    → IsSound mc
    → AllSendable xdr mc.queue
    → Writes xdr err_cb evs (outbound xdr mc) (write_some some_data xdr err_cb evs mc)
unfolding send_message mc_have_outbound_data
some-Writes true xdr err_cb evs mc h v a =
    let r = send_from mc.send_msgbuf.buf xdr evs mc in
    done-Writes r.status xdr err_cb evs (outbound xdr mc) r refl
      (from-SendsFrom xdr evs mc mc.send_msgbuf.buf mc.queue refl refl h v a)
some-Writes false xdr err_cb evs mc h v a = went refl a (inr refl)

pub write-Writes :
    (xdr : Xdr) (err_cb : Msgchan → ℕ → Msgchan) (evs : List WriteEvent) (mc : Msgchan)
    → IsSound mc
    → AllSendable xdr mc.queue
    → Writes xdr err_cb evs (outbound xdr mc) (mc_write_cb xdr err_cb evs mc)
unfolding mc_write_cb
write-Writes xdr err_cb evs mc v a =
    some-Writes (mc_have_outbound_data mc) xdr err_cb evs mc refl v a
