-- ===== src/Msgchan/Inbound.antt =====
-- msgchan.c: what a channel delivers is what was sent to it, in order.
use enthrall.Prelude.{
  ℕ, ◌≤◌, ◌≡◌, ◌≢◌, refl, sym, ap, ◌∙◌, Option, none, some, List, [], ◌∷◌, ◌++◌, map, length, Bool,
  true, arith, append_assoc, subst, length-append,
}
use enthrall.Message.{Message}
use enthrall.Message.Codec.{Xdr, PartRecv, parse_message, msghdr_size}
use enthrall.Message.Fill
use enthrall.Message.Fill.{ReadEvent, InFd, Filled, fill_msgbuf}
use enthrall.Message.Fill.Heading.{IsValid, IsValidWith, IsWholeWith, absorbed, absorbed_by}
use enthrall.Message.Fill.Laws.{Fills, fill-Fills}
use enthrall.Message.Fill.Receive.{whole_frame, parse_whole}
use enthrall.Msgchan.{
  Msgchan, RecvStatus, waiting, received, failed, aborted, Received, parsed, recv_done,
  recv_message,
}
use enthrall.Msgchan.Receiving.{header_bound}
use enthrall.Msgchan.Outbound.{frames, AllSendable}

abbrev pub as_received : Message → Message
as_received m = record { body = m.body; from_xdr = true }

-- One call, on a stream that with bytes still to come goes on with the frames of `ms`.
pub data Takes (xdr : Xdr) (ms : List Message) (future : List ℕ) (r : Received) : Type 0 where
  stays :
      ((m : Message) → r.status ≢ received m)
      → r.status ≢ aborted
      → IsValid r.mc.recv_msgbuf
      → absorbed r.mc.recv_msgbuf ++ (r.fd.stream ++ future) ≡ frames xdr ms
      → Takes xdr ms future r
  takes :
      (m : Message) (rest : List Message)
      → ms ≡ m ∷ rest
      → r.status ≡ received (as_received m)
      → IsValid r.mc.recv_msgbuf
      → absorbed r.mc.recv_msgbuf ++ (r.fd.stream ++ future) ≡ frames xdr rest
      → Takes xdr ms future r

-- A whole message is not nothing.
whole_nonempty :
    (pl : Option (List ℕ)) (pr : PartRecv) (l : List ℕ)
    → IsValidWith pl pr
    → IsWholeWith pl pr
    → absorbed_by pl pr ++ l ≢ []
whole_nonempty none pr l v w e = w
whole_nonempty (some p) pr l v w e =
    omega (arith, v.0, ap length e, length-append (pr.hdrbuf ++ p) l, length-append pr.hdrbuf p)

abbrev emptied : List ℕ → PartRecv
emptied h = record { hdrbuf = h; plbuf = none; bytes_recvd = 0 }

complete-Takes :
    (xdr : Xdr) (ms : List Message) (future : List ℕ) (mc : Msgchan) (fd : InFd)
    → AllSendable xdr ms
    → IsValid mc.recv_msgbuf
    → IsWholeWith mc.recv_msgbuf.plbuf mc.recv_msgbuf
    → length mc.recv_msgbuf.hdrbuf ≤ msghdr_size
    → absorbed mc.recv_msgbuf ++ (fd.stream ++ future) ≡ frames xdr ms
    → Takes xdr ms future (parsed (parse_message xdr mc.recv_msgbuf) mc fd)
complete-Takes xdr [] future mc fd a v w l e =
    absurd (whole_nonempty mc.recv_msgbuf.plbuf mc.recv_msgbuf _ v w e)
complete-Takes xdr (m ∷ rest) future mc fd a v w l e =
    let pr = mc.recv_msgbuf in
    let g = whole_frame xdr m.body (frames xdr rest) (fd.stream ++ future) pr.plbuf pr a.0 v w e in
    let p = parse_whole xdr m.body pr.plbuf pr.hdrbuf pr.bytes_recvd a.0 g.0 g.2 in
    subst (λ o. Takes xdr (m ∷ rest) future (parsed o mc fd)) (sym p)
      (takes m rest refl refl (omega arith, l) g.1)

-- `recv_message` after `fill_msgbuf` has returned `r`.
done-Takes :
    (st : Fill.Status) (xdr : Xdr) (ms : List Message) (future before : List ℕ) (mc : Msgchan)
    (r : Filled)
    → r.status ≡ st
    → AllSendable xdr ms
    → Fills before r
    → before ++ future ≡ frames xdr ms
    → Takes xdr ms future (recv_done st xdr (record mc { recv_msgbuf = r.pr }) r.fd)
done-Takes st xdr ms future before mc r e a f j = go st e
  where
    c : absorbed r.pr ++ (r.fd.stream ++ future) ≡ frames xdr ms
    c =
        sym (append_assoc (absorbed r.pr) r.fd.stream future)
        ∙ ap (λ l. l ++ future) f.keeps.conserves
        ∙ j

    go :
        (st : Fill.Status)
        → r.status ≡ st
        → Takes xdr ms future (recv_done st xdr (record mc { recv_msgbuf = r.pr }) r.fd)
    go Fill.complete e =
        complete-Takes xdr ms future (record mc { recv_msgbuf = r.pr }) r.fd a f.keeps.valid
          (f.whole e) (header_bound r.pr.plbuf r.pr f.keeps.valid) c
    go Fill.incomplete e = stays (λ m k. cc) (λ k. cc) f.keeps.valid c
    go Fill.aborted e = absurd (f.keeps.asserted e)
    go (Fill.error x) e = stays (λ m k. cc) (λ k. cc) f.keeps.valid c

-- However the bytes are cut up, and whichever reads fail, one call of `recv_message` either takes
-- exactly the next message that was sent off the stream, or delivers none and loses no byte; and it
-- never fails an assertion.
pub recv-Takes :
    (xdr : Xdr) (alloc : ℕ → Bool) (ms : List Message) (future : List ℕ) (fd : InFd) (mc : Msgchan)
    → AllSendable xdr ms
    → IsValid mc.recv_msgbuf
    → absorbed mc.recv_msgbuf ++ (fd.stream ++ future) ≡ frames xdr ms
    → Takes xdr ms future (recv_message xdr alloc fd mc)
unfolding recv_message
recv-Takes xdr alloc ms future fd mc a v e =
    let r = fill_msgbuf alloc fd mc.recv_msgbuf in
    done-Takes r.status xdr ms future (absorbed mc.recv_msgbuf ++ fd.stream) mc r refl a
      (fill-Fills alloc fd mc.recv_msgbuf v)
      (append_assoc (absorbed mc.recv_msgbuf) fd.stream future ∙ e)

-- What a channel delivers over a series of wakeups, each with what the reads of it do: it ends at
-- the first failure, where the error callback closes the channel.
abbrev pub delivered : RecvStatus → List Message → List Message
delivered (received m) later = m ∷ later
delivered waiting later = later
delivered failed later = []
delivered aborted later = []

unfoldable pub collect : Xdr → (ℕ → Bool) → List (List ReadEvent) → List ℕ → Msgchan → List Message
collect xdr alloc [] stream mc = []
collect xdr alloc (evs ∷ wakeups) stream mc =
    let r = recv_message xdr alloc (record { stream = stream; events = evs }) mc in
    let later = collect xdr alloc wakeups r.fd.stream r.mc in delivered r.status later

-- The first list is a beginning of the second.
abbrev pub IsBeginning : List Message → List Message → Type 0
IsBeginning xs ys = (zs : List Message) × (ys ≡ xs ++ zs)

delivered-stays :
    (st : RecvStatus) (later ms : List Message)
    → ((m : Message) → st ≢ received m)
    → IsBeginning later ms
    → IsBeginning (delivered st later) ms
delivered-stays (received m) later ms n h = absurd (n m refl)
delivered-stays waiting later ms n h = h
delivered-stays failed later ms n h = (ms, refl)
delivered-stays aborted later ms n h = (ms, refl)

step-IsBeginning :
    (xdr : Xdr) (ms : List Message) (future : List ℕ) (r : Received) (later : List Message)
    → AllSendable xdr ms
    → Takes xdr ms future r
    → ((ns : List Message)
        → AllSendable xdr ns
        → IsValid r.mc.recv_msgbuf
        → absorbed r.mc.recv_msgbuf ++ (r.fd.stream ++ future) ≡ frames xdr ns
        → IsBeginning later (map as_received ns))
    → IsBeginning (delivered r.status later) (map as_received ms)
step-IsBeginning xdr ms future r later a (stays n k v e) ih =
    delivered-stays r.status later (map as_received ms) n (ih ms a v e)
step-IsBeginning xdr ms future r later a (takes m rest q st v e) ih =
    let below = ih rest (subst (AllSendable xdr) q a).1 v e in
    subst (λ s. IsBeginning (delivered s later) (map as_received ms)) (sym st)
      (below.0, ap (map as_received) q ∙ ap (◌∷◌ (as_received m)) below.1)

-- Over any series of wakeups the messages delivered are a beginning of those that were sent.
pub collect-IsBeginning :
    (xdr : Xdr) (alloc : ℕ → Bool) (wakeups : List (List ReadEvent)) (ms : List Message)
    (future stream : List ℕ) (mc : Msgchan)
    → AllSendable xdr ms
    → IsValid mc.recv_msgbuf
    → absorbed mc.recv_msgbuf ++ (stream ++ future) ≡ frames xdr ms
    → IsBeginning (collect xdr alloc wakeups stream mc) (map as_received ms)
unfolding collect
collect-IsBeginning xdr alloc [] ms future stream mc a v e = (map as_received ms, refl)
collect-IsBeginning xdr alloc (evs ∷ wakeups) ms future stream mc a v e =
    let fd : InFd = record { stream = stream; events = evs } in
    let r = recv_message xdr alloc fd mc in
    step-IsBeginning xdr ms future r (collect xdr alloc wakeups r.fd.stream r.mc) a
      (recv-Takes xdr alloc ms future fd mc a v e)
      (λ ns. collect-IsBeginning xdr alloc wakeups ns future r.fd.stream r.mc)
