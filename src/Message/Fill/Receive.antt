-- ===== src/Message/Fill/Receive.antt =====
-- message.c: a frame that arrives in any pieces is received as the message that was sent.
use enthrall.Prelude.{
  ℕ, ◌+◌, ◌-◌, ◌≤◌, ◌≡◌, refl, sym, ap, ◌∙◌, Option, none, some, List, [], ◌++◌, map, length, Bool,
  true, arith, length-take, length-append, append_assoc, append-inj, take_all, subst, take,
}
use enthrall.Message.{Msgbody}
use enthrall.Message.Codec.{
  Xdr, IsSendable, PartRecv, msghdr_size, htonl, ntohl, ntohl-htonl, parse_message, frame,
}
use enthrall.Message.Fill.{
  gives, InFd, complete, Filled, fill_header, to_read, after_header, resume_fill, fill_msgbuf,
}
use enthrall.Message.Fill.Heading.{
  absorbed, absorbed_by, IsValid, IsValidWith, IsWholeWith, heading, filling, header-Heads,
}
use enthrall.Message.Fill.Laws.{fill-Fills, header_skip}
use enthrall.Message.Fill.Progress.{payload-complete, header-Supplied}

length-htonl : (n : ℕ) → length (htonl n) ≡ msghdr_size
unfolding htonl
length-htonl n = refl

-- A whole message that was cut from a stream which begins with a frame is that frame.
pub whole_frame :
    (xdr : Xdr) (b : Msgbody) (rest stream : List ℕ) (pl : Option (List ℕ)) (pr : PartRecv)
    → IsSendable xdr b
    → IsValidWith pl pr
    → IsWholeWith pl pr
    → absorbed_by pl pr ++ stream ≡ frame xdr b ++ rest
    → (pl ≡ some (xdr.encode b))
      × (stream ≡ rest)
      × (pr.bytes_recvd ≡ msghdr_size + length (xdr.encode b))
whole_frame xdr b rest stream none pr v w h e = absurd h
whole_frame xdr b rest stream (some p) pr v w h e =
    let body = xdr.encode b in
    let heads =
      append-inj pr.hdrbuf (htonl (length body)) (w.0 ∙ sym (length-htonl (length body))) (
        sym (append_assoc pr.hdrbuf p stream) ∙ e ∙ append_assoc (htonl (length body)) body rest) in
    let size : length p ≡ length body =
      h ∙ ap ntohl heads.0 ∙ ntohl-htonl (length body) (omega (arith, v.measured, v.fits)) in
    let tails = append-inj p body size heads.1 in
    (ap some tails.0, tails.1, w.1 ∙ ap (λ k. msghdr_size + k) size)

length-absorbed :
    (pl : Option (List ℕ)) (pr : PartRecv)
    → IsValidWith pl pr
    → length (absorbed_by pl pr) ≡ pr.bytes_recvd
length-absorbed none pr v = omega (arith, length-take pr.bytes_recvd pr.hdrbuf)
length-absorbed (some p) pr v = omega (arith, length-append pr.hdrbuf p, v)

module _ (alloc : ℕ → Bool) (xdr : Xdr) (b : Msgbody) (rest ks : List ℕ)
    (sendable : IsSendable xdr b) (allocated : alloc (length (xdr.encode b)) ≡ true) where
  after_complete :
      (h s es : List ℕ)
      → length h ≡ msghdr_size
      → h ++ s ≡ frame xdr b ++ rest
      → length (xdr.encode b) ≤ length es
      → (after_header alloc
          (heading h msghdr_size)
          (record { stream = s; events = map gives es })).status
        ≡ complete
  unfolding after_header
  after_complete h s es len e enough =
      let body = xdr.encode b in
      let heads =
        append-inj h (htonl (length body)) (len ∙ sym (length-htonl (length body)))
          (e ∙ append_assoc (htonl (length body)) body rest) in
      let size : ntohl h ≡ length body =
        ap ntohl heads.0
        ∙ ntohl-htonl (length body) (omega (arith, sendable.measured, sendable.fits)) in
      rw (size, allocated)
        (payload-complete es s (filling h [] msghdr_size) []
          (length body - (msghdr_size - msghdr_size)) (omega arith)
          (omega (arith, ap length heads.1, length-append body rest)))

  -- The first loop has returned 1 with a whole header.
  resume_complete :
      (r : Filled) (es : List ℕ)
      → r.status ≡ complete
      → r.pr ≡ heading r.pr.hdrbuf msghdr_size
      → length r.pr.hdrbuf ≡ msghdr_size
      → r.pr.hdrbuf ++ r.fd.stream ≡ frame xdr b ++ rest
      → r.fd.events ≡ map gives es
      → length (xdr.encode b) ≤ length es
      → (resume_fill alloc r).status ≡ complete
  unfolding resume_fill
  resume_complete r es done plain len e evs enough =
      let fd : InFd = record { stream = r.fd.stream; events = map gives es } in
      let same : r.fd ≡ fd = λ i. record { stream = r.fd.stream; events = evs i } in
      rw (done, resume_fill)
        (subst (λ q. (after_header alloc q r.fd).status ≡ complete) (sym plain)
          (subst (λ f. (after_header alloc (heading r.pr.hdrbuf msghdr_size) f).status ≡ complete)
            (sym same) (after_complete r.pr.hdrbuf r.fd.stream es len e enough)))

  complete_with :
      (pl : Option (List ℕ)) (h s : List ℕ) (n : ℕ)
      → let pr : PartRecv = record { hdrbuf = h; plbuf = pl; bytes_recvd = n } in
        IsValidWith pl pr
        → absorbed_by pl pr ++ s ≡ frame xdr b ++ rest
        → length (frame xdr b) ≤ length ks + n
        → (fill_msgbuf alloc (record { stream = s; events = map gives ks }) pr).status ≡ complete
  unfolding fill_msgbuf
  complete_with none h s n v e enough =
      let body = xdr.encode b in
      let size = length-append (htonl (length body)) body in
      let hdr = length-htonl (length body) in
      let total : n + length s ≡ msghdr_size + length body + length rest = omega (
        arith,
        ap length e,
        length-append (take n h) s,
        length-append (frame xdr b) rest,
        length-take n h,
        size,
        hdr,
        v,
      ) in
      let sup = header-Supplied ks s (heading h n) (omega (arith, size, hdr)) (omega arith) in
      let r = fill_header (map gives ks) s (heading h n) in
      let hd = header-Heads (map gives ks) s h n v.0 v.1 in
      let w = hd.whole sup.done in
      let len : length r.pr.hdrbuf ≡ msghdr_size = omega (arith, hd.received, hd.bounded, w) in
      let conserved : r.pr.hdrbuf ++ r.fd.stream ≡ frame xdr b ++ rest =
        ap (λ l. l ++ r.fd.stream)
          (sym (take_all r.pr.bytes_recvd r.pr.hdrbuf (omega (arith, len, w))))
        ∙ hd.conserves
        ∙ e in
      resume_complete r sup.reads sup.done (hd.plain ∙ ap (heading r.pr.hdrbuf) w) len conserved
        sup.events (omega (arith, sup.enough, size, hdr, w))
  complete_with (some p) h s n v e enough =
      let body = xdr.encode b in
      let size = length-append (htonl (length body)) body in
      let hdr = length-htonl (length body) in
      let heads =
        append-inj h (htonl (length body)) (v.0 ∙ sym hdr)
          (sym (append_assoc h p s) ∙ e ∙ append_assoc (htonl (length body)) body rest) in
      let said : ntohl h ≡ length body =
        ap ntohl heads.0
        ∙ ntohl-htonl (length body) (omega (arith, sendable.measured, sendable.fits)) in
      let total = ap length heads.1 in
      rw (header_skip (map gives ks) s (filling h p n) (omega (arith, v.1))) (
        unfold resume_fill after_header in
        payload-complete ks s (filling h p n) p (to_read (filling h p n))
          (omega (arith, said, size, hdr, v.1))
          (omega (arith, said, total, length-append p s, length-append body rest, v.1)))

  -- Where malloc(3) gives the memory for the payload, a descriptor that gives as many reads as bytes
  -- of the frame of a body that can be sent are missing, with the bytes there, makes `fill_msgbuf`
  -- return 1, from any valid buffers that hold the beginning of that frame.
  pub fill-complete :
      (fd : InFd) (pr : PartRecv)
      → IsValid pr
      → absorbed pr ++ fd.stream ≡ frame xdr b ++ rest
      → fd.events ≡ map gives ks
      → length (frame xdr b) ≤ length ks + pr.bytes_recvd
      → (fill_msgbuf alloc fd pr).status ≡ complete
  fill-complete fd pr v e evs enough =
      let same : fd ≡ record { stream = fd.stream; events = map gives ks } =
        λ i. record { stream = fd.stream; events = evs i } in
      subst (λ f. (fill_msgbuf alloc f pr).status ≡ complete) (sym same)
        (complete_with pr.plbuf pr.hdrbuf fd.stream pr.bytes_recvd v e enough)

pub parse_whole :
    (xdr : Xdr) (b : Msgbody) (pl : Option (List ℕ)) (h : List ℕ) (n : ℕ)
    → IsSendable xdr b
    → pl ≡ some (xdr.encode b)
    → n ≡ msghdr_size + length (xdr.encode b)
    → parse_message xdr (record { hdrbuf = h; plbuf = pl; bytes_recvd = n })
      ≡ some (
        record { body = b; from_xdr = true },
        record { hdrbuf = h; plbuf = none; bytes_recvd = 0 },
      )
unfolding parse_message
parse_whole xdr b pl h n v e k =
    let all : take (n - msghdr_size) (xdr.encode b) ≡ xdr.encode b =
      take_all (n - msghdr_size) (xdr.encode b) (omega arith) in
    rw (e, all, v.reads_back, parse_message)

-- Whenever `fill_msgbuf` returns 1 on a stream that goes on with a frame, however the frame was cut
-- up and however much of it had come before, `parse_message` yields the body that was sent, the
-- buffers are ready for the next message, and exactly the frame has been taken off the stream.
pub receive-frame :
    (alloc : ℕ → Bool) (xdr : Xdr) (b : Msgbody) (rest : List ℕ) (fd : InFd) (pr : PartRecv)
    → IsSendable xdr b
    → IsValid pr
    → absorbed pr ++ fd.stream ≡ frame xdr b ++ rest
    → let r = fill_msgbuf alloc fd pr in
      r.status ≡ complete
      → (parse_message xdr r.pr
          ≡ some (
            record { body = b; from_xdr = true },
            record { hdrbuf = r.pr.hdrbuf; plbuf = none; bytes_recvd = 0 },
          ))
        × (r.fd.stream ≡ rest)
receive-frame alloc xdr b rest fd pr v w e done =
    let r = fill_msgbuf alloc fd pr in
    let f = fill-Fills alloc fd pr w in
    let g =
      whole_frame xdr b rest r.fd.stream r.pr.plbuf r.pr v f.keeps.valid (f.whole done)
        (f.keeps.conserves ∙ e) in
    (parse_whole xdr b r.pr.plbuf r.pr.hdrbuf r.pr.bytes_recvd v g.0 g.2, g.1)
