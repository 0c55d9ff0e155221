-- ===== src/Message/Fill/Laws.antt =====
-- message.c: what `fill_msgbuf` takes off the stream, and that a complete message is whole.
use enthrall.Prelude.{
  ℕ, ◌+◌, ◌-◌, ◌≤◌, ◌≡◌, ◌≢◌, refl, sym, ap, ◌∙◌, Option, none, some, List, [], ◌∷◌, ◌++◌, length,
  take, drop, ltb, Bool, arith, length-append, take_all, append_assoc, append-nil, Bool-cases, inl,
  inr, ltb→lt, subst,
}
use enthrall.Message.Codec.{PartRecv, msghdr_size, ntohl}
use enthrall.Message.Fill.{
  ReadEvent, InFd, read, Status, complete, incomplete, aborted, error, einval, Filled, stop,
  write_at, fill_header, fill_payload, to_read, after_header, resume_fill, fill_msgbuf,
}
use enthrall.Message.Fill.Heading.{
  absorbed_by, absorbed, IsValidWith, IsValid, IsWhole, Keeps, read-front, heading, filling, Heads,
  read-cases, header-Heads,
}

record Bodies (h before : List ℕ) (r : Filled) : Type 0 where
  keeps : Keeps before r
  whole : r.status ≡ complete → IsWhole r.pr

stop-Bodies :
    (st : Status) (h p : List ℕ) (n m : ℕ) (s : List ℕ) (evs : List ReadEvent)
    → length h ≡ msghdr_size
    → n ≡ msghdr_size + length p
    → m + length p ≡ ntohl h
    → (st ≡ complete → m ≡ 0)
    → st ≢ aborted
    → Bodies h ((h ++ p) ++ s) (stop st (filling h p n) s evs)
stop-Bodies st h p n m s evs a b c w d = record {
  keeps = record { conserves = refl; valid = (a, b, omega arith); asserted = d };
  whole = λ e. omega (arith, w e);
}

payload-Bodies :
    (evs : List ReadEvent) (s h p : List ℕ) (n m : ℕ)
    → length h ≡ msghdr_size
    → n ≡ msghdr_size + length p
    → m + length p ≡ ntohl h
    → Bodies h ((h ++ p) ++ s) (fill_payload evs s (filling h p n) p m)
unfolding fill_payload
payload-Bodies [] s h p n m a b c = elim (Bool-cases (ltb 0 m)) [
  | inl t ↦ rw t (stop-Bodies incomplete h p n m s [] a b c (λ e. cc) (λ e. cc))
  | inr f ↦ rw f (stop-Bodies complete h p n m s [] a b c (λ e. ground arith) (λ e. cc))
]
payload-Bodies (ev ∷ evs) s h p n m a b c = elim (Bool-cases (ltb 0 m)) [
  | inr f ↦ rw f (stop-Bodies complete h p n m s (ev ∷ evs) a b c (λ e. ground arith) (λ e. cc))
  | inl t ↦ rw t (elim (read-cases (read ev m s)) [
    | inr (inl e) ↦ rw e (stop-Bodies incomplete h p n m s evs a b c (λ e. cc) (λ e. cc))
    | inr (inr (inl e)) ↦ rw e (stop-Bodies (error einval) h p n m s evs a b c (λ e. cc) (λ e. cc))
    | inr (inr (inr (x, e))) ↦ rw e (stop-Bodies (error x) h p n m s evs a b c (λ e. cc) (λ e. cc))
    | inl (chunk, e) ↦
        let f = read-front ev m s chunk (ltb→lt _ _ t) e in
        let w : write_at p (n - msghdr_size) chunk ≡ p ++ chunk =
          ap (λ q. q ++ chunk) (take_all (n - msghdr_size) p (omega arith)) in
        let j : (h ++ (p ++ chunk)) ++ drop (length chunk) s ≡ (h ++ p) ++ s =
          rw (← append_assoc h p chunk, append_assoc (h ++ p) chunk (drop (length chunk) s), f.0)
            refl in
        let l = length-append p chunk in
        rw (e, w, ← j)
          (payload-Bodies evs (drop (length chunk) s) h (p ++ chunk) (n + length chunk)
            (m - length chunk) a (omega (arith, l)) (omega (arith, l)))
  ])
]

-- What one call of `fill_msgbuf` does.
pub record Fills (before : List ℕ) (r : Filled) : Type 0 where
  pub keeps : Keeps before r
  pub whole : r.status ≡ complete → IsWhole r.pr

after-Fills :
    (alloc : ℕ → Bool) (h : List ℕ) (fd : InFd)
    → length h ≡ msghdr_size
    → Fills (h ++ fd.stream) (after_header alloc (heading h msghdr_size) fd)
unfolding after_header
after-Fills alloc h fd a = elim (Bool-cases (alloc (ntohl h))) [
  | inl t ↦
      let b =
        payload-Bodies fd.events fd.stream h [] msghdr_size (to_read (heading h msghdr_size)) a refl
          (omega arith) in
      rw t (record { keeps = rw (append-nil h) at b.keeps; whole = b.whole })
  | inr f ↦ rw f (record {
    keeps = record {
      conserves = ap (λ l. l ++ fd.stream) (take_all msghdr_size h (omega arith));
      valid = omega arith;
      asserted = λ e. cc;
    };
    whole = λ e. cc;
  })
]

pub header_skip :
    (evs : List ReadEvent) (s : List ℕ) (pr : PartRecv)
    → msghdr_size ≤ pr.bytes_recvd
    → fill_header evs s pr ≡ stop complete pr s evs
unfolding fill_header
header_skip [] s pr h = ground arith
header_skip (ev ∷ evs) s pr h = ground arith

unchanged :
    (before : List ℕ) (st : Status) (r : Filled)
    → r.status ≡ st
    → st ≢ complete
    → Heads before r
    → Fills before r
unchanged before st r e n hd =
    let v : IsValid r.pr = subst IsValid (sym hd.plain) (hd.received, hd.bounded) in
    let c : absorbed r.pr ++ r.fd.stream ≡ before =
      subst (λ q. absorbed q ++ r.fd.stream ≡ before) (sym hd.plain) hd.conserves in
    record {
      keeps = record { conserves = c; valid = v; asserted = hd.asserted };
      whole = λ f. absurd (n (sym e ∙ f));
    }

-- From the end of the first loop on.
resume-Fills :
    (alloc : ℕ → Bool) (before : List ℕ) (st : Status) (r : Filled)
    → r.status ≡ st
    → Heads before r
    → Fills before (elim st [ complete ↦ after_header alloc r.pr r.fd | _ ↦ r ])
resume-Fills alloc before complete r e hd =
    let h = r.pr.hdrbuf in
    let whole : r.pr ≡ heading h msghdr_size = hd.plain ∙ ap (heading h) (hd.whole e) in
    let len : length h ≡ msghdr_size = omega (arith, hd.whole e, hd.received, hd.bounded) in
    let j : h ++ r.fd.stream ≡ before =
      ap (λ l. l ++ r.fd.stream)
        (sym (take_all r.pr.bytes_recvd h (omega (arith, len, hd.whole e))))
      ∙ hd.conserves in
    subst (λ q. Fills before (after_header alloc q r.fd)) (sym whole)
      (subst (λ b. Fills b (after_header alloc (heading h msghdr_size) r.fd)) j
        (after-Fills alloc h r.fd len))
resume-Fills alloc before incomplete r e hd = unchanged before incomplete r e (λ x. cc) hd
resume-Fills alloc before aborted r e hd = unchanged before aborted r e (λ x. cc) hd
resume-Fills alloc before (error x) r e hd = unchanged before (error x) r e (λ x. cc) hd

plbuf-Fills :
    (alloc : ℕ → Bool) (fd : InFd) (pl : Option (List ℕ)) (h : List ℕ) (n : ℕ)
    → let pr : PartRecv = record { hdrbuf = h; plbuf = pl; bytes_recvd = n } in
      IsValidWith pl pr → Fills (absorbed_by pl pr ++ fd.stream) (fill_msgbuf alloc fd pr)
unfolding fill_msgbuf
plbuf-Fills alloc fd none h n v =
    let r = fill_header fd.events fd.stream (heading h n) in
    unfold resume_fill in
    resume-Fills alloc (take n h ++ fd.stream) r.status r refl
      (header-Heads fd.events fd.stream h n v.0 v.1)
plbuf-Fills alloc fd (some p) h n v =
    let m = to_read (filling h p n) in
    let b = payload-Bodies fd.events fd.stream h p n m v.0 v.1 (omega (arith, v.1, v.2)) in
    rw (header_skip fd.events fd.stream (filling h p n) (omega (arith, v.1)))
      (unfold after_header resume_fill in record { keeps = b.keeps; whole = b.whole })

-- Whatever read(2) and malloc(3) do on each call, `fill_msgbuf` loses no byte, invents none, reads
-- none of the next message, keeps its buffers valid and never fails its assertion; and when it
-- returns 1 the message is whole.
pub fill-Fills :
    (alloc : ℕ → Bool) (fd : InFd) (pr : PartRecv)
    → IsValid pr
    → Fills (absorbed pr ++ fd.stream) (fill_msgbuf alloc fd pr)
fill-Fills alloc fd pr v = plbuf-Fills alloc fd pr.plbuf pr.hdrbuf pr.bytes_recvd v
