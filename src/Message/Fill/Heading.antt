-- ===== src/Message/Fill/Heading.antt =====
-- message.c: what `fill_msgbuf` has received, and its first part, which reads the header.
use enthrall.Prelude.{
  ℕ, zero, suc, ◌+◌, ◌-◌, ◌≤◌, ◌<◌, ◌≡◌, ◌≢◌, refl, ap, ◌∙◌, Option, none, some, List, [], ◌∷◌,
  ◌++◌, length, take, drop, min, ltb, arith, length-take, length-append, take_all, append_assoc,
  Bool-cases, inl, inr, ltb→lt, ◌⊎◌,
}
use enthrall.Message.Codec.{PartRecv, msghdr_size, ntohl}
use enthrall.Message.Fill.{
  ReadEvent, gives, would_block, end_of_file, read_error, ReadResult, got, again, eof, failed, read,
  Status, complete, incomplete, aborted, error, einval, Filled, stop, write_at, fill_header,
}

-- The bytes of the current message that have been received.
abbrev pub absorbed_by : Option (List ℕ) → PartRecv → List ℕ
absorbed_by none pr = take pr.bytes_recvd pr.hdrbuf
absorbed_by (some p) pr = pr.hdrbuf ++ p

abbrev pub absorbed : PartRecv → List ℕ
absorbed pr = absorbed_by pr.plbuf pr

-- Without a payload buffer the count is that of header bytes; with one the header is whole, and the
-- payload received is not longer than the header says.
abbrev pub IsValidWith : Option (List ℕ) → PartRecv → Type 0
IsValidWith none pr = (pr.bytes_recvd ≤ length pr.hdrbuf) × (length pr.hdrbuf ≤ msghdr_size)
IsValidWith (some p) pr =
    (length pr.hdrbuf ≡ msghdr_size)
    × (pr.bytes_recvd ≡ msghdr_size + length p)
    × (length p ≤ ntohl pr.hdrbuf)

abbrev pub IsValid : PartRecv → Type 0
IsValid pr = IsValidWith pr.plbuf pr

-- The message is whole: a payload of the length that the header says.
abbrev pub IsWholeWith : Option (List ℕ) → PartRecv → Type 0
IsWholeWith none pr = ⊥
IsWholeWith (some p) pr = length p ≡ ntohl pr.hdrbuf

abbrev pub IsWhole : PartRecv → Type 0
IsWhole pr = IsWholeWith pr.plbuf pr

-- Received and unread bytes are together what they were; the state stays valid; no assertion fails.
pub record Keeps (before : List ℕ) (r : Filled) : Type 0 where
  pub conserves : absorbed r.pr ++ r.fd.stream ≡ before
  pub valid : IsValid r.pr
  pub asserted : r.status ≢ aborted

take-nonempty {ℓ} :
    {A : Type ℓ} (k n : ℕ) (b : A) (bs : List A)
    → 0 < n
    → 0 < length (take (min (suc k) n) (b ∷ bs))
take-nonempty k n b bs h = omega (arith, length-take (min (suc k) n) (b ∷ bs))

take-drop_short {ℓ} :
    {A : Type ℓ} (n : ℕ) (xs : List A) → take n xs ++ drop (length (take n xs)) xs ≡ xs
take-drop_short zero xs = refl
take-drop_short (suc n) [] = refl
take-drop_short (suc n) (x ∷ xs) = ap (◌∷◌ x) (take-drop_short n xs)

-- The bytes that read(2) gives come off the front of the stream, at most as many as asked for.
pub read-front :
    (ev : ReadEvent) (n : ℕ) (s chunk : List ℕ)
    → 0 < n
    → read ev n s ≡ got chunk
    → (chunk ++ drop (length chunk) s ≡ s) × (length chunk ≤ n) × (0 < length chunk)
read-front (gives k) n [] chunk h e = cc
read-front (gives k) n (b ∷ bs) chunk h e =
    let e' : take (min (suc k) n) (b ∷ bs) ≡ chunk = cc in
    rw (← e') (
      take-drop_short (min (suc k) n) (b ∷ bs),
      omega (arith, length-take (min (suc k) n) (b ∷ bs)),
      take-nonempty k n b bs h,
    )
read-front would_block n s chunk h e = cc
read-front end_of_file n s chunk h e = cc
read-front (read_error x) n s chunk h e = cc

abbrev pub heading : List ℕ → ℕ → PartRecv
heading h n = record { hdrbuf = h; plbuf = none; bytes_recvd = n }

abbrev pub filling : List ℕ → List ℕ → ℕ → PartRecv
filling h p n = record { hdrbuf = h; plbuf = some p; bytes_recvd = n }

-- What the first loop does to a message whose header is not whole yet.
pub record Heads (before : List ℕ) (r : Filled) : Type 0 where
  pub plain : r.pr ≡ heading r.pr.hdrbuf r.pr.bytes_recvd
  pub conserves : take r.pr.bytes_recvd r.pr.hdrbuf ++ r.fd.stream ≡ before
  pub received : r.pr.bytes_recvd ≤ length r.pr.hdrbuf
  pub bounded : length r.pr.hdrbuf ≤ msghdr_size
  pub whole : r.status ≡ complete → r.pr.bytes_recvd ≡ msghdr_size
  pub asserted : r.status ≢ aborted

stop-Heads :
    (st : Status) (h : List ℕ) (n : ℕ) (s : List ℕ) (evs : List ReadEvent)
    → n ≤ length h
    → length h ≤ msghdr_size
    → (st ≡ complete → n ≡ msghdr_size)
    → st ≢ aborted
    → Heads (take n h ++ s) (stop st (heading h n) s evs)
stop-Heads st h n s evs a b w c = record {
  plain = refl;
  conserves = refl;
  received = a;
  bounded = b;
  whole = w;
  asserted = c;
}

pub read-cases :
    (r : ReadResult)
    → ((chunk : List ℕ) × (r ≡ got chunk)) ⊎ (r ≡ again) ⊎ (r ≡ eof) ⊎ ((e : ℕ) × (r ≡ failed e))
read-cases (got chunk) = inl (chunk, refl)
read-cases again = inr (inl refl)
read-cases eof = inr (inr (inl refl))
read-cases (failed e) = inr (inr (inr (e, refl)))

-- A chunk of the header goes behind what is there.
advance_header :
    (h s chunk : List ℕ) (n : ℕ)
    → n ≤ length h
    → length chunk ≤ msghdr_size - n
    → n < msghdr_size
    → chunk ++ drop (length chunk) s ≡ s
    → (n + length chunk ≤ length (write_at h n chunk))
      × (length (write_at h n chunk) ≤ msghdr_size)
      × (take (n + length chunk) (write_at h n chunk) ++ drop (length chunk) s ≡ take n h ++ s)
advance_header h s chunk n a c lt e = (bounds.0, bounds.1, bytes)
  where
    size : length (write_at h n chunk) ≡ n + length chunk
    size = omega (arith, length-append (take n h) chunk, length-take n h)

    bounds :
        (n + length chunk ≤ length (write_at h n chunk))
        × (length (write_at h n chunk) ≤ msghdr_size)
    bounds = omega (arith, size)

    bytes : take (n + length chunk) (write_at h n chunk) ++ drop (length chunk) s ≡ take n h ++ s
    bytes =
        rw (take_all (n + length chunk) (write_at h n chunk) (omega (arith, size)))
          (append_assoc (take n h) chunk (drop (length chunk) s) ∙ ap (◌++◌ (take n h)) e)

pub header-Heads :
    (evs : List ReadEvent) (s h : List ℕ) (n : ℕ)
    → n ≤ length h
    → length h ≤ msghdr_size
    → Heads (take n h ++ s) (fill_header evs s (heading h n))
unfolding fill_header
header-Heads [] s h n a b = elim (Bool-cases (ltb n msghdr_size)) [
  | inl t ↦ rw t (stop-Heads incomplete h n s [] a b (λ e. cc) (λ e. cc))
  | inr f ↦ rw f (stop-Heads complete h n s [] a b (λ e. ground arith) (λ e. cc))
]
header-Heads (ev ∷ evs) s h n a b = elim (Bool-cases (ltb n msghdr_size)) [
  | inr f ↦ rw f (stop-Heads complete h n s (ev ∷ evs) a b (λ e. ground arith) (λ e. cc))
  | inl t ↦ rw t (elim (read-cases (read ev (msghdr_size - n) s)) [
    | inr (inl e) ↦ rw e (stop-Heads incomplete h n s evs a b (λ e. cc) (λ e. cc))
    | inr (inr (inl e)) ↦ rw e (stop-Heads (error einval) h n s evs a b (λ e. cc) (λ e. cc))
    | inr (inr (inr (x, e))) ↦ rw e (stop-Heads (error x) h n s evs a b (λ e. cc) (λ e. cc))
    | inl (chunk, e) ↦
        let lt = ltb→lt _ _ t in
        let f = read-front ev (msghdr_size - n) s chunk (omega arith) e in
        let g = advance_header h s chunk n a f.1 lt f.0 in
        rw (e, ← g.2)
          (header-Heads evs (drop (length chunk) s) (write_at h n chunk) (n + length chunk) g.0 g.1)
  ])
]

-- What the second loop does to a message whose header is whole.
