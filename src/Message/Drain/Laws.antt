-- ===== src/Message/Drain/Laws.antt =====
-- message.c: what `drain_msgbuf` puts on the wire, and when it ends.
use enthrall.Prelude.{
  ℕ, zero, suc, ◌+◌, ◌-◌, ◌≤◌, ◌<◌, ◌≡◌, refl, sym, ap, ◌∙◌, none, List, [], ◌∷◌, ◌++◌, length,
  take, drop, min, ltb, arith, length-take, length-drop, drop_all, drop-drop, take-append-drop,
  append_assoc, Bool-cases, inl, inr, ◌⊎◌, ◌≢◌, ltb→lt, map, append-nil,
}
use enthrall.Message.Codec.{PartSend}
use enthrall.Message.Drain.{
  WriteEvent, accepts, would_block, write_error, Status, complete, incomplete, error, Drained,
  bytes, unsent, finish, stop, offered, drain_msgbuf,
}

-- The buffer holds `len` bytes, and no more are sent than there are.
pub record IsValid (ps : PartSend) : Type 0 where
  pub whole : length (bytes ps.buf) ≡ ps.len
  pub within : ps.bytes_sent ≤ ps.len

abbrev advance : PartSend → ℕ → PartSend
advance ps k = record ps { bytes_sent = ps.bytes_sent + length (offered k ps) }

length-offered :
    (ps : PartSend) (k : ℕ)
    → IsValid ps
    → length (offered k ps) ≡ min (suc k) (ps.len - ps.bytes_sent)
length-offered ps k v = omega (
  arith,
  length-take (min (suc k) (ps.len - ps.bytes_sent)) (unsent ps),
  length-drop ps.bytes_sent (bytes ps.buf),
)

advance-IsValid : (ps : PartSend) (k : ℕ) → IsValid ps → IsValid (advance ps k)
advance-IsValid ps k v = record { whole = v.whole; within = omega (arith, length-offered ps k v) }

drop_short {ℓ} : {A : Type ℓ} (n : ℕ) (xs : List A) → drop (length (take n xs)) xs ≡ drop n xs
drop_short zero xs = refl
drop_short (suc n) [] = refl
drop_short (suc n) (x ∷ xs) = drop_short n xs

offered-unsent : (ps : PartSend) (k : ℕ) → offered k ps ++ unsent (advance ps k) ≡ unsent ps
offered-unsent ps k =
    rw
      (
        drop-drop ps.bytes_sent (length (offered k ps)) (bytes ps.buf),
        drop_short (min (suc k) (ps.len - ps.bytes_sent)) (unsent ps),
      )
      (take-append-drop (min (suc k) (ps.len - ps.bytes_sent)) (unsent ps))

-- What one call does: the bytes that went out and the bytes that are left are together those that
-- had to go out; the state stays valid; on the result 1 the buffer is released, and on any other
-- the buffer is the old one and has bytes left.
pub record Drains (ps : PartSend) (d : Drained) : Type 0 where
  pub conserves : d.written ++ unsent d.ps ≡ unsent ps
  pub valid : IsValid d.ps
  pub done : d.status ≡ complete → d.ps ≡ record { buf = none; len = 0; bytes_sent = 0 }
  pub kept :
      d.status ≢ complete → (d.ps.buf ≡ ps.buf) × (d.ps.len ≡ ps.len) × (d.ps.bytes_sent < ps.len)

finish-Drains :
    (ps : PartSend) (evs : List WriteEvent)
    → IsValid ps
    → ps.len ≤ ps.bytes_sent
    → Drains ps (finish ps evs)
finish-Drains ps evs v h = record {
  conserves = sym (drop_all ps.bytes_sent (bytes ps.buf) (omega arith));
  valid = record { whole = omega arith; within = omega arith };
  done = λ _. refl;
  kept = λ n. absurd (n refl);
}

stop-Drains :
    (ps : PartSend) (s : Status) (evs : List WriteEvent)
    → IsValid ps
    → ps.bytes_sent < ps.len
    → s ≢ complete
    → Drains ps (stop s ps evs)
stop-Drains ps s evs v h n = record {
  conserves = refl;
  valid = v;
  done = λ e. absurd (n e);
  kept = λ _. (refl, refl, h);
}

step-Drains :
    (ps : PartSend) (k : ℕ) (d : Drained)
    → Drains (advance ps k) d
    → Drains ps (record d { written = offered k ps ++ d.written })
step-Drains ps k d h = record {
  conserves =
      append_assoc (offered k ps) d.written (unsent d.ps)
      ∙ ap (◌++◌ (offered k ps)) h.conserves
      ∙ offered-unsent ps k;
  valid = h.valid;
  done = h.done;
  kept = h.kept;
}

-- Whatever write(2) does on each call, the bytes that `drain_msgbuf` writes and those still to go out
-- are together those that had to go out; the buffer stays valid; on the result 1 it is released, and on
-- any other it is the old one with bytes left.
pub drain-Drains :
    (evs : List WriteEvent) (ps : PartSend) → IsValid ps → Drains ps (drain_msgbuf evs ps)
unfolding drain_msgbuf
drain-Drains [] ps v = elim (Bool-cases (ltb ps.bytes_sent ps.len)) [
  | inl t ↦ rw t (stop-Drains ps incomplete [] v (ltb→lt _ _ t) (λ e. cc))
  | inr f ↦ rw f (finish-Drains ps [] v (ground arith))
]
drain-Drains (would_block ∷ evs) ps v = elim (Bool-cases (ltb ps.bytes_sent ps.len)) [
  | inl t ↦ rw t (stop-Drains ps incomplete evs v (ltb→lt _ _ t) (λ e. cc))
  | inr f ↦ rw f (finish-Drains ps (would_block ∷ evs) v (ground arith))
]
drain-Drains (write_error n ∷ evs) ps v = elim (Bool-cases (ltb ps.bytes_sent ps.len)) [
  | inl t ↦ rw t (stop-Drains ps (error n) evs v (ltb→lt _ _ t) (λ e. cc))
  | inr f ↦ rw f (finish-Drains ps (write_error n ∷ evs) v (ground arith))
]
drain-Drains (accepts k ∷ evs) ps v = elim (Bool-cases (ltb ps.bytes_sent ps.len)) [
  | inl t ↦ rw t (
      step-Drains ps k (drain_msgbuf evs (advance ps k))
        (drain-Drains evs (advance ps k) (advance-IsValid ps k v)))
  | inr f ↦ rw f (finish-Drains ps (accepts k ∷ evs) v (ground arith))
]

drain-complete :
    (ks : List ℕ) (ps : PartSend)
    → IsValid ps
    → ps.len - ps.bytes_sent ≤ length ks
    → (drain_msgbuf (map accepts ks) ps).status ≡ complete
unfolding drain_msgbuf
drain-complete [] ps v h = ground arith
drain-complete (k ∷ ks) ps v h =
    ground (arith, length-offered ps k v, drain-complete ks (advance ps k) (advance-IsValid ps k v))

-- A descriptor that takes as many writes as there are bytes left makes the call return 1, and
-- exactly the bytes that were left have gone out, in order.
pub drain-written :
    (ks : List ℕ) (ps : PartSend)
    → IsValid ps
    → ps.len - ps.bytes_sent ≤ length ks
    → ((drain_msgbuf (map accepts ks) ps).status ≡ complete)
      × ((drain_msgbuf (map accepts ks) ps).written ≡ unsent ps)
drain-written ks ps v h =
    let c = drain-complete ks ps v h in
    let d = drain-Drains (map accepts ks) ps v in
    (
      c,
      sym (append-nil _)
          ∙ ap (λ q. (drain_msgbuf (map accepts ks) ps).written ++ unsent q) (sym (d.done c))
          ∙ d.conserves,
    )

-- One of the calls fails with that error.
abbrev pub Refuses : ℕ → List WriteEvent → Type 0
Refuses errno [] = ⊥
Refuses errno (accepts k ∷ evs) = Refuses errno evs
Refuses errno (would_block ∷ evs) = Refuses errno evs
Refuses errno (write_error e ∷ evs) = (e ≡ errno) ⊎ Refuses errno evs

-- A negative result is the error of a call; a descriptor that blocks is none.
pub drain-Refuses :
    (evs : List WriteEvent) (ps : PartSend) (errno : ℕ)
    → (drain_msgbuf evs ps).status ≡ error errno
    → Refuses errno evs
unfolding drain_msgbuf
drain-Refuses [] ps n e = elim (Bool-cases (ltb ps.bytes_sent ps.len)) [
  | inl t ↦ absurd (cc (rw t at e))
  | inr f ↦ absurd (cc (rw f at e))
]
drain-Refuses (would_block ∷ evs) ps n e = elim (Bool-cases (ltb ps.bytes_sent ps.len)) [
  | inl t ↦ absurd (cc (rw t at e))
  | inr f ↦ absurd (cc (rw f at e))
]
drain-Refuses (write_error m ∷ evs) ps n e = elim (Bool-cases (ltb ps.bytes_sent ps.len)) [
  | inl t ↦ inl (cc (rw t at e))
  | inr f ↦ absurd (cc (rw f at e))
]
drain-Refuses (accepts k ∷ evs) ps n e = elim (Bool-cases (ltb ps.bytes_sent ps.len)) [
  | inl t ↦ drain-Refuses evs (advance ps k) n (rw t at e)
  | inr f ↦ absurd (cc (rw f at e))
]
