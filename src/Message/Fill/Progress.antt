-- ===== src/Message/Fill/Progress.antt =====
-- message.c: `fill_msgbuf` returns 1 once the descriptor gives what is missing of a message.
use enthrall.Prelude.{
  ℕ, suc, ◌+◌, ◌-◌, ◌≤◌, ◌<◌, ◌≡◌, refl, List, [], ◌∷◌, map, length, take, drop, min, ltb, arith,
  length-take, length-drop, Bool-cases, inl, inr, ltb→lt,
}
use enthrall.Message.Codec.{PartRecv, msghdr_size}
use enthrall.Message.Fill.{
  gives, got, read, complete, Filled, write_at, recv_header, fill_header, recv_payload,
  fill_payload,
}

-- Where a byte has arrived, read(2) gives a chunk of it.
read-gives :
    (k n : ℕ) (s : List ℕ) → 0 < length s → read (gives k) n s ≡ got (take (min (suc k) n) s)
read-gives k n [] h = absurd (omega arith)
read-gives k n (b ∷ bs) h = refl

-- With a read for every byte that is missing, and the bytes there, the second loop finishes.
pub payload-complete :
    (ks s : List ℕ) (pr : PartRecv) (p : List ℕ) (m : ℕ)
    → m ≤ length ks
    → m ≤ length s
    → (fill_payload (map gives ks) s pr p m).status ≡ complete
unfolding fill_payload
payload-complete [] s pr p m h g = ground arith
payload-complete (k ∷ ks) s pr p m h g = elim (Bool-cases (ltb 0 m)) [
  | inr f ↦ rw f
  | inl t ↦
      let lt = ltb→lt _ _ t in
      let chunk = take (min (suc k) m) s in
      let size = length-take (min (suc k) m) s in
      let rest = length-drop (length chunk) s in
      rw (t, read-gives k m s (omega arith))
        (payload-complete ks (drop (length chunk) s) (recv_payload pr p chunk)
          (write_at p (pr.bytes_recvd - msghdr_size) chunk) (m - length chunk) (omega arith)
          (omega arith))
]

-- The first loop finishes too, and has used up no more reads and bytes than it was short of.
pub record Supplied (n : ℕ) (ks s : List ℕ) (r : Filled) : Type 0 where
  pub done : r.status ≡ complete
  pub reads : List ℕ
  pub events : r.fd.events ≡ map gives reads
  pub enough : length ks + n ≤ length reads + r.pr.bytes_recvd
  pub bytes : length r.fd.stream + r.pr.bytes_recvd ≡ length s + n

pub header-Supplied :
    (ks s : List ℕ) (pr : PartRecv)
    → msghdr_size ≤ length ks + pr.bytes_recvd
    → msghdr_size ≤ length s + pr.bytes_recvd
    → Supplied pr.bytes_recvd ks s (fill_header (map gives ks) s pr)
unfolding fill_header
header-Supplied [] s pr h g = record {
  done = ground arith;
  reads = [];
  events = ground arith;
  enough = ground arith;
  bytes = ground arith;
}
header-Supplied (k ∷ ks) s pr h g = elim (Bool-cases (ltb pr.bytes_recvd msghdr_size)) [
  | inr f ↦
      rw f
        (record { done = refl; reads = k ∷ ks; events = refl; enough = omega arith; bytes = refl })
  | inl t ↦
      let n = pr.bytes_recvd in
      let lt = ltb→lt _ _ t in
      let chunk = take (min (suc k) (msghdr_size - n)) s in
      let size = length-take (min (suc k) (msghdr_size - n)) s in
      let rest = length-drop (length chunk) s in
      let r =
        header-Supplied ks (drop (length chunk) s) (recv_header pr chunk) (omega arith)
          (omega arith) in
      rw (t, read-gives k (msghdr_size - n) s (omega arith))
        (record {
          done = r.done;
          reads = r.reads;
          events = r.events;
          enough = omega (arith, r.enough, size);
          bytes = omega (arith, r.bytes, size, rest);
        })
]
