-- ===== src/Message/Codec.antt =====
-- message.c: the length descriptor, `unparse_message` and `parse_message`. The XDR routines are
-- made by rpcgen from proto.x when the program is built, so they are a parameter.
use enthrall.Prelude.{
  ℕ, ◌+◌, ◌*◌, ◌/◌, ◌%◌, ◌^◌, ◌≤◌, ◌<◌, ◌≡◌, Option, none, some, List, [], ◌∷◌, ◌++◌, length, take,
  ◌-◌, ltb, ◌==◌, true, if◌then◌else◌, arith,
}
use enthrall.Message.{Msgbody, Message}

-- `measure` is the count of bytes that an `xdrrec` stream passes to its callback.
pub record Xdr : Type 0 where
  pub encode : Msgbody → List ℕ
  pub decode : List ℕ → Option Msgbody
  pub measure : Msgbody → ℕ

-- What xdr(3) documents of one body: it is read back as it was written, and the record stream only
-- adds bytes to it; and the length fits the descriptor.
pub record IsSendable (xdr : Xdr) (b : Msgbody) : Type 0 where
  pub reads_back : xdr.decode (xdr.encode b) ≡ some b
  pub measured : length (xdr.encode b) ≤ xdr.measure b
  pub fits : xdr.measure b < 2 ^ 32

abbrev pub msghdr_size : ℕ
msghdr_size = 4

-- The four bytes of a `uint32_t`, most significant first; a longer `size_t` loses its high half.
unfoldable pub htonl : ℕ → List ℕ
htonl n = (n / 2 ^ 24 % 256) ∷ (n / 2 ^ 16 % 256) ∷ (n / 2 ^ 8 % 256) ∷ (n % 256) ∷ []

unfoldable pub ntohl : List ℕ → ℕ
ntohl (a ∷ b ∷ c ∷ d ∷ []) = a * 2 ^ 24 + b * 2 ^ 16 + c * 2 ^ 8 + d
ntohl _ = 0

-- `struct partsend`. A null `buf` is `none`.
pub record PartSend : Type 0 where
  pub buf : Option (List ℕ)
  pub len : ℕ
  pub bytes_sent : ℕ

-- `none` is `abort()`: the body did not fit the buffer that was measured for it.
unfoldable pub unparse_message : Xdr → Msgbody → PartSend → Option PartSend
unparse_message xdr b ps =
    let xdrlen = xdr.measure b in
    let bytes = xdr.encode b in
    let pos = length bytes in
    if ltb xdrlen pos
    then none
    else if pos == xdrlen
    then some (record ps { buf = some (htonl xdrlen ++ bytes); len = xdrlen + msghdr_size })
    else some (record ps { buf = some (htonl pos ++ bytes); len = pos + msghdr_size })

-- `struct partrecv`. The two buffers hold the bytes written so far; what lies behind is unset.
pub record PartRecv : Type 0 where
  pub hdrbuf : List ℕ
  pub plbuf : Option (List ℕ)
  pub bytes_recvd : ℕ

abbrev payload : Option (List ℕ) → List ℕ
payload none = []
payload (some p) = p

-- `parse_message`, by what `xdr_msgbody` makes of the payload.
abbrev pub parse_body : Option Msgbody → PartRecv → Option (Message × PartRecv)
parse_body none pr = none
parse_body (some b) pr =
    some (record { body = b; from_xdr = true }, record pr { plbuf = none; bytes_recvd = 0 })

-- `none` is the negative result; the buffers are then left as they are.
unfoldable pub parse_message : Xdr → PartRecv → Option (Message × PartRecv)
parse_message xdr pr =
    parse_body (xdr.decode (take (pr.bytes_recvd - msghdr_size) (payload pr.plbuf))) pr

-- The length descriptor is read as it was written.
pub ntohl-htonl : (n : ℕ) → n < 2 ^ 32 → ntohl (htonl n) ≡ n
unfolding ntohl htonl
ntohl-htonl n h = omega arith

-- The bytes that stand for a body on the wire.
abbrev pub frame : Xdr → Msgbody → List ℕ
frame xdr b = htonl (length (xdr.encode b)) ++ xdr.encode b

-- Whichever branch `unparse_message` takes, the buffer is the frame, and `len` is its length.
pub unparse-frame :
    (xdr : Xdr) (b : Msgbody) (ps : PartSend)
    → IsSendable xdr b
    → unparse_message xdr b ps
      ≡ some (record ps { buf = some (frame xdr b); len = length (xdr.encode b) + msghdr_size })
unfolding unparse_message
unparse-frame xdr b ps v = ground arith
