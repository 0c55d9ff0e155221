-- ===== src/Msgchan.antt =====
-- msgchan.c: a channel queues messages to send, hands them to a descriptor as it takes them, and
-- collects those that arrive. A call takes what its descriptor does meanwhile as an argument.
pub mod Invariant
pub mod Receiving
pub mod Clearing
pub mod Outbound
pub mod Inbound
pub mod Link
mod Tests
use enthrall.Prelude.{
  is_some, ℕ, zero, suc, ◌+◌, ◌-◌, ltb, ◌==◌, not, Bool, true, false, ◌||◌, Option, none, some,
  List, [], ◌∷◌, ◌++◌, if◌then◌else◌,
}
use enthrall.Message.{Msgbody, Message}
use enthrall.Message.Codec.{Xdr, PartSend, PartRecv, unparse_message, parse_message}
use enthrall.Message.Drain.{WriteEvent, Drained, drain_msgbuf}
use enthrall.Message.Drain
use enthrall.Message.Fill.{InFd, Filled, fill_msgbuf}
use enthrall.Message.Fill

-- What a channel sees of a `struct fdmon_ctx`: whether it is registered, and its two flags.
pub record Monitor : Type 0 where
  pub registered : Bool
  pub reads : Bool
  pub writes : Bool

pub record Msgchan : Type 0 where
  pub send_fd : ℕ
  pub recv_fd : ℕ
  pub send_mon : Monitor
  pub recv_mon : Monitor
  pub recv_msgbuf : PartRecv
  pub send_msgbuf : PartSend
  -- `sendqueue`: the chain from `head` on, whose last entry is `tail`, and its count.
  pub queue : List Message
  pub num_queued : ℕ

abbrev pub empty_send : PartSend
empty_send = record { buf = none; len = 0; bytes_sent = 0 }

abbrev pub dequeue_from : List Message → Msgchan → Option Message × Msgchan
dequeue_from [] mc = (none, mc)
dequeue_from (m ∷ rest) mc = (some m, record mc { queue = rest; num_queued = mc.num_queued - 1 })

unfoldable pub mc_dequeue_message : Msgchan → Option Message × Msgchan
mc_dequeue_message mc = dequeue_from mc.queue mc

-- The loop of `mc_clear`, which takes the messages off one by one: a round for each.
clear_queue : List Message → Msgchan → Msgchan
clear_queue [] mc = mc
clear_queue (m ∷ rest) mc = clear_queue rest (mc_dequeue_message mc).1

unfoldable pub mc_clear : Msgchan → Msgchan
unfolding clear_queue mc_dequeue_message
mc_clear mc =
    let mc' = clear_queue mc.queue mc in
    record mc' {
      send_msgbuf = empty_send;
      recv_msgbuf = record mc'.recv_msgbuf { plbuf = none; bytes_recvd = 0 };
    }

abbrev pub max_send_backlog : ℕ
max_send_backlog = 64

abbrev pub monitor_write : Monitor → Monitor
monitor_write m = record m { writes = true }

abbrev pub unmonitor_write : Monitor → Monitor
unmonitor_write m = record m { writes = false }

-- The flag is true for the result -1.
unfoldable pub mc_enqueue_message : Msgchan → Message → Msgchan × Bool
mc_enqueue_message mc msg =
    let mc' : Msgchan = record mc {
      queue = mc.queue ++ (msg ∷ []);
      num_queued = mc.num_queued + 1;
      send_mon = monitor_write mc.send_mon;
    } in
    (mc', ltb max_send_backlog mc'.num_queued)

-- The results of `send_message`, and `abort()`.
pub data SendStatus : Type 0 where
  nothing sent aborted : SendStatus
  failed : (errno : ℕ) → SendStatus

pub record Sent : Type 0 where
  pub status : SendStatus
  pub mc : Msgchan
  pub written : List ℕ

abbrev pub sent_status : Drain.Status → SendStatus
sent_status Drain.complete = sent
sent_status Drain.incomplete = sent
sent_status (Drain.error e) = failed e

-- `drain_msgbuf` on the channel's buffer.
unfoldable pub send_buffer : List WriteEvent → Msgchan → Sent
send_buffer evs mc =
    let d = drain_msgbuf evs mc.send_msgbuf in
    record {
      status = sent_status d.status;
      mc = record mc { send_msgbuf = d.ps };
      written = d.written;
    }

abbrev pub with_buffer : Msgchan → Option PartSend → Option Msgchan
with_buffer mc none = none
with_buffer mc (some ps) = some (record mc { send_msgbuf = ps })

-- A message is taken off the queue and made the buffer; it is then freed.
abbrev pub load_buffer : Xdr → Message → Msgchan → Option Msgchan
load_buffer xdr msg mc =
    with_buffer mc (unparse_message xdr msg.body (record mc.send_msgbuf { bytes_sent = 0 }))

abbrev pub send_loaded : List WriteEvent → Option Msgchan → Msgchan → Sent
send_loaded evs none mc = record { status = aborted; mc = mc; written = [] }
send_loaded evs (some mc') mc = send_buffer evs mc'

abbrev pub send_next : Xdr → List WriteEvent → Option Message × Msgchan → Sent
send_next xdr evs (none, mc) = record { status = nothing; mc = mc; written = [] }
send_next xdr evs (some msg, mc) = send_loaded evs (load_buffer xdr msg mc) mc

-- `send_message`, by whether there is a buffer.
abbrev pub send_from : Option (List ℕ) → Xdr → List WriteEvent → Msgchan → Sent
send_from (some b) xdr evs mc = send_buffer evs mc
send_from none xdr evs mc = send_next xdr evs (mc_dequeue_message mc)

unfoldable pub send_message : Xdr → List WriteEvent → Msgchan → Sent
send_message xdr evs mc = send_from mc.send_msgbuf.buf xdr evs mc

abbrev pub nonempty {ℓ} : {A : Type ℓ} → List A → Bool
nonempty [] = false
nonempty (x ∷ xs) = true

unfoldable pub mc_have_outbound_data : Msgchan → Bool
mc_have_outbound_data mc = is_some mc.send_msgbuf.buf || nonempty mc.queue

-- The end of `mc_write_cb`.
unfoldable pub update_monitor : Msgchan → Msgchan
update_monitor mc = record mc {
  send_mon =
      if mc_have_outbound_data mc then monitor_write mc.send_mon else unmonitor_write mc.send_mon;
}

-- What `mc_write_cb` does with the status of `send_message`: `err_cb` is the channel's callback, as
-- far as it acts on the channel. A result 0 fails the assertion.
abbrev pub write_done : SendStatus → (Msgchan → ℕ → Msgchan) → Sent → Sent
write_done (failed e) err_cb r = record r { mc = update_monitor (err_cb r.mc e) }
write_done sent err_cb r = record r { mc = update_monitor r.mc }
write_done nothing err_cb r = record r { status = aborted }
write_done aborted err_cb r = r

-- `mc_write_cb`, by whether there is anything to send.
abbrev pub write_some : Bool → Xdr → (Msgchan → ℕ → Msgchan) → List WriteEvent → Msgchan → Sent
write_some true xdr err_cb evs mc = let r = send_message xdr evs mc in write_done r.status err_cb r
write_some false xdr err_cb evs mc = record {
  status = nothing;
  mc = record mc { send_mon = unmonitor_write mc.send_mon };
  written = [];
}

unfoldable pub mc_write_cb : Xdr → (Msgchan → ℕ → Msgchan) → List WriteEvent → Msgchan → Sent
mc_write_cb xdr err_cb evs mc = write_some (mc_have_outbound_data mc) xdr err_cb evs mc

-- What `recv_message` and `mc_read_cb` come to: nothing yet, a message for the receive callback, the
-- error callback, or a failed `assert`.
pub data RecvStatus : Type 0 where
  waiting : RecvStatus
  received : Message → RecvStatus
  failed aborted : RecvStatus

pub record Received : Type 0 where
  pub status : RecvStatus
  pub mc : Msgchan
  pub fd : InFd

abbrev pub parsed : Option (Message × PartRecv) → Msgchan → InFd → Received
parsed none mc fd = record { status = failed; mc = mc; fd = fd }
parsed (some (msg, pr)) mc fd = record {
  status = received msg;
  mc = record mc { recv_msgbuf = pr };
  fd = fd;
}

-- `recv_message`, by the result of `fill_msgbuf`.
abbrev pub recv_done : Fill.Status → Xdr → Msgchan → InFd → Received
recv_done Fill.complete xdr mc fd = parsed (parse_message xdr mc.recv_msgbuf) mc fd
recv_done Fill.incomplete xdr mc fd = record { status = waiting; mc = mc; fd = fd }
recv_done Fill.aborted xdr mc fd = record { status = aborted; mc = mc; fd = fd }
recv_done (Fill.error e) xdr mc fd = record { status = failed; mc = mc; fd = fd }

unfoldable pub recv_message : Xdr → (ℕ → Bool) → InFd → Msgchan → Received
recv_message xdr alloc fd mc =
    let r = fill_msgbuf alloc fd mc.recv_msgbuf in
    recv_done r.status xdr (record mc { recv_msgbuf = r.pr }) r.fd

-- The callbacks: `recv_cb` gets the message, `err_cb` the value that errno has then.
unfoldable pub mc_read_cb {ℓ} :
    {S : Type ℓ} → (S → Message → S) → (S → ℕ → S) → ℕ → (Msgchan → S) → Received → S
mc_read_cb recv_cb err_cb errno owner r = elim r.status [
  | waiting ↦ owner r.mc
  | received msg ↦ recv_cb (owner r.mc) msg
  | failed ↦ err_cb (owner r.mc) errno
  | aborted ↦ owner r.mc
]

-- `mc_init`, on a channel whose structure was zeroed or closed.
unfoldable pub mc_init : Msgchan → ℕ → ℕ → Msgchan
unfolding mc_clear
mc_init mc send_fd recv_fd = record (mc_clear mc) {
  send_fd = send_fd;
  recv_fd = recv_fd;
  send_mon = record { registered = true; reads = false; writes = false };
  recv_mon = record { registered = true; reads = true; writes = false };
}

-- The descriptors that `mc_close` closes stand beside the channel.
unfoldable pub mc_close : Msgchan → Msgchan × List ℕ
unfolding mc_clear
mc_close mc =
    let gone : Monitor = record { registered = false; reads = false; writes = false } in
    (
      record (mc_clear mc) { send_mon = gone; recv_mon = gone },
      if mc.recv_fd == mc.send_fd then mc.send_fd ∷ [] else mc.send_fd ∷ mc.recv_fd ∷ [],
    )
