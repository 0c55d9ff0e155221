-- ===== src/Msgchan/Link.antt =====
-- Two channels joined by a byte stream: the master's end of a remote and the remote's stdio_msgchan.
use enthrall.Prelude.{
  ℕ, ◌≡◌, ◌≢◌, sym, ap, ◌∙◌, Option, none, some, List, [], ◌∷◌, ◌++◌, map, Bool, append-nil,
  append_assoc, subst, ◌⊎◌, inl, inr,
}
use enthrall.Message.{Message}
use enthrall.Message.Codec.{Xdr, IsSendable, frame}
use enthrall.Message.Drain.{WriteEvent}
use enthrall.Message.Fill.{ReadEvent}
use enthrall.Message.Fill.Heading.{IsValid, absorbed}
use enthrall.Msgchan.{
  Msgchan, SendStatus, Sent, sent, nothing, aborted, failed, mc_enqueue_message, mc_write_cb,
}
use enthrall.Msgchan.Invariant.{Inv, enqueue-Inv, write-Inv}
use enthrall.Msgchan.Outbound.{
  frames, outbound, AllSendable, enqueue-outbound, Writes, broke, went, write-Writes,
}
use enthrall.Msgchan.Inbound.{as_received, collect, IsBeginning, collect-IsBeginning}

-- What happens at the sending end: a message is queued, or the descriptor can be written.
pub data SendOp : Type 0 where
  enqueues : Message → SendOp
  writable : List WriteEvent → SendOp

abbrev pub prepend : List ℕ → Option (List ℕ × Msgchan) → Option (List ℕ × Msgchan)
prepend w none = none
prepend w (some (u, mc)) = some (w ++ u, mc)

abbrev pub go_on : SendStatus → List ℕ → Option (List ℕ × Msgchan) → Option (List ℕ × Msgchan)
go_on sent w later = prepend w later
go_on nothing w later = prepend w later
go_on aborted w later = none
go_on (failed e) w later = none

-- The bytes that go out over a history, and the channel after it; `none` once the descriptor fails.
unfoldable pub run_sender : Xdr → List SendOp → Msgchan → Option (List ℕ × Msgchan)
run_sender xdr [] mc = some ([], mc)
run_sender xdr (enqueues m ∷ ops) mc = run_sender xdr ops (mc_enqueue_message mc m).0
run_sender xdr (writable evs ∷ ops) mc =
    let r = mc_write_cb xdr (λ c e. c) evs mc in
    let later = run_sender xdr ops r.mc in go_on r.status r.written later

abbrev pub enqueued : List SendOp → List Message
enqueued [] = []
enqueued (enqueues m ∷ ops) = m ∷ enqueued ops
enqueued (writable evs ∷ ops) = enqueued ops

-- The end of a history that began with `before` waiting and enqueued `ms`.
abbrev Conserves : Xdr → List ℕ → List Message → Option (List ℕ × Msgchan) → Type 0
Conserves xdr before ms none = Unit {0}
Conserves xdr before ms (some (w, mc)) = w ++ outbound xdr mc ≡ before ++ frames xdr ms

prepend-Conserves :
    (xdr : Xdr) (before after w : List ℕ) (ms : List Message) (o : Option (List ℕ × Msgchan))
    → w ++ after ≡ before
    → Conserves xdr after ms o
    → Conserves xdr before ms (prepend w o)
prepend-Conserves xdr before after w ms none e c = tt
prepend-Conserves xdr before after w ms (some (u, mc)) e c =
    append_assoc w u (outbound xdr mc)
    ∙ ap (◌++◌ w) c
    ∙ sym (append_assoc w after (frames xdr ms))
    ∙ ap (λ l. l ++ frames xdr ms) e

go_on-Conserves :
    (st : SendStatus) (xdr : Xdr) (before after w : List ℕ) (ms : List Message)
    (o : Option (List ℕ × Msgchan))
    → w ++ after ≡ before
    → Conserves xdr after ms o
    → Conserves xdr before ms (go_on st w o)
go_on-Conserves sent xdr before after w ms o e c = prepend-Conserves xdr before after w ms o e c
go_on-Conserves nothing xdr before after w ms o e c = prepend-Conserves xdr before after w ms o e c
go_on-Conserves aborted xdr before after w ms o e c = tt
go_on-Conserves (failed x) xdr before after w ms o e c = tt

All-append-one :
    (xdr : Xdr) (ms : List Message) (m : Message)
    → AllSendable xdr ms
    → IsSendable xdr m.body
    → AllSendable xdr (ms ++ (m ∷ []))
All-append-one xdr [] m a s = (s, tt)
All-append-one xdr (n ∷ ms) m a s = (a.0, All-append-one xdr ms m a.1 s)

shift-Conserves :
    (xdr : Xdr) (before : List ℕ) (m : Message) (ms : List Message) (o : Option (List ℕ × Msgchan))
    → Conserves xdr (before ++ frame xdr m.body) ms o
    → Conserves xdr before (m ∷ ms) o
shift-Conserves xdr before m ms none c = tt
shift-Conserves xdr before m ms (some (w, mc)) c =
    c ∙ append_assoc before (frame xdr m.body) (frames xdr ms)

write-Conserves :
    (xdr : Xdr) (evs : List WriteEvent) (before : List ℕ) (ms : List Message) (r : Sent)
    (later : Option (List ℕ × Msgchan))
    → Writes xdr (λ c e. c) evs before r
    → (AllSendable xdr r.mc.queue → r.status ≢ aborted → Conserves xdr (outbound xdr r.mc) ms later)
    → Conserves xdr before ms (go_on r.status r.written later)
write-Conserves xdr evs before ms r later (broke x mc e f w q) ih =
    subst (λ st. Conserves xdr before ms (go_on st r.written later)) (sym e) tt
write-Conserves xdr evs before ms r later (went c a n) ih =
    go_on-Conserves r.status xdr before (outbound xdr r.mc) r.written ms later c (ih a (goes n))
  where
    goes : (r.status ≡ sent) ⊎ (r.status ≡ nothing) → r.status ≢ aborted
    goes (inl e) q = cc
    goes (inr e) q = cc

enqueue-AllSendable :
    (xdr : Xdr) (mc : Msgchan) (m : Message)
    → AllSendable xdr mc.queue
    → IsSendable xdr m.body
    → AllSendable xdr (mc_enqueue_message mc m).0.queue
unfolding mc_enqueue_message
enqueue-AllSendable xdr mc m a s = All-append-one xdr mc.queue m a s

run-Conserves :
    (xdr : Xdr) (ops : List SendOp) (mc : Msgchan)
    → Inv mc
    → AllSendable xdr mc.queue
    → AllSendable xdr (enqueued ops)
    → Conserves xdr (outbound xdr mc) (enqueued ops) (run_sender xdr ops mc)
unfolding run_sender
run-Conserves xdr [] mc v a b = sym (append-nil _)
run-Conserves xdr (enqueues m ∷ ops) mc v a b =
    let mc' = (mc_enqueue_message mc m).0 in
    let o = run_sender xdr ops mc' in
    shift-Conserves xdr (outbound xdr mc) m (enqueued ops) o (
      subst (λ l. Conserves xdr l (enqueued ops) o) (enqueue-outbound xdr mc m v.sound).0
        (run-Conserves xdr ops mc' (enqueue-Inv mc m v) (enqueue-AllSendable xdr mc m a b.0) b.1))
run-Conserves xdr (writable evs ∷ ops) mc v a b =
    let r = mc_write_cb xdr (λ c e. c) evs mc in
    write-Conserves xdr evs (outbound xdr mc) (enqueued ops) r (run_sender xdr ops r.mc)
      (write-Writes xdr (λ c e. c) evs mc v.sound a)
      (λ q n. run-Conserves xdr ops r.mc (write-Inv xdr (λ c e. c) evs mc (λ c e s. s) v n) q b)

-- The two ends of a link: whatever is enqueued at one end, in whatever pieces the two descriptors
-- take and give the bytes and whenever they block, the messages delivered at the other end are a
-- beginning of those enqueued: none is lost, repeated, reordered or made up.
pub link-IsBeginning :
    (xdr : Xdr) (alloc : ℕ → Bool) (ops : List SendOp) (from to : Msgchan) (out : List ℕ)
    (after : Msgchan) (wakeups : List (List ReadEvent))
    → Inv from
    → from.queue ≡ []
    → outbound xdr from ≡ []
    → IsValid to.recv_msgbuf
    → absorbed to.recv_msgbuf ≡ []
    → AllSendable xdr (enqueued ops)
    → run_sender xdr ops from ≡ some (out, after)
    → IsBeginning (collect xdr alloc wakeups out to) (map as_received (enqueued ops))
link-IsBeginning xdr alloc ops from to out after wakeups v q o w t a e =
    let c =
      subst (Conserves xdr (outbound xdr from) (enqueued ops)) e
        (run-Conserves xdr ops from v (subst (AllSendable xdr) (sym q) tt) a) in
    collect-IsBeginning xdr alloc wakeups (enqueued ops) (outbound xdr after) out to a w (
      ap (λ l. l ++ (out ++ outbound xdr after)) t ∙ c ∙ ap (λ l. l ++ frames xdr (enqueued ops)) o)
