-- ===== src/Edge/History.antt =====
-- main.c: the ring of an edge holds the times of the last eight alternating events, and a switch by
-- mouse happens just when enough arrivals fall into the window.
use enthrall.Prelude.{
  ℕ, zero, suc, ◌+◌, ◌-◌, ◌*◌, ◌%◌, ◌^◌, ◌≤◌, ◌<◌, ◌≡◌, ◌≢◌, refl, sym, ◌∙◌, ◌↔◌, Bool, true, false,
  Option, none, some, List, [], ◌∷◌, length, get_or, set, length-set, get_or-set_self,
  get_or-set_ne, if◌then◌else◌, arith, inl, inr, lt→ltb, Bool-cases, ◌⊎◌, ◌/◌,
}
use enthrall.Edge.{
  Edgeevent, depart, arrive, same_event, edgestate_histlen, EdgeState, zeroed, record_edgeevent,
  get_edgehist_entry, Multitap, nothing, switches, after_record, trigger_edgeevent,
}

-- The index that the entry `k` back has in the ring.
abbrev slot : ℕ → ℕ → ℕ
slot evidx k = (evidx + 2 ^ 32 - k + edgestate_histlen) % 2 ^ 32 % edgestate_histlen

-- The ring shows the times of `h`, newest first, as far back as it goes; before those, zeros.
pub record Shows (es : EdgeState) (h : List ℕ) : Type 0 where
  pub size : length es.event_times ≡ edgestate_histlen
  pub index : es.evidx < edgestate_histlen
  pub entry : (k : ℕ) → k < edgestate_histlen → get_edgehist_entry es k ≡ some (get_or h k 0)

zeros_entry : (i : ℕ) → get_or zeroed.event_times i 0 ≡ 0
zeros_entry zero = refl
zeros_entry (suc zero) = refl
zeros_entry (suc (suc zero)) = refl
zeros_entry (suc (suc (suc zero))) = refl
zeros_entry (suc (suc (suc (suc zero)))) = refl
zeros_entry (suc (suc (suc (suc (suc zero))))) = refl
zeros_entry (suc (suc (suc (suc (suc (suc zero)))))) = refl
zeros_entry (suc (suc (suc (suc (suc (suc (suc zero))))))) = refl
zeros_entry (suc (suc (suc (suc (suc (suc (suc (suc i)))))))) = refl

pub zeroed-Shows : Shows zeroed []
unfolding get_edgehist_entry
zeroed-Shows = record {
  size = refl;
  index = omega arith;
  entry = λ k h. rw (lt→ltb _ _ h, zeros_entry (slot 0 k));
}

-- Where the entry `k` of the ring lies after one more event.
entry_after :
    (ts : List ℕ) (i k when : ℕ)
    → length ts ≡ edgestate_histlen
    → i < edgestate_histlen
    → suc k < edgestate_histlen
    → get_or
        (set ts ((i + 1) % edgestate_histlen) when)
        (slot ((i + 1) % edgestate_histlen) (suc k))
        0
      ≡ get_or ts (slot i k) 0
entry_after ts i k when l h b =
    let same : slot ((i + 1) % edgestate_histlen) (suc k) ≡ slot i k = omega arith in
    let other : (i + 1) % edgestate_histlen ≢ slot i k = omega arith in
    rw same (get_or-set_ne ts when 0 other)

record-entry :
    (es : EdgeState) (h : List ℕ) (when k : ℕ)
    → Shows es h
    → k < edgestate_histlen
    → get_or
        (set es.event_times ((es.evidx + 1) % edgestate_histlen) when)
        (slot ((es.evidx + 1) % edgestate_histlen) k)
        0
      ≡ get_or (when ∷ h) k 0
unfolding get_edgehist_entry
record-entry es h when zero s b =
    let i = (es.evidx + 1) % edgestate_histlen in
    let here : slot i 0 ≡ i = omega (arith, s.index) in
    rw here (get_or-set_self es.event_times i when 0 (omega (arith, s.size)))
record-entry es h when (suc k) s b =
    entry_after es.event_times es.evidx k when s.size s.index b
    ∙ some-inj _ _ (rw (lt→ltb k edgestate_histlen (omega arith)) at (s.entry k (omega arith)))
  where
    some-inj : (a c : ℕ) → some a ≡ some c → a ≡ c
    some-inj a c e = cc

same_event_iff : (a b : Edgeevent) → (same_event a b ≡ true) ↔ (a ≡ b)
same_event_iff depart depart = (λ e. refl, λ e. refl)
same_event_iff depart arrive = (λ e. cc, λ e. cc)
same_event_iff arrive depart = (λ e. cc, λ e. cc)
same_event_iff arrive arrive = (λ e. refl, λ e. refl)

same_event_ne : (a b : Edgeevent) → a ≢ b → same_event a b ≡ false
same_event_ne a b n = elim (Bool-cases (same_event a b)) [
  | inl t ↦ absurd (n ((same_event_iff a b).0 t))
  | inr f ↦ f
]

abbrev pushed : EdgeState → Edgeevent → ℕ → EdgeState
pushed es ev when = record {
  event_times = set es.event_times ((es.evidx + 1) % edgestate_histlen) when;
  last_evtype = ev;
  evidx = (es.evidx + 1) % edgestate_histlen;
}

pushed-Shows :
    (es : EdgeState) (ev : Edgeevent) (when : ℕ) (h : List ℕ)
    → Shows es h
    → Shows (pushed es ev when) (when ∷ h)
unfolding get_edgehist_entry
pushed-Shows es ev when h s = record {
  size = length-set es.event_times ((es.evidx + 1) % edgestate_histlen) when ∙ s.size;
  index = omega arith;
  entry = λ k b. rw (lt→ltb k edgestate_histlen b, record-entry es h when k s b);
}

record-ne :
    (es : EdgeState) (ev : Edgeevent) (when : ℕ)
    → ev ≢ es.last_evtype
    → record_edgeevent es ev when ≡ (pushed es ev when, false)
unfolding record_edgeevent
record-ne es ev when n = rw (same_event_ne ev es.last_evtype n)

record_same :
    (es : EdgeState) (ev : Edgeevent) (when : ℕ)
    → ev ≡ es.last_evtype
    → record_edgeevent es ev when ≡ (es, true)
unfolding record_edgeevent
record_same es ev when e = rw ((same_event_iff ev es.last_evtype).1 e)

-- `record_edgeevent` takes an event that alternates as the newest, and refuses any other with no
-- change.
pub record-Shows :
    (es : EdgeState) (ev : Edgeevent) (when : ℕ) (h : List ℕ)
    → Shows es h
    → ((ev ≢ es.last_evtype)
        → ((record_edgeevent es ev when).1 ≡ false)
          × ((record_edgeevent es ev when).0.last_evtype ≡ ev)
          × Shows (record_edgeevent es ev when).0 (when ∷ h))
      × (ev ≡ es.last_evtype → record_edgeevent es ev when ≡ (es, true))
record-Shows es ev when h s = (
  λ n. rw (record-ne es ev when n) (refl, refl, pushed-Shows es ev when h s),
  record_same es ev when,
)

-- The taps that the configuration file may ask for.
abbrev pub IsConfigurable : Multitap → Type 0
IsConfigurable ms = (1 ≤ ms.num) × (ms.num ≤ (edgestate_histlen + 1) / 2)

-- With multi-tap on, an arrival that follows a departure moves the focus just when the time since
-- the arrival `num - 1` arrivals before it is in the window; the assertion never fails.
pub trigger_multitap :
    (ms : Multitap) (es : EdgeState) (now : ℕ) (h : List ℕ)
    → IsConfigurable ms
    → Shows es h
    → es.last_evtype ≡ depart
    → now < 2 ^ 64
    → get_or (now ∷ h) ((ms.num - 1) * 2) 0 ≤ now
    → let t = (trigger_edgeevent (some ms) es arrive now).1 in
      ((t ≡ switches) ↔ (now - get_or (now ∷ h) ((ms.num - 1) * 2) 0 ≤ ms.window))
      × ((t ≡ switches) ⊎ (t ≡ nothing))
unfolding trigger_edgeevent
trigger_multitap ms es now h c s d b o =
    let n : arrive ≢ es.last_evtype = λ e. cc in
    let first = get_or (now ∷ h) ((ms.num - 1) * 2) 0 in
    let k : (ms.num - 1) * 2 < edgestate_histlen = omega arith in
    let e = (pushed-Shows es arrive now h s).entry ((ms.num - 1) * 2) k in
    let w : (now + 2 ^ 64 - first) % 2 ^ 64 ≡ now - first = omega arith in
    rw (record-ne es arrive now n, e, w) (ground arith)

quiet_off :
    (r : EdgeState × Bool) (ev : Edgeevent) (now : ℕ) → after_record r ev none now ≢ switches
quiet_off (es, true) ev now e = cc
quiet_off (es, false) depart now e = cc
quiet_off (es, false) arrive now e = cc

quiet_depart :
    (r : EdgeState × Bool) (ms : Option Multitap) (now : ℕ)
    → after_record r depart ms now ≢ switches
quiet_depart (es, true) ms now e = cc
quiet_depart (es, false) ms now e = cc

-- A departure, an event out of sync, or multi-tap being off never moves the focus.
pub trigger_quiet :
    (ms : Option Multitap) (es : EdgeState) (ev : Edgeevent) (now : ℕ)
    → (ms ≡ none) ⊎ (ev ≡ depart) ⊎ (ev ≡ es.last_evtype)
    → (trigger_edgeevent ms es ev now).1 ≢ switches
unfolding trigger_edgeevent
trigger_quiet ms es ev now (inl e) = rw e (quiet_off (record_edgeevent es ev now) ev now)
trigger_quiet ms es ev now (inr (inl e)) =
    rw e (quiet_depart (record_edgeevent es depart now) ms now)
trigger_quiet ms es ev now (inr (inr e)) = rw ((record_same es ev now e)) (λ k. cc)

-- A history of events at one edge.
unfoldable pub run_events : List (Edgeevent × ℕ) → EdgeState → EdgeState
run_events [] es = es
run_events ((ev, when) ∷ rest) es = run_events rest (record_edgeevent es ev when).0

-- The times of the events that alternate, newest first, behind those of `h`.
abbrev pub alternating : Edgeevent → List (Edgeevent × ℕ) → List ℕ → List ℕ
alternating last [] h = h
alternating last ((ev, when) ∷ rest) h =
    let same = alternating last rest h in
    let other = alternating ev rest (when ∷ h) in if same_event ev last then same else other

run-Shows_from :
    (evs : List (Edgeevent × ℕ)) (es : EdgeState) (last : Edgeevent) (h : List ℕ)
    → Shows es h
    → es.last_evtype ≡ last
    → Shows (run_events evs es) (alternating last evs h)
unfolding run_events
run-Shows_from [] es last h s e = s
run-Shows_from ((ev, when) ∷ rest) es last h s e = elim (Bool-cases (same_event ev last)) [
  | inl t ↦
      rw (t, alternating, record_same es ev when ((same_event_iff ev last).0 t ∙ sym e))
        (run-Shows_from rest es last h s e)
  | inr f ↦
      let n : ev ≢ es.last_evtype = λ q. cc (sym f ∙ (same_event_iff ev last).1 (q ∙ e)) in
      rw (f, alternating, record-ne es ev when n)
        (run-Shows_from rest (pushed es ev when) ev (when ∷ h) (pushed-Shows es ev when h s) refl)
]

-- After any events at an edge its ring shows the last eight of those that alternate, starting with an
-- arrival.
pub run-Shows :
    (evs : List (Edgeevent × ℕ)) → Shows (run_events evs zeroed) (alternating depart evs [])
run-Shows evs = run-Shows_from evs zeroed depart [] zeroed-Shows refl
