-- ===== src/Edge.antt =====
-- main.c: the screen edges. Each edge of a node has the times of the pointer's last arrivals and
-- departures in a ring; enough arrivals in a short time switch the focus.
pub mod History
mod Tests
use enthrall.Prelude.{
  ℕ, ◌+◌, ◌-◌, ◌*◌, ◌%◌, ◌^◌, ltb, leb, Bool, true, false, ◌&&◌, ◌||◌, not, Option, none, some,
  List, [], ◌∷◌, get_or, set, if◌then◌else◌,
}
use enthrall.Prelude.Int.{ℤ, eq_ℤ}
use enthrall.Message.{Xypoint, Rectangle}

-- `direction_t` without the value that means none.
pub data Direction : Type 0 where
  left right up down : Direction

pub data Edgeevent : Type 0 where
  depart arrive : Edgeevent

abbrev pub same_event : Edgeevent → Edgeevent → Bool
same_event depart depart = true
same_event depart arrive = false
same_event arrive depart = false
same_event arrive arrive = true

abbrev pub edgestate_histlen : ℕ
edgestate_histlen = 8

-- `struct edge_state`
pub record EdgeState : Type 0 where
  pub event_times : List ℕ
  pub last_evtype : Edgeevent
  pub evidx : ℕ

-- As the node is allocated: zeros, and EE_DEPART is 0.
abbrev pub zeroed : EdgeState
zeroed = record {
  event_times = 0 ∷ 0 ∷ 0 ∷ 0 ∷ 0 ∷ 0 ∷ 0 ∷ 0 ∷ [];
  last_evtype = depart;
  evidx = 0;
}

-- The flag is the result 1, for an event that does not alternate.
unfoldable pub record_edgeevent : EdgeState → Edgeevent → ℕ → EdgeState × Bool
record_edgeevent es evtype when = if same_event evtype es.last_evtype then (es, true) else (
  record {
    event_times = set es.event_times ((es.evidx + 1) % edgestate_histlen) when;
    last_evtype = evtype;
    evidx = (es.evidx + 1) % edgestate_histlen;
  },
  false,
)

-- `none` is the failed assertion. `evidx - rel_idx` is a difference of `unsigned int`, and 8 divides
-- its modulus.
unfoldable pub get_edgehist_entry : EdgeState → ℕ → Option ℕ
get_edgehist_entry es rel_idx =
    if ltb rel_idx edgestate_histlen
    then some (
        get_or es.event_times
          ((es.evidx + 2 ^ 32 - rel_idx + edgestate_histlen) % 2 ^ 32 % edgestate_histlen) 0)
    else none

-- `dirmask_t`, one flag for each direction.
pub record Dirmask : Type 0 where
  pub at_left : Bool
  pub at_right : Bool
  pub at_up : Bool
  pub at_down : Bool

abbrev pub mask_bit : Dirmask → Direction → Bool
mask_bit m left = m.at_left
mask_bit m right = m.at_right
mask_bit m up = m.at_up
mask_bit m down = m.at_down

unfoldable pub point_edgemask : Xypoint → Rectangle → Dirmask
point_edgemask pt screen = record {
  at_left = eq_ℤ pt.x screen.x.lo;
  at_right = eq_ℤ pt.x screen.x.hi;
  at_up = eq_ℤ pt.y screen.y.lo;
  at_down = eq_ℤ pt.y screen.y.hi;
}

-- The configuration's `mouseswitch`: `none` for MS_NONE, else the taps and the window.
pub record Multitap : Type 0 where
  pub num : ℕ
  pub window : ℕ

-- What `trigger_edgeevent` decides: the event is out of sync, nothing is to be done, the focus is to
-- move, or an assertion fails.
pub data Trigger : Type 0 where
  out_of_sync nothing switches aborted : Trigger

-- The times are `uint64_t`, and so is their difference.
abbrev pub within_window : Option ℕ → ℕ → ℕ → Trigger
within_window none now window = aborted
within_window (some first) now window =
    if leb ((now + 2 ^ 64 - first) % 2 ^ 64) window then switches else nothing

abbrev pub after_record : EdgeState × Bool → Edgeevent → Option Multitap → ℕ → Trigger
after_record (es, true) ev ms now = out_of_sync
after_record (es, false) depart ms now = nothing
after_record (es, false) arrive none now = nothing
after_record (es, false) arrive (some ms) now =
    within_window (get_edgehist_entry es ((ms.num - 1) * 2)) now ms.window

-- The decision of `trigger_edgeevent`, and the edge's new state; the switch itself is the caller's.
unfoldable pub trigger_edgeevent : Option Multitap → EdgeState → Edgeevent → ℕ → EdgeState × Trigger
trigger_edgeevent ms es ev now =
    let r = record_edgeevent es ev now in (r.0, after_record r ev ms now)

-- The tests of the loop of `check_edgeevents`: what happened at one edge when the mask changed.
unfoldable pub edge_change : Dirmask → Dirmask → Direction → Option Edgeevent
edge_change oldmask newmask dir =
    if mask_bit oldmask dir
    then if mask_bit newmask dir then none else some depart
    else if mask_bit newmask dir
    then some arrive
    else none
