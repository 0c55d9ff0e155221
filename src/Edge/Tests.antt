-- ===== src/Edge/Tests.antt =====
-- The edge events of main.c on a concrete history.
use enthrall.Prelude.{ℕ, ◌≡◌, ◌≤◌, ◌↔◌, ◌⊎◌, refl, some, List, [], ◌∷◌, arith}
use enthrall.Edge.{
  Edgeevent, depart, arrive, zeroed, Multitap, trigger_edgeevent, switches, nothing,
  record_edgeevent, get_edgehist_entry,
}
use enthrall.Edge.History.{Shows, run_events, run-Shows, trigger_multitap}

abbrev taps : List (Edgeevent × ℕ)
taps = (depart, 5) ∷ (arrive, 10) ∷ (arrive, 11) ∷ (depart, 20) ∷ (arrive, 30) ∷ (depart, 40) ∷ []

after_taps : get_edgehist_entry (run_events taps zeroed) 1 ≡ some 30
unfolding run_events record_edgeevent get_edgehist_entry
after_taps = refl

run-Shows_example : Shows (run_events taps zeroed) (40 ∷ 30 ∷ 20 ∷ 10 ∷ [])
run-Shows_example = run-Shows taps

abbrev double_tap : Multitap
double_tap = record { num = 2; window = 25 }

now_departed : (run_events taps zeroed).last_evtype ≡ depart
unfolding run_events record_edgeevent
now_departed = refl

trigger_multitap_example :
    (((trigger_edgeevent (some double_tap) (run_events taps zeroed) arrive 50).1 ≡ switches)
      ↔ (20 ≤ 25))
    × (((trigger_edgeevent (some double_tap) (run_events taps zeroed) arrive 50).1 ≡ switches)
        ⊎ ((trigger_edgeevent (some double_tap) (run_events taps zeroed) arrive 50).1 ≡ nothing))
trigger_multitap_example =
    trigger_multitap double_tap (run_events taps zeroed) 50 (40 ∷ 30 ∷ 20 ∷ 10 ∷ []) (omega arith)
      (run-Shows taps) now_departed (omega arith) (omega arith)
