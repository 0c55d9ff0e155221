-- ===== src/Selection/Tests.antt =====
-- x11.c: the selection at concrete requests.
use enthrall.Prelude.{ℕ, ◌≡◌, ◌==◌, refl, codes, true, none, some, if◌then◌else◌}
use enthrall.Selection.{
  Atoms, Selection, SelectionRequest, gives, clear_clipboard_cache, handle_selection_request,
  handle_selection_clear, is_known_clipboard_xatom, set_clipboard_text, owned_text,
}
use enthrall.Selection.Answering.{Answered, set-Answered}

abbrev atoms : Atoms
atoms = record {
  xwin = 5;
  xa_primary = 1;
  clipboard_atom = 300;
  targets_atom = 301;
  utf8_string_atom = 302;
  xa_string = 31;
}

abbrev empty : Selection
empty = record { clipboard_text = none; xselection_owned_since = 0; last_xevent_time = 90 }

abbrev owning : Selection
owning = record {
  clipboard_text = some (codes "hi");
  xselection_owned_since = 90;
  last_xevent_time = 90;
}

abbrev paste : ℕ → SelectionRequest
paste time = record {
  requestor = 7;
  owner = 5;
  selection = 300;
  target = 302;
  property = 0;
  time = time;
}

sets : set_clipboard_text atoms (λ atom. 5) (codes "hi") empty ≡ (true, owning)
unfolding set_clipboard_text clear_clipboard_cache
sets = refl

pastes :
    handle_selection_request atoms (paste 91) owning
    ≡ record { stored = some (302, gives 302 (codes "hi")); notified = 302 }
unfolding handle_selection_request is_known_clipboard_xatom
pastes = refl

-- From before the text was set.
too_early :
    handle_selection_request atoms (paste 89) owning ≡ record { stored = none; notified = 0 }
unfolding handle_selection_request is_known_clipboard_xatom
too_early = refl

clears : owned_text (handle_selection_clear atoms 5 300 owning) ≡ none
unfolding owned_text handle_selection_clear is_known_clipboard_xatom clear_clipboard_cache
clears = refl

set-Answered_example :
    Answered atoms (codes "hi") (paste 91) 90 (handle_selection_request atoms (paste 91) owning)
    × (owned_text owning ≡ (if 90 == 0 then none else some (codes "hi")))
set-Answered_example = set-Answered atoms (λ atom. 5) (codes "hi") empty owning sets (paste 91)
