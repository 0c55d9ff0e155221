-- ===== src/Selection.antt =====
-- x11.c: the X selection: the text that the program offers to other clients as the owner of the
-- clipboard, the requests that it answers, and the text that it asks another owner for.
pub mod Answering
mod Tests
use enthrall.Prelude.{
  ℕ, ◌-◌, ◌==◌, ltb, Bool, true, false, ◌&&◌, ◌||◌, not, if◌then◌else◌, Option, none, some, List,
  [], ◌∷◌, Text,
}

-- Atoms and windows are numbers, `None` and `CurrentTime` 0; these are the ones that the program knows.
pub record Atoms : Type 0 where
  pub xwin : ℕ
  pub xa_primary : ℕ
  pub clipboard_atom : ℕ
  pub targets_atom : ℕ
  pub utf8_string_atom : ℕ
  pub xa_string : ℕ

pub record Selection : Type 0 where
  pub clipboard_text : Option Text
  pub xselection_owned_since : ℕ
  pub last_xevent_time : ℕ

pub record SelectionRequest : Type 0 where
  pub requestor : ℕ
  pub owner : ℕ
  pub selection : ℕ
  pub target : ℕ
  pub property : ℕ
  pub time : ℕ

-- What XChangeProperty(3) stores: the list of the targets, or text of a type.
pub data Change : Type 0 where
  offers : List ℕ → Change
  gives : (target : ℕ) → Text → Change

-- The property that is changed, if one is, and the one that SelectionNotify names.
pub record Answer : Type 0 where
  pub stored : Option (ℕ × Change)
  pub notified : ℕ

unfoldable pub clear_clipboard_cache : Selection → Selection
clear_clipboard_cache s = record s { clipboard_text = none; xselection_owned_since = 0 }

-- The first branch of `get_clipboard_text`: the text to copy without asking the server.
unfoldable pub owned_text : Selection → Option Text
owned_text s = if s.xselection_owned_since == 0 then none else s.clipboard_text

module _ (a : Atoms) where
  abbrev pub clipboard_xatoms : List ℕ
  clipboard_xatoms = a.xa_primary ∷ a.clipboard_atom ∷ []

  abbrev pub any_atom : ℕ → List ℕ → Bool
  any_atom atom [] = false
  any_atom atom (b ∷ bs) = if b == atom then true else any_atom atom bs

  unfoldable pub is_known_clipboard_xatom : ℕ → Bool
  is_known_clipboard_xatom atom = if atom == 0 then false else any_atom atom clipboard_xatoms

  abbrev pub answer_property : SelectionRequest → ℕ
  answer_property req = if req.property == 0 then req.target else req.property

  abbrev pub is_refused : SelectionRequest → Selection → Bool
  is_refused req s =
      (not (req.time == 0) && ltb req.time s.xselection_owned_since)
      || not (req.owner == a.xwin)
      || not (is_known_clipboard_xatom req.selection)

  abbrev pub answer_target : SelectionRequest → Text → Answer
  answer_target req text =
      if req.target == a.targets_atom
      then record {
        stored =
            some (
              answer_property req,
              offers (a.targets_atom ∷ a.utf8_string_atom ∷ a.xa_string ∷ []),
            );
        notified = answer_property req;
      }
      else if req.target == a.xa_string || req.target == a.utf8_string_atom
      then record {
        stored = some (answer_property req, gives req.target text);
        notified = answer_property req;
      }
      else record { stored = none; notified = 0 }

  abbrev pub answer_with : SelectionRequest → Selection → Option Text → Answer
  answer_with req s none = record { stored = none; notified = 0 }
  answer_with req s (some text) =
      if is_refused req s then record { stored = none; notified = 0 } else answer_target req text

  unfoldable pub handle_selection_request : SelectionRequest → Selection → Answer
  handle_selection_request req s = answer_with req s s.clipboard_text

  -- `handle_event` on a SelectionClear event.
  unfoldable pub handle_selection_clear : (window selection : ℕ) → Selection → Selection
  handle_selection_clear window selection s =
      if window == a.xwin && is_known_clipboard_xatom selection then clear_clipboard_cache s else s

  -- `owner_of` is the answer of XGetSelectionOwner(3) after the call of XSetSelectionOwner(3).
  abbrev pub take_ownership : (owner_of : ℕ → ℕ) → List ℕ → Selection → Bool × Selection
  take_ownership owner_of [] s = (true, record s { xselection_owned_since = s.last_xevent_time })
  take_ownership owner_of (atom ∷ atoms) s =
      if owner_of atom == a.xwin then take_ownership owner_of atoms s else (false, s)

  -- True stands for the result 0, false for -1.
  unfoldable pub set_clipboard_text : (owner_of : ℕ → ℕ) → Text → Selection → Bool × Selection
  set_clipboard_text owner_of text s =
      take_ownership owner_of clipboard_xatoms
        (record (clear_clipboard_cache s) { clipboard_text = some text })
