-- ===== src/Selection/Answering.antt =====
-- x11.c: what a client gets that asks for the selection.
use enthrall.Prelude.{
  ℕ, ◌≡◌, ◌≢◌, ◌≤◌, ◌==◌, ltb, ◌⊎◌, ◌↔◌, Bool, true, false, not, ◌&&◌, ◌||◌, none, some, List, [],
  ◌∷◌, Text, refl, ap, subst, arith, if◌then◌else◌,
}
use enthrall.Selection.{
  Atoms, Selection, SelectionRequest, offers, gives, Answer, clear_clipboard_cache,
  clipboard_xatoms, is_known_clipboard_xatom, answer_property, is_refused, answer_target,
  answer_with, handle_selection_request, take_ownership, set_clipboard_text, owned_text,
}

refused-cases :
    (p c x sel own t since : ℕ)
    → ((not (t == 0) && ltb t since)
        || not (own == x)
        || not (
            if sel == 0
            then false
            else if p == sel
            then true
            else if c == sel
            then true
            else false))
      ≡ false
    → ((sel ≡ p) ⊎ (sel ≡ c)) × (sel ≢ 0) × (own ≡ x) × ((t ≡ 0) ⊎ (since ≤ t))
refused-cases p c x sel own t since h = ground arith

refused_unless :
    (p c x sel own t since : ℕ)
    → (sel ≡ p) ⊎ (sel ≡ c)
    → sel ≢ 0
    → own ≡ x
    → (t ≡ 0) ⊎ (since ≤ t)
    → ((not (t == 0) && ltb t since)
        || not (own == x)
        || not (
            if sel == 0
            then false
            else if p == sel
            then true
            else if c == sel
            then true
            else false))
      ≡ false
refused_unless p c x sel own t since k r o h = ground arith

module _ (a : Atoms) where
  -- The request is made to this program's window, about a selection that it owns, and not from before
  -- it became the owner.
  pub record IsProper (req : SelectionRequest) (since : ℕ) : Type 0 where
    pub known : (req.selection ≡ a.xa_primary) ⊎ (req.selection ≡ a.clipboard_atom)
    pub real : req.selection ≢ 0
    pub owner : req.owner ≡ a.xwin
    pub timely : (req.time ≡ 0) ⊎ (since ≤ req.time)

  refused-IsProper :
      (req : SelectionRequest) (s : Selection)
      → (is_refused a req s ≡ false) ↔ IsProper req s.xselection_owned_since
  unfolding is_known_clipboard_xatom
  refused-IsProper req s = (there, back)
    where
      there : is_refused a req s ≡ false → IsProper req s.xselection_owned_since
      there e =
          let c =
            refused-cases a.xa_primary a.clipboard_atom a.xwin req.selection req.owner req.time
              s.xselection_owned_since e in
          record { known = c.0; real = c.1; owner = c.2; timely = c.3 }

      back : IsProper req s.xselection_owned_since → is_refused a req s ≡ false
      back r =
          refused_unless a.xa_primary a.clipboard_atom a.xwin req.selection req.owner req.time
            s.xselection_owned_since r.known r.real r.owner r.timely

  abbrev pub IsText : ℕ → Type 0
  IsText target = (target ≡ a.xa_string) ⊎ (target ≡ a.utf8_string_atom)

  -- The property that the answer goes to: the request's, or the target's name if it gives none.
  abbrev pub IsNamed : SelectionRequest → ℕ → Type 0
  IsNamed req property =
      ((req.property ≢ 0) × (property ≡ req.property))
      ⊎ ((req.property ≡ 0) × (property ≡ req.target))

  named : (req : SelectionRequest) → IsNamed req (answer_property a req)
  named req = ground arith

  -- A proper request for the targets or for text is answered under the property that it names, or
  -- under the target's name if it names none; any other changes nothing and is answered with None.
  pub data Answered (text : Text) (req : SelectionRequest) (since : ℕ) : Answer → Type 0 where
    with_targets :
        (property : ℕ)
        → IsNamed req property
        → IsProper req since
        → req.target ≡ a.targets_atom
        → Answered text req since (record {
          stored = some (property, offers (a.targets_atom ∷ a.utf8_string_atom ∷ a.xa_string ∷ []));
          notified = property;
        })
    with_text :
        (property : ℕ)
        → IsNamed req property
        → IsProper req since
        → IsText req.target
        → Answered text req since
            (record { stored = some (property, gives req.target text); notified = property })
    refuses :
        ¬ (IsProper req since × ((req.target ≡ a.targets_atom) ⊎ IsText req.target))
        → Answered text req since (record { stored = none; notified = 0 })

  target-Answered :
      (text : Text) (req : SelectionRequest) (since : ℕ)
      → IsProper req since
      → Answered text req since (answer_target a req text)
  target-Answered text req since proper =
      by_tests (req.target == a.targets_atom)
        (req.target == a.xa_string || req.target == a.utf8_string_atom) refl refl
    where
      by_tests :
          (b c : Bool)
          → (req.target == a.targets_atom) ≡ b
          → (req.target == a.xa_string || req.target == a.utf8_string_atom) ≡ c
          → Answered text req since (
              if b
              then record {
                stored = some (
                  answer_property a req,
                  offers (a.targets_atom ∷ a.utf8_string_atom ∷ a.xa_string ∷ []),
                );
                notified = answer_property a req;
              }
              else if c
              then record {
                stored = some (answer_property a req, gives req.target text);
                notified = answer_property a req;
              }
              else record { stored = none; notified = 0 })
      by_tests true c e f = with_targets (answer_property a req) (named req) proper (ground arith)
      by_tests false true e f = with_text (answer_property a req) (named req) proper (ground arith)
      by_tests false false e f = refuses (λ p. neither p.1)
        where
          neither : (req.target ≡ a.targets_atom) ⊎ IsText req.target → ⊥
          neither t = ground arith

  known-Answered :
      (text : Text) (req : SelectionRequest) (s : Selection)
      → Answered text req s.xselection_owned_since (answer_with a req s (some text))
  known-Answered text req s = by_test (is_refused a req s) refl
    where
      by_test :
          (b : Bool)
          → is_refused a req s ≡ b
          → Answered text req s.xselection_owned_since
              (if b then record { stored = none; notified = 0 } else answer_target a req text)
      by_test true e = refuses (λ p. off p.0)
        where
          off : IsProper req s.xselection_owned_since → ⊥
          off p = let k = (refused-IsProper req s).1 p in cc
      by_test false e =
          target-Answered text req s.xselection_owned_since ((refused-IsProper req s).0 e)

  took :
      (owner_of : ℕ → ℕ) (atoms : List ℕ) (s s' : Selection)
      → take_ownership a owner_of atoms s ≡ (true, s')
      → record s { xselection_owned_since = s.last_xevent_time } ≡ s'
  took owner_of [] s s' e = ap (λ r. r.1) e
  took owner_of (atom ∷ atoms) s s' e =
      by_test (owner_of atom == a.xwin) (took owner_of atoms s s') e
    where
      by_test :
          (b : Bool)
          → (take_ownership a owner_of atoms s ≡ (true, s')
              → record s { xselection_owned_since = s.last_xevent_time } ≡ s')
          → (if b then take_ownership a owner_of atoms s else (false, s)) ≡ (true, s')
          → record s { xselection_owned_since = s.last_xevent_time } ≡ s'
      by_test true rest e = rest e
      by_test false rest e = let k = ap (λ r. r.0) e in absurd (cc k)

  -- Once `set_clipboard_text` has returned 0, a proper request for text is answered with just that
  -- text, one for the targets with the list of them, and any other with None and no change; and the
  -- program itself reads the same text without asking the server, unless no event with a time has come.
  pub set-Answered :
      (owner_of : ℕ → ℕ) (text : Text) (s s' : Selection)
      → set_clipboard_text a owner_of text s ≡ (true, s')
      → (req : SelectionRequest)
      → Answered text req s.last_xevent_time (handle_selection_request a req s')
        × (owned_text s' ≡ (if s.last_xevent_time == 0 then none else some text))
  unfolding handle_selection_request set_clipboard_text owned_text clear_clipboard_cache
  set-Answered owner_of text s s' e req =
      let s1 = record s {
        clipboard_text = some text;
        xselection_owned_since = s.last_xevent_time;
      } in
      subst
        (λ t.
          Answered text req s.last_xevent_time (handle_selection_request a req t)
          × (owned_text t ≡ (if s.last_xevent_time == 0 then none else some text)))
        (took owner_of (clipboard_xatoms a)
          (record s { clipboard_text = some text; xselection_owned_since = 0 }) s' e)
        (known-Answered text req s1, refl)
