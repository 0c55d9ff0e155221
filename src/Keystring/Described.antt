-- ===== src/Keystring/Described.antt =====
-- parse_keystring against a description of what the names of hotkeys mean.
use Prim.Native.Nat.{bit_or}
use enthrall.Prelude.{
  ℕ, zero, suc, ◌==◌, ◌≤◌, ◌≡◌, refl, sym, ap, ◌∙◌, Text, false, Option, none, some, List, [], ◌∷◌,
  length, if◌then◌else◌, Bool-cases, inl, inr, arith,
}
use enthrall.Keystring.{
  component, after_component, skip_plus, plus, Modifier, find_modifier, parse_loop, parse_keystring,
}

-- The pieces between the plus signs; a plus at the end has no piece behind it.
abbrev pub put_char : ℕ → List Text → List Text
put_char c [] = (c ∷ []) ∷ []
put_char c (p ∷ ps) = (c ∷ p) ∷ ps

abbrev pub pieces : Text → List Text
pieces [] = []
pieces (c ∷ k) = let rest = pieces k in if c == plus then [] ∷ rest else put_char c rest

pieces_first :
    (c : ℕ) (k : Text)
    → pieces (c ∷ k) ≡ component (c ∷ k) ∷ pieces (skip_plus (after_component (c ∷ k)))
pieces_first c [] = elim (Bool-cases (c == plus)) [ inl t ↦ rw t refl | inr e ↦ rw e refl ]
pieces_first c (d ∷ k) = elim (Bool-cases (c == plus)) [
  | inl t ↦ rw t refl
  | inr e ↦ rw e (ap (put_char c) (pieces_first d k))
]

after_shorter : (k : Text) → length (after_component k) ≤ length k
after_shorter [] = omega arith
after_shorter (c ∷ k) = elim (Bool-cases (c == plus)) [
  | inl t ↦ rw t (omega arith)
  | inr e ↦ rw e (omega (arith, after_shorter k))
]

rest_shorter : (c : ℕ) (k : Text) → length (skip_plus (after_component (c ∷ k))) ≤ length k
rest_shorter c k = elim (Bool-cases (c == plus)) [
  | inl t ↦ rw t (omega arith)
  | inr e ↦ rw e (omega (arith, skip_shorter (after_component k), after_shorter k))
]
  where
    skip_shorter : (t : Text) → length (skip_plus t) ≤ length t
    skip_shorter [] = omega arith
    skip_shorter (c ∷ t) = omega arith

-- A search for keys that keeps to one key in a hotkey.
pub record IsKeySearch (take_key : Text → ℕ → Option ℕ) : Type 0 where
  pub one_key : (t : Text) (kc : ℕ) → (kc == 0) ≡ false → take_key t kc ≡ none
  pub not_null : (t : Text) (kc : ℕ) → take_key t 0 ≡ some kc → (kc == 0) ≡ false

abbrev pub with_mask : ℕ → Option ℕ → Option (ℕ × ℕ)
with_mask modmask none = none
with_mask modmask (some kc) = some (kc, modmask)

module _ (modifiers : List Modifier) (take_key : Text → ℕ → Option ℕ) where
  -- What the pieces say together: the masks of those that name modifiers,
  abbrev pub masks : List Text → ℕ → ℕ
  masks [] modmask = modmask
  masks (p ∷ ps) modmask = elim (find_modifier modifiers p) [
    | some mask ↦ masks ps (bit_or modmask mask)
    | none ↦ masks ps modmask
  ]

  -- and the others, of which there may be one.
  abbrev pub others : List Text → List Text
  others [] = []
  others (p ∷ ps) = elim (find_modifier modifiers p) [
    | some mask ↦ others ps
    | none ↦ p ∷ others ps
  ]

  abbrev pub single : List Text → ℕ → Option (ℕ × ℕ)
  single [] modmask = some (0, modmask)
  single (t ∷ []) modmask = with_mask modmask (take_key t 0)
  single (t ∷ u ∷ us) modmask = none

  abbrev pub described : List Text → Option (ℕ × ℕ)
  described ps = single (others ps) (masks ps 0)

  -- The loop over the pieces.
  abbrev fold : List Text → ℕ → ℕ → Option (ℕ × ℕ)
  fold [] kc modmask = some (kc, modmask)
  fold (p ∷ ps) kc modmask = elim (find_modifier modifiers p) [
    | some mask ↦ fold ps kc (bit_or modmask mask)
    | none ↦ elim (take_key p kc) [ none ↦ none | some kc' ↦ fold ps kc' modmask ]
  ]

  loop-fold :
      (fuel : ℕ) (k : Text) (kc modmask : ℕ)
      → length k ≤ fuel
      → parse_loop modifiers take_key fuel k kc modmask ≡ some (fold (pieces k) kc modmask)
  unfolding parse_loop
  loop-fold fuel [] kc modmask b = refl
  loop-fold zero (c ∷ k) kc modmask b = absurd (omega (arith, b))
  loop-fold (suc fuel) (c ∷ k) kc modmask b =
      by_modifier (find_modifier modifiers tmp)
        (λ kc' m. loop-fold fuel rest kc' m (omega (arith, b, rest_shorter c k)))
      ∙ ap (λ ps. some (fold ps kc modmask)) (sym (pieces_first c k))
    where
      tmp : Text
      tmp = component (c ∷ k)

      rest : Text
      rest = skip_plus (after_component (c ∷ k))

      Later : Type 0
      Later =
          (kc' m : ℕ)
          → parse_loop modifiers take_key fuel rest kc' m ≡ some (fold (pieces rest) kc' m)

      by_key :
          (o : Option ℕ)
          → Later
          → elim o [
            | none ↦ some none
            | some kc' ↦ parse_loop modifiers take_key fuel rest kc' modmask
          ]
            ≡ some (elim o [ none ↦ none | some kc' ↦ fold (pieces rest) kc' modmask ])
      by_key none later = refl
      by_key (some kc') later = later kc' modmask

      by_modifier :
          (o : Option ℕ)
          → Later
          → elim o [
            | some mask ↦ parse_loop modifiers take_key fuel rest kc (bit_or modmask mask)
            | none ↦ elim (take_key tmp kc) [
              | none ↦ some none
              | some kc' ↦ parse_loop modifiers take_key fuel rest kc' modmask
            ]
          ]
            ≡ some (elim o [
              | some mask ↦ fold (pieces rest) kc (bit_or modmask mask)
              | none ↦ elim (take_key tmp kc) [
                | none ↦ none
                | some kc' ↦ fold (pieces rest) kc' modmask
              ]
            ])
      by_modifier none later = by_key (take_key tmp kc) later
      by_modifier (some mask) later = later kc (bit_or modmask mask)

  -- With a key at hand there may be no other.
  abbrev no_more : List Text → ℕ → ℕ → Option (ℕ × ℕ)
  no_more [] kc modmask = some (kc, modmask)
  no_more (t ∷ ts) kc modmask = none

  module _ (s : IsKeySearch take_key) where
    fold_taken :
        (ps : List Text) (kc modmask : ℕ)
        → (kc == 0) ≡ false
        → fold ps kc modmask ≡ no_more (others ps) kc (masks ps modmask)
    fold_taken [] kc modmask n = refl
    fold_taken (p ∷ ps) kc modmask n =
        by_modifier (find_modifier modifiers p) (λ m. fold_taken ps kc m n)
      where
        by_modifier :
            (o : Option ℕ)
            → ((m : ℕ) → fold ps kc m ≡ no_more (others ps) kc (masks ps m))
            → elim o [
              | some mask ↦ fold ps kc (bit_or modmask mask)
              | none ↦ elim (take_key p kc) [ none ↦ none | some kc' ↦ fold ps kc' modmask ]
            ]
              ≡ no_more
                  (elim o [ some mask ↦ others ps | none ↦ p ∷ others ps ])
                  kc
                  (elim o [ some mask ↦ masks ps (bit_or modmask mask) | none ↦ masks ps modmask ])
        by_modifier (some mask) later = later (bit_or modmask mask)
        by_modifier none later = rw (s.one_key p kc n) refl

    fold-single :
        (ps : List Text) (modmask : ℕ) → fold ps 0 modmask ≡ single (others ps) (masks ps modmask)
    fold-single [] modmask = refl
    fold-single (p ∷ ps) modmask = by_modifier (find_modifier modifiers p) (λ m. fold-single ps m)
      where
        after_key :
            (ts : List Text) (kc m : ℕ)
            → take_key p 0 ≡ some kc
            → no_more ts kc m ≡ single (p ∷ ts) m
        after_key [] kc m e = ap (with_mask m) (sym e)
        after_key (t ∷ ts) kc m e = refl

        none_single : (ts : List Text) (m : ℕ) → take_key p 0 ≡ none → none ≡ single (p ∷ ts) m
        none_single [] m e = ap (with_mask m) (sym e)
        none_single (t ∷ ts) m e = refl

        by_key :
            (o : Option ℕ)
            → take_key p 0 ≡ o
            → elim o [ none ↦ none | some kc' ↦ fold ps kc' modmask ]
              ≡ single (p ∷ others ps) (masks ps modmask)
        by_key none e = none_single (others ps) (masks ps modmask) e
        by_key (some kc) e =
            fold_taken ps kc modmask (s.not_null p kc e)
            ∙ after_key (others ps) kc (masks ps modmask) e

        by_modifier :
            (o : Option ℕ)
            → ((m : ℕ) → fold ps 0 m ≡ single (others ps) (masks ps m))
            → elim o [
              | some mask ↦ fold ps 0 (bit_or modmask mask)
              | none ↦ elim (take_key p 0) [ none ↦ none | some kc' ↦ fold ps kc' modmask ]
            ]
              ≡ single
                  (elim o [ some mask ↦ others ps | none ↦ p ∷ others ps ])
                  (elim o [ some mask ↦ masks ps (bit_or modmask mask) | none ↦ masks ps modmask ])
        by_modifier (some mask) later = later (bit_or modmask mask)
        by_modifier none later = by_key (take_key p 0) refl

    -- parse_keystring returns for every string, and what it makes of it is what its pieces between the
    -- plus signs say together: the masks of all modifiers, in whatever places they stand, and the one
    -- key, or 0 where there is none; it fails just where two pieces name no modifier, or the one that
    -- does not is no key.
    pub parse_keystring_lem :
        (ks : Text) → parse_keystring modifiers take_key ks ≡ some (described (pieces ks))
    unfolding parse_keystring
    parse_keystring_lem ks =
        loop-fold (length ks) ks 0 0 (omega arith) ∙ ap some (fold-single (pieces ks) 0)
