-- ===== src/Ssh/Keys.antt =====
-- main.c: which keys ssh_pubkey_setup leaves in the agent.
use enthrall.Prelude.{
  ◌≡◌, refl, ap, ◌∙◌, subst, Text, str_eq, str_eq_refl, str_eq→eq, Bool, true, false, ◌||◌, Option,
  none, some, List, [], ◌∷◌, ◌++◌, Bool-cases, inl, inr, All,
}
use enthrall.Ssh.{
  SshConfig, SshRemote, loads, is_loaded, load_id, load_if_set, load_each, add_default, setup_keys,
  ssh_pubkey_setup,
}

-- No key is in the list twice.
abbrev pub AreDistinct : List Text → Type 0
AreDistinct [] = Unit {0}
AreDistinct (key ∷ keys) = (is_loaded key keys ≡ false) × AreDistinct keys

abbrev pub IsLoaded : Text → List Text → Type 0
IsLoaded key keys = is_loaded key keys ≡ true

-- The key of a setting, if there is one.
abbrev pub AreMet : Option Text → List Text → Type 0
AreMet none keys = Unit {0}
AreMet (some file) keys = IsLoaded file keys

is_loaded-append :
    (k f : Text) (keys : List Text)
    → is_loaded k (keys ++ (f ∷ [])) ≡ (is_loaded k keys || str_eq k f)
is_loaded-append k f [] = or_false (str_eq k f)
  where
    or_false : (b : Bool) → (b || false) ≡ b
    or_false true = refl
    or_false false = refl
is_loaded-append k f (key ∷ keys) =
    ap (λ b. str_eq k key || b) (is_loaded-append k f keys)
    ∙ or_assoc (str_eq k key) (is_loaded k keys) (str_eq k f)
  where
    or_assoc : (a b c : Bool) → (a || (b || c)) ≡ ((a || b) || c)
    or_assoc true b c = refl
    or_assoc false b c = refl

-- Longer lists of keys.
pub record Extends (keys keys' : List Text) : Type 0 where
  pub keeps : (k : Text) → IsLoaded k keys → IsLoaded k keys'
  pub distinct : AreDistinct keys → AreDistinct keys'

same-Extends : (keys : List Text) → Extends keys keys
same-Extends keys = record { keeps = λ k l. l; distinct = λ d. d }

join-Extends : (a b c : List Text) → Extends a b → Extends b c → Extends a c
join-Extends a b c p q = record {
  keeps = λ k l. q.keeps k (p.keeps k l);
  distinct = λ d. q.distinct (p.distinct d);
}

append-AreDistinct :
    (keys : List Text) (f : Text)
    → is_loaded f keys ≡ false
    → AreDistinct keys
    → AreDistinct (keys ++ (f ∷ []))
append-AreDistinct [] f n d = (refl, tt)
append-AreDistinct (key ∷ keys) f n d = elim (Bool-cases (str_eq f key)) [
  | inl t ↦ absurd (cc (rw t at n))
  | inr e ↦ (
    is_loaded-append key f keys ∙ rw (d.0, unequal key f e) refl,
    append-AreDistinct keys f (rw e at n) d.1,
  )
]
  where
    unequal : (a b : Text) → str_eq b a ≡ false → str_eq a b ≡ false
    unequal a b e = elim (Bool-cases (str_eq a b)) [
      | inr n ↦ n
      | inl t ↦ absurd (cc (subst (λ x. str_eq x a ≡ true) (str_eq→eq a b t) (str_eq_refl a), e))
    ]

append-Extends :
    (keys : List Text) (f : Text) → is_loaded f keys ≡ false → Extends keys (keys ++ (f ∷ []))
append-Extends keys f n = record {
  keeps = λ k l. is_loaded-append k f keys ∙ rw l refl;
  distinct = append-AreDistinct keys f n;
}

pub some_back : {A : Type 0} → (a b : A) → some a ≡ some b → a ≡ b
some_back a b e = ap (λ o. elim o [ none ↦ a | some c ↦ c ]) e

module _ (ssh_add : Text → Bool) where
  load_id-Extends :
      (f : Text) (keys keys' : List Text)
      → load_id ssh_add f keys ≡ some keys'
      → Extends keys keys' × IsLoaded f keys'
  unfolding load_id
  load_id-Extends f keys keys' e = elim (Bool-cases (is_loaded f keys)) [
    | inl t ↦
        subst (λ ks. Extends keys ks × IsLoaded f ks) (some_back keys keys' (rw t at e))
          (same-Extends keys, t)
    | inr n ↦ elim (Bool-cases (ssh_add f)) [
      | inr bad ↦ absurd (cc (rw (n, bad) at e))
      | inl ok ↦
          subst (λ ks. Extends keys ks × IsLoaded f ks)
            (some_back (keys ++ (f ∷ [])) keys' (rw (n, ok) at e))
            (append-Extends keys f n, is_loaded-append f f keys ∙ rw (n, str_eq_refl f) refl)
    ]
  ]

  set-Extends :
      (o : Option Text) (keys keys' : List Text)
      → load_if_set ssh_add o (some keys) ≡ some keys'
      → Extends keys keys' × AreMet o keys'
  set-Extends none keys keys' e =
      subst (λ ks. Extends keys ks × Unit {0}) (some_back keys keys' e) (same-Extends keys, tt)
  set-Extends (some f) keys keys' e = load_id-Extends f keys keys' e

  kept-AreMet : (o : Option Text) (a b : List Text) → Extends a b → AreMet o a → AreMet o b
  kept-AreMet none a b x m = tt
  kept-AreMet (some f) a b x m = x.keeps f m

  each_none : (rs : List SshRemote) → load_each ssh_add rs none ≡ none
  each_none [] = refl
  each_none (r ∷ rest) = elim (Bool-cases r.enabled) [
    | inl t ↦ rw t (each_none rest)
    | inr n ↦ rw n (each_none rest)
  ]

  -- Every enabled remote's key is there.
  abbrev pub ServesAll : List SshRemote → List Text → Type 0
  ServesAll rs keys = All (λ r. r.enabled ≡ true → AreMet r.sshcfg.identityfile keys) rs

  each-Extends :
      (rs : List SshRemote) (keys keys' : List Text)
      → load_each ssh_add rs (some keys) ≡ some keys'
      → Extends keys keys' × ServesAll rs keys'
  each-Extends [] keys keys' e =
      subst (λ ks. Extends keys ks × Unit {0}) (some_back keys keys' e) (same-Extends keys, tt)
  each-Extends (r ∷ rest) keys keys' e = elim (Bool-cases r.enabled) [
    | inr n ↦
        let (x, all) = each-Extends rest keys keys' (rw n at e) in
        (x, ((λ t. absurd (cc (t, n))), all))
    | inl t ↦
        by_load (load_if_set ssh_add r.sshcfg.identityfile (some keys)) refl (rw t at e)
          (λ mid e'. each-Extends rest mid keys' e')
  ]
    where
      by_load :
          (o : Option (List Text))
          → load_if_set ssh_add r.sshcfg.identityfile (some keys) ≡ o
          → load_each ssh_add rest o ≡ some keys'
          → ((mid : List Text)
              → load_each ssh_add rest (some mid) ≡ some keys'
              → Extends mid keys' × ServesAll rest keys')
          → Extends keys keys' × ServesAll (r ∷ rest) keys'
      by_load none q e' later = absurd (cc (each_none rest, e'))
      by_load (some mid) q e' later =
          let (x, met) = set-Extends r.sshcfg.identityfile keys mid q in
          let (y, all) = later mid e' in
          (
            join-Extends keys mid keys' x y,
            ((λ _. kept-AreMet r.sshcfg.identityfile mid keys' y met), all),
          )

  -- What the loaded keys are good for.
  pub record Provides (defaults : SshConfig) (rs : List SshRemote) (keys keys' : List Text)
      : Type 0 where
    pub extends : Extends keys keys'
    pub default_key : AreMet defaults.identityfile keys'
    pub remote_keys : ServesAll rs keys'

  pub default_back :
      (ok : Bool) (o : Option (List Text)) (keys' : List Text) (ran : Bool)
      → add_default ok o ≡ loads keys' ran
      → o ≡ some keys'
  default_back ok none keys' ran e = absurd (cc e)
  default_back true (some []) keys' ran e = ap some (cc e)
  default_back false (some []) keys' ran e = absurd (cc e)
  default_back ok (some (k ∷ ks)) keys' ran e = ap some (cc e)

  keys-Provides :
      (ok : Bool) (d : SshConfig) (rs : List SshRemote) (keys keys' : List Text) (ran : Bool)
      → setup_keys ssh_add ok d rs keys ≡ loads keys' ran
      → Provides d rs keys keys'
  keys-Provides ok d rs keys keys' ran e =
      by_load (load_if_set ssh_add d.identityfile (some keys)) refl (default_back ok _ keys' ran e)
    where
      by_load :
          (o : Option (List Text))
          → load_if_set ssh_add d.identityfile (some keys) ≡ o
          → load_each ssh_add rs o ≡ some keys'
          → Provides d rs keys keys'
      by_load none q e' = absurd (cc (each_none rs, e'))
      by_load (some mid) q e' =
          let (x, met) = set-Extends d.identityfile keys mid q in
          let (y, all) = each-Extends rs mid keys' e' in
          record {
            extends = join-Extends keys mid keys' x y;
            default_key = kept-AreMet d.identityfile mid keys' y met;
            remote_keys = all;
          }

  -- Where ssh_pubkey_setup comes to its end, with an agent at hand, the keys that were loaded still are,
  -- none is loaded twice if none was, and the default key and that of each remote that is enabled by
  -- then are there. `main` calls it before it enables any: the next theorem.
  pub setup-Provides :
      (ok under use_private : Bool) (d : SshConfig) (rs : List SshRemote) (keys keys' : List Text)
      (ran : Bool)
      → ssh_pubkey_setup ssh_add ok under use_private d rs (some keys) ≡ loads keys' ran
      → Provides d rs keys keys'
  unfolding ssh_pubkey_setup
  setup-Provides ok true use_private d rs keys keys' ran e = keys-Provides ok d rs keys keys' ran e
  setup-Provides ok false true d rs keys keys' ran e = absurd (cc e)
  setup-Provides ok false false d rs keys keys' ran e = keys-Provides ok d rs keys keys' ran e

  abbrev pub AreDisabled : List SshRemote → Type 0
  AreDisabled rs = All (λ r. r.enabled ≡ false) rs

  each_disabled :
      (rs : List SshRemote) (o : Option (List Text)) → AreDisabled rs → load_each ssh_add rs o ≡ o
  each_disabled [] o a = refl
  each_disabled (r ∷ rest) o a = rw a.0 (each_disabled rest o a.1)

  -- While no remote is enabled yet, the identity files of the remotes make no difference to
  -- ssh_pubkey_setup. `main` calls it before set_enabled_remotes.
  pub setup_disabled :
      (ok under use_private : Bool) (d : SshConfig) (rs : List SshRemote)
      (agentkeys : Option (List Text))
      → AreDisabled rs
      → ssh_pubkey_setup ssh_add ok under use_private d rs agentkeys
        ≡ ssh_pubkey_setup ssh_add ok under use_private d [] agentkeys
  unfolding ssh_pubkey_setup
  setup_disabled ok true use_private d rs none a = refl
  setup_disabled ok false use_private d rs none a = refl
  setup_disabled ok true use_private d rs (some keys) a = ap (add_default ok) (each_disabled rs _ a)
  setup_disabled ok false true d rs (some keys) a = refl
  setup_disabled ok false false d rs (some keys) a = ap (add_default ok) (each_disabled rs _ a)
