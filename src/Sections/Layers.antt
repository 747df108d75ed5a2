-- ===== src/Sections/Layers.antt =====
-- One layer of `apply_section_to_ctx_modules` of services/api/nns/sections/section_registry.py, and what the
-- modules are after all of them.
use neuralese.Prelude.{
  is_empty, String, string_eq, ℕ, zero, suc, ◌≤◌, ◌<◌, ◌≡◌, ◌≢◌, refl, sym, ◌∙◌, ◌⊎◌, inl, inr,
  Bool, true, false, none, some, Option-cases, Bool-cases, List, [], ◌∷◌, bytes_eq, bytes_beq_iff,
  ◌==◌, length, get_elem?, All, Dict, lookup, insert, lookup-insert, arith,
}
use mathlib.Core.Option
use mathlib.Core.Path.{subst}
use neuralese.Sections.Store.{Text, State}
use neuralese.Sections.Apply.{module_of}

-- The key of the module of a node; an empty one counts as none.
abbrev pub key_of : Dict String Text → String → Text
key_of key_map nid = Option.get_or (lookup nid key_map) []

-- No node has the module of another one.
abbrev pub Apart : Dict String Text → List String → Type 0
Apart key_map [] = Unit
Apart key_map (nid ∷ nids) =
    All (λ other. is_empty (key_of key_map nid) ≡ false → key_of key_map nid ≢ key_of key_map other)
      nids
    × Apart key_map nids

some_inj : {A : Type 0} {a b : A} → some a ≡ some b → a ≡ b
some_inj h = cc

All-get_elem? :
    (P : String → Type 0) (nids : List String) (i : ℕ) (nid : String)
    → All P nids
    → get_elem? nids i ≡ some nid
    → P nid
All-get_elem? P [] i nid a h = absurd (ground (arith, h))
All-get_elem? P (n ∷ nids) zero nid a h = subst P (some_inj h) a.0
All-get_elem? P (n ∷ nids) (suc i) nid a h = All-get_elem? P nids i nid a.1 h

module _ {T M : Type 0} (load_state_dict : M → State T → M × Bool)
    (key_map : Dict String Text) where
  -- The module of the node was there and is now the one with the state.
  abbrev pub IsLoaded : Dict Text M → Dict Text M → String → State T → Type 0
  IsLoaded before after nid state =
      (m : M) × (next : M) × (is_empty (key_of key_map nid) ≡ false)
      × (lookup (key_of key_map nid) before ≡ some m)
      × (load_state_dict m state ≡ (next, true))
      × (lookup (key_of key_map nid) after ≡ some next)

  -- The node has no module, or loading the state raised and left the module as it is now.
  abbrev pub Stops : Dict Text M → Dict Text M → String → State T → Type 0
  Stops before after nid state =
      (is_empty (key_of key_map nid) ≡ true)
      ⊎ (lookup (key_of key_map nid) before ≡ none)
      ⊎ ((m : M) × (next : M) × (lookup (key_of key_map nid) before ≡ some m)
          × (load_state_dict m state ≡ (next, false))
          × (lookup (key_of key_map nid) after ≡ some next))

  -- The first `n` nodes are loaded, the next one, if there is one with a state, stops it, and the
  -- modules of no other nodes change.
  pub record IsApplied (nids : List String) (states : List (State T)) (before : Dict Text M) (n : ℕ)
      (after : Dict Text M) : Type 0 where
    pub within : (n ≤ length nids) × (n ≤ length states)
    pub each :
        (i : ℕ) (nid : String) (state : State T)
        → i < n
        → get_elem? nids i ≡ some nid
        → get_elem? states i ≡ some state
        → IsLoaded before after nid state
    pub stops :
        (nid : String) (state : State T)
        → get_elem? nids n ≡ some nid
        → get_elem? states n ≡ some state
        → Stops before after nid state
    pub others :
        (key : Text)
        → ((i : ℕ) (nid : String) → i ≤ n → get_elem? nids i ≡ some nid → key_of key_map nid ≢ key)
        → lookup key after ≡ lookup key before

  -- What `module_of` finds.
  pub module_of-cases :
      (modules : Dict Text M) (nid : String)
      → ((module_of load_state_dict key_map modules nid ≡ none)
          × ((is_empty (key_of key_map nid) ≡ true) ⊎ (lookup (key_of key_map nid) modules ≡ none)))
        ⊎ ((m : M) × (module_of load_state_dict key_map modules nid ≡ some (key_of key_map nid, m))
            × (is_empty (key_of key_map nid) ≡ false)
            × (lookup (key_of key_map nid) modules ≡ some m))
  unfolding module_of
  module_of-cases modules nid = elim (Option-cases (lookup nid key_map)) [
    | inl e ↦ inl (rw e (refl, inl refl))
    | inr ([], e) ↦ inl (rw e (refl, inl refl))
    | inr (c ∷ key, e) ↦ elim (Option-cases (lookup (c ∷ key) modules)) [
      | inl missing ↦ inl (rw (e, missing) (refl, inr refl))
      | inr (m, found) ↦ inr (rw (e, found) (m, refl, refl, refl))
    ]
  ]

  pub insert_other :
      (key other : Text) (next : M) (before : Dict Text M)
      → key ≢ other
      → lookup other (insert key next before) ≡ lookup other before
  insert_other key other next before n = elim (Bool-cases (key == other)) [
    | inl e ↦ absurd (n ((bytes_beq_iff key other).0 e))
    | inr e ↦ lookup-insert key other next before ∙ rw e refl
  ]

  pub insert_same :
      (key : Text) (next : M) (before : Dict Text M)
      → lookup key (insert key next before) ≡ some next
  insert_same key next before =
      lookup-insert key key next before ∙ rw ((bytes_beq_iff key key).1 refl) refl

  module _ (nid : String) (nids : List String) (state : State T) (states : List (State T))
      (before : Dict Text M) where
    pub stopped-IsApplied :
        (after : Dict Text M)
        → Stops before after nid state
        → ((key : Text) → key_of key_map nid ≢ key → lookup key after ≡ lookup key before)
        → IsApplied (nid ∷ nids) (state ∷ states) before 0 after
    stopped-IsApplied after s o = record {
      within = (omega arith, omega arith);
      each = λ i other given h e f. absurd (omega (arith, h));
      stops = λ other given e f.
          subst (λ (t : State T). Stops before after other t) (some_inj f)
            (subst (λ (n : String). Stops before after n state) (some_inj e) s);
      others = λ key h. o key (h 0 nid (omega arith) refl);
    }

    module _ (m next : M) (named : is_empty (key_of key_map nid) ≡ false)
        (found : lookup (key_of key_map nid) before ≡ some m)
        (loads : load_state_dict m state ≡ (next, true))
        (apart : All
          (λ other.
            is_empty (key_of key_map nid) ≡ false → key_of key_map nid ≢ key_of key_map other)
          nids)
        (n : ℕ) (after : Dict Text M)
        (rest : IsApplied nids states (insert (key_of key_map nid) next before) n after) where
      unchanged :
          (i : ℕ) (other : String)
          → get_elem? nids i ≡ some other
          → lookup (key_of key_map other) (insert (key_of key_map nid) next before)
            ≡ lookup (key_of key_map other) before
      unchanged i other e =
          insert_other (key_of key_map nid) (key_of key_map other) next before
            (All-get_elem? _ nids i other apart e named)

      loads_each :
          (i : ℕ) (other : String) (given : State T)
          → i < suc n
          → get_elem? (nid ∷ nids) i ≡ some other
          → get_elem? (state ∷ states) i ≡ some given
          → IsLoaded before after other given
      loads_each zero other given h e f =
          subst (λ (t : State T). IsLoaded before after other t) (some_inj f)
            (subst (λ (k : String). IsLoaded before after k state) (some_inj e)
              (
                m,
                next,
                named,
                found,
                loads,
                rest.others (key_of key_map nid)
                      (λ i k b g. λ same. All-get_elem? _ nids i k apart g named (sym same))
                    ∙ insert_same (key_of key_map nid) next before,
              ))
      loads_each (suc i) other given h e f =
          let (a, b, c, d, g, k) = rest.each i other given (omega (arith, h)) e f in
          (a, b, c, sym (unchanged i other e) ∙ d, g, k)

      later_end :
          (other : String) (given : State T)
          → get_elem? nids n ≡ some other
          → get_elem? states n ≡ some given
          → Stops before after other given
      later_end other given e f = elim (rest.stops other given e f) [
        | inl empty ↦ inl empty
        | inr (inl missing) ↦ inr (inl (sym (unchanged n other e) ∙ missing))
        | inr (inr (a, b, c, d, g)) ↦ inr (inr (a, b, sym (unchanged n other e) ∙ c, d, g))
      ]

      pub loaded-IsApplied : IsApplied (nid ∷ nids) (state ∷ states) before (suc n) after
      loaded-IsApplied = record {
        within = (omega (arith, rest.within.0), omega (arith, rest.within.1));
        each = loads_each;
        stops = later_end;
        others = λ key h.
            rest.others key (λ i other b e. h (suc i) other (omega (arith, b)) e)
            ∙ insert_other (key_of key_map nid) key next before (h 0 nid (omega arith) refl);
      }
