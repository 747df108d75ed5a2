-- ===== src/Sections/Shared.antt =====
-- What `register_built_sections` of services/api/nns/sections/section_registry.py persists: sections of at least
-- two users that reach the accuracy.
use neuralese.Prelude.{
  string_eq, ℕ, ◌≤◌, ◌≡◌, refl, sym, ◌∙◌, Bool, true, false, ◌&&◌, Option, some, Option-cases,
  Bool-cases, inl, inr, List, [], ◌∷◌, bytes_eq, bytes_beq_iff, ◌==◌, if◌then◌else◌, length, elem,
  Distinct, Dict, lookup, insert, lookup-insert, either_branch, arith,
}
use mathlib.Core.Option
use mathlib.Core.Path.{subst}
use neuralese.Sections.Store.{
  Text, Bytes, SectionKey, Bins, State, Section, topo_storage_key, bins_of, persist_binary,
  get_persisted_binary, add_user, bump, build_section_key, persist_section,
}
use neuralese.Sections.Partition.{SectionPlan}
use neuralese.Sections.Match.{Ram, topo_bucket}
use neuralese.Sections.Register.{
  Extra, Tables, layer_states_of, new_section, build_section_from_ctx, existing_or, put_section,
  is_shared, register_section, register_plans, register_built_sections,
}

lookup-nested :
    {A : Type 0} (t u k j : Text) (x : A) (d : Dict Text (Dict Text A))
    → lookup j
        (Option.get_or (lookup u (insert t (insert k x (Option.get_or (lookup t d) [])) d)) [])
      ≡ (if t == u && k == j then some x else lookup j (Option.get_or (lookup u d) []))
lookup-nested t u k j x d = ground (
  arith,
  lookup-insert t u (insert k x (Option.get_or (lookup t d) [])) d,
  lookup-insert k j x (Option.get_or (lookup t d) []),
  bytes_beq_iff t u,
)

module _ {T : Type 0} where
  -- The users of a section are distinct, and each of them was counted.
  unfoldable pub IsCounted : Section T → Type 0
  IsCounted sec = Distinct sec.user_ids × (length sec.user_ids ≤ sec.refcount)

  bump-IsCounted :
      (user : Text) (acc : ℕ) (sec : Section T) → IsCounted sec → IsCounted (bump user acc sec)
  unfolding IsCounted bump add_user
  bump-IsCounted user acc sec (distinct, few) = elim (Bool-cases (elem user sec.user_ids)) [
    | inl there ↦ rw there (distinct, omega (arith, few))
    | inr fresh ↦ rw fresh ((fresh, distinct), omega (arith, few))
  ]

  unfoldable pub IsRamCounted : Ram T → Type 0
  IsRamCounted ram =
      (topo key : Text) (sec : Section T)
      → lookup key (Option.get_or (lookup topo ram) []) ≡ some sec
      → IsCounted sec

  -- Each binary comes from a section of two users or more that reaches the accuracy.
  unfoldable pub IsAllShared : (Section T → Bytes) → Bins → Type 0
  IsAllShared save bins =
      (topo key : Text) (binary : Bytes)
      → get_persisted_binary topo key bins ≡ some binary
      → (sec : Section T) × (binary ≡ save sec)
        × Distinct sec.user_ids
        × (2 ≤ length sec.user_ids)
        × (800000 ≤ sec.max_acc)

  pub record IsSound (save : Section T → Bytes) (s : Tables T) : Type 0 where
    pub counted : IsRamCounted s.ram
    pub shared : IsAllShared save s.bins

-- A call of `register_built_sections`.
pub record Registration (M : Type 0) : Type 0 where
  pub extra : Extra M
  pub dataset_stamp : Text
  pub now : ℕ
  pub plans : List SectionPlan
  pub user : Text
  pub acc : ℕ

module _ {T M : Type 0} (state_dict : M → Option (State T)) (shape : T → List ℕ)
    (digest : SectionKey → Text) (save : Section T → Bytes) where
  existing_or-IsCounted :
      (sec : Section T) (ram : Ram T)
      → IsCounted sec
      → IsRamCounted ram
      → IsCounted (existing_or state_dict shape digest sec ram)
  unfolding existing_or topo_bucket IsRamCounted
  existing_or-IsCounted sec ram h k =
      elim (Option-cases (lookup (digest sec.key) (topo_bucket sec.key.rough ram))) [
        | inl e ↦ rw e h
        | inr (found, e) ↦ rw e (k (topo_storage_key sec.key.rough) (digest sec.key) found e)
      ]

  put_section-IsRamCounted :
      (topo key : Text) (sec : Section T) (ram : Ram T)
      → IsCounted sec
      → IsRamCounted ram
      → IsRamCounted (put_section state_dict shape digest topo key sec ram)
  unfolding IsRamCounted put_section
  put_section-IsRamCounted topo key sec ram h k t j found e =
      elim (Bool-cases (topo == t && key == j)) [
        | inl same ↦
            subst IsCounted
              (some_inj sec found (sym (lookup-nested topo t key j sec ram ∙ rw same refl) ∙ e)) h
        | inr differ ↦ k t j found (sym (lookup-nested topo t key j sec ram ∙ rw differ refl) ∙ e)
      ]
    where
      some_inj : (a b : Section T) → some a ≡ some b → a ≡ b
      some_inj a b e = cc

  persist_section-IsAllShared :
      (sec : Section T) (bins : Bins)
      → is_shared state_dict shape digest sec ≡ true
      → IsCounted sec
      → IsAllShared save bins
      → IsAllShared save (persist_section digest save sec bins)
  unfolding IsAllShared persist_section persist_binary get_persisted_binary bins_of is_shared
      IsCounted
  persist_section-IsAllShared sec bins shared h k t j binary e =
      elim (Bool-cases (topo_storage_key sec.key.rough == t && digest sec.key == j)) [
        | inl same ↦ (
          sec,
          some_inj binary (save sec) (
              sym e
              ∙ (lookup-nested (topo_storage_key sec.key.rough) t (digest sec.key) j (save sec) bins
                  ∙ rw same refl)),
          h.0,
          ground (arith, shared),
          ground (arith, shared),
        )
        | inr differ ↦ k t j binary (
            sym (
              lookup-nested (topo_storage_key sec.key.rough) t (digest sec.key) j (save sec) bins
              ∙ rw differ refl)
            ∙ e)
      ]
    where
      some_inj : (a b : Bytes) → some a ≡ some b → a ≡ b
      some_inj a b e = cc

  register_section-IsSound :
      (user : Text) (acc : ℕ) (sec : Section T) (s : Tables T)
      → IsCounted sec
      → IsSound save s
      → IsSound save (register_section state_dict shape digest save user acc sec s)
  unfolding register_section
  register_section-IsSound user acc sec s h k =
      let counted =
        bump-IsCounted user acc (existing_or state_dict shape digest sec s.ram)
          (existing_or-IsCounted sec s.ram h k.counted) in
      record {
        counted =
            put_section-IsRamCounted (topo_storage_key sec.key.rough) (digest sec.key) _ s.ram
              counted k.counted;
        shared =
            kept
              (is_shared state_dict shape digest
                (bump user acc (existing_or state_dict shape digest sec s.ram)))
              refl counted;
      }
    where
      bumped : Section T
      bumped = bump user acc (existing_or state_dict shape digest sec s.ram)

      kept :
          (b : Bool)
          → is_shared state_dict shape digest bumped ≡ b
          → IsCounted bumped
          → IsAllShared save (if b then persist_section digest save bumped s.bins else s.bins)
      kept true e c = persist_section-IsAllShared bumped s.bins e c k.shared
      kept false e c = k.shared

  new_section-IsCounted :
      (key : SectionKey) (states : List (State T)) (now : ℕ)
      → IsCounted (new_section state_dict shape digest key states now)
  unfolding IsCounted new_section
  new_section-IsCounted key states now = (tt, omega arith)

  register_plans-IsSound :
      (user : Text) (acc : ℕ) (extra : Extra M) (stamp : Text) (now : ℕ) (plans : List SectionPlan)
      (s : Tables T)
      → IsSound save s
      → IsSound save (register_plans state_dict shape digest save user acc extra stamp now plans s)
  unfolding register_plans build_section_from_ctx
  register_plans-IsSound user acc extra stamp now [] s h = h
  register_plans-IsSound user acc extra stamp now (plan ∷ plans) s h =
      elim (Option-cases (layer_states_of state_dict extra plan.param_nids)) [
        | inl e ↦ rw e (register_plans-IsSound user acc extra stamp now plans s h)
        | inr (states, e) ↦
            let key = build_section_key shape stamp plan.rough_layers states in
            rw e (
              register_plans-IsSound user acc extra stamp now plans _ (
                register_section-IsSound user acc
                  (new_section state_dict shape digest key states now) s
                  (new_section-IsCounted key states now) h))
      ]

  unfoldable pub register_all : List (Registration M) → Tables T → Tables T
  register_all [] s = s
  register_all (r ∷ registrations) s = register_all registrations (
      register_built_sections state_dict shape digest save r.user r.acc r.extra r.dataset_stamp
        r.now r.plans s)

  register_all-IsSound :
      (registrations : List (Registration M)) (s : Tables T)
      → IsSound save s
      → IsSound save (register_all registrations s)
  unfolding register_all register_built_sections
  register_all-IsSound [] s h = h
  register_all-IsSound (r ∷ registrations) s h = register_all-IsSound registrations _ (
      either_branch (IsSound save) r.extra.local_dataset h
        (register_plans-IsSound r.user r.acc r.extra r.dataset_stamp r.now r.plans s h))

  abbrev pub no_tables : Tables T
  no_tables = record { ram = []; bins = [] }

  no_tables-IsSound : IsSound save no_tables
  unfolding IsRamCounted IsAllShared get_persisted_binary bins_of
  no_tables-IsSound = record {
    counted = λ topo key sec e. absurd (ground (arith, e));
    shared = λ topo key binary e. absurd (ground (arith, e));
  }

  -- After any registrations, each persisted binary is that of a section with two or more users, all
  -- distinct, and an accuracy of at least 0.80.
  pub register_all-IsAllShared :
      (registrations : List (Registration M))
      → IsAllShared save (register_all registrations no_tables).bins
  register_all-IsAllShared registrations =
      (register_all-IsSound registrations no_tables no_tables-IsSound).shared
