-- ===== src/Sections/Longest.antt =====
-- What `match_best_section` of services/api/nns/sections/section_registry.py finds: the section of the
-- longest prefix of the layers that has one.
use neuralese.Prelude.{
  ℕ, zero, suc, ◌-◌, ◌≤◌, ◌<◌, ◌≡◌, refl, sym, ap, ◌∙◌, Option, none, some, ◌⊎◌, inl, inr, List,
  length, take, take_all, arith,
}
use mathlib.Core.Path.{subst}
use neuralese.Sections.Store.{Text, Bytes, SectionKey, Bins, State, Section}
use neuralese.Sections.Match.{Ram, first_some, section_at, match_prefix, match_best_section}

top-cases : (m top : ℕ) → m ≤ suc top → (m ≡ suc top) ⊎ (m ≤ top)
top-cases m top h = ground (arith, h)

first_some-cases :
    {A : Type 0} (a b : Option A) (x : A)
    → first_some a b ≡ some x
    → (a ≡ some x) ⊎ ((a ≡ none) × (b ≡ some x))
unfolding first_some
first_some-cases (some y) b x e = inl e
first_some-cases none b x e = inr (refl, e)

first_some-none : {A : Type 0} (a b : Option A) → first_some a b ≡ none → (a ≡ none) × (b ≡ none)
unfolding first_some
first_some-none (some y) b e = absurd (ground (arith, e))
first_some-none none b e = (refl, e)

module _ {T : Type 0} (shape : T → List ℕ) (digest : SectionKey → Text)
    (load : Bytes → Option (Section T)) (bins : Bins) (ram : Ram T) (dataset_stamp : Text)
    (layers : List Text) (states : List (State T)) where
  -- The section of the first `n` layers.
  unfoldable pub prefix_at : ℕ → Option (Section T)
  prefix_at n = section_at shape digest load bins ram dataset_stamp (take n layers) (take n states)

  -- Of the prefixes up to `top`, the `n`-th has the section and no longer one has any.
  pub record IsLongest (top : ℕ) (sec : Section T) (n : ℕ) : Type 0 where
    pub bound : n ≤ top
    pub here : prefix_at n ≡ some sec
    pub longest : (m : ℕ) → n < m → m ≤ top → prefix_at m ≡ none

  IsLongest-suc :
      (top n : ℕ) (sec : Section T)
      → prefix_at (suc top) ≡ none
      → IsLongest top sec n
      → IsLongest (suc top) sec n
  IsLongest-suc top n sec e h = record {
    bound = omega (arith, h.bound);
    here = h.here;
    longest = longest;
  }
    where
      longest : (m : ℕ) → n < m → m ≤ suc top → prefix_at m ≡ none
      longest m low high = elim (top-cases m top high) [
        | inl e1 ↦ ap prefix_at e1 ∙ e
        | inr le ↦ h.longest m low le
      ]

  IsLongest-top : (top : ℕ) (sec : Section T) → prefix_at top ≡ some sec → IsLongest top sec top
  IsLongest-top top sec e = record {
    bound = omega arith;
    here = e;
    longest = λ m low high. absurd (omega (arith, low, high));
  }

  prefix_at-all :
      length states ≡ length layers
      → prefix_at (length layers)
        ≡ section_at shape digest load bins ram dataset_stamp layers states
  unfolding prefix_at
  prefix_at-all same =
      ap
        (λ ls. section_at shape digest load bins ram dataset_stamp ls (take (length layers) states))
        (take_all (length layers) layers (omega arith))
      ∙ ap (section_at shape digest load bins ram dataset_stamp layers)
          (take_all (length layers) states (omega (arith, same)))

  match_prefix-IsLongest :
      (top : ℕ) (sec : Section T)
      → match_prefix shape digest load bins ram dataset_stamp top layers states ≡ some sec
      → (n : ℕ) × IsLongest top sec n
  unfolding match_prefix prefix_at
  match_prefix-IsLongest zero sec e = absurd (ground (arith, e))
  match_prefix-IsLongest (suc top) sec e = elim (first_some-cases _ _ sec e) [
    | inl at ↦ (suc top, IsLongest-top (suc top) sec at)
    | inr (missing, rest) ↦
        let (n, h) = match_prefix-IsLongest top sec rest in (n, IsLongest-suc top n sec missing h)
  ]

  match_prefix-none :
      (top m : ℕ)
      → match_prefix shape digest load bins ram dataset_stamp top layers states ≡ none
      → 0 < m
      → m ≤ top
      → prefix_at m ≡ none
  unfolding match_prefix prefix_at
  match_prefix-none zero m e low high = absurd (omega (arith, low, high))
  match_prefix-none (suc top) m e low high =
      let (missing, rest) = first_some-none _ _ e in
      elim (top-cases m top high) [
        | inl at ↦ ap prefix_at at ∙ missing
        | inr below ↦ match_prefix-none top m rest low below
      ]

  match_best-at :
      (top : ℕ) (sec : Section T)
      → length layers ≡ top
      → length states ≡ length layers
      → match_best_section shape digest load bins ram dataset_stamp layers states ≡ some sec
      → (n : ℕ) × IsLongest top sec n
  unfolding match_best_section
  match_best-at top sec e same found = elim (first_some-cases _ _ sec found) [
    | inl at ↦ (top, IsLongest-top top sec (ap prefix_at (sym e) ∙ (prefix_at-all same ∙ at)))
    | inr (missing, rest) ↦ shorter top e (prefix_at-all same ∙ missing) rest
  ]
    where
      shorter :
          (top : ℕ)
          → length layers ≡ top
          → prefix_at (length layers) ≡ none
          → match_prefix shape digest load bins ram dataset_stamp (length layers - 1) layers states
            ≡ some sec
          → (n : ℕ) × IsLongest top sec n
      shorter zero e missing rest =
          let (n, h) = match_prefix-IsLongest (length layers - 1) sec rest in
          (
            n,
            record {
              bound = omega (arith, e, h.bound);
              here = h.here;
              longest = λ m low high. h.longest m low (omega (arith, e, high));
            },
          )
      shorter (suc k) e missing rest =
          let (n, h) = match_prefix-IsLongest (length layers - 1) sec rest in
          (
            n,
            subst (λ t. IsLongest t sec n)
                (let at : suc (length layers - 1) ≡ suc k = omega (arith, e) in at)
                (IsLongest-suc (length layers - 1) n sec
                  (ap prefix_at
                      (let at : suc (length layers - 1) ≡ length layers = omega (arith, e) in at)
                    ∙ missing)
                  h),
          )

  -- If each layer has a state: what is found is the section of a prefix of the layers, and no longer prefix
  -- has one; and if nothing is found, no prefix but the empty one has a section.
  pub match_best_section-IsLongest :
      length states ≡ length layers
      → ((sec : Section T)
          → match_best_section shape digest load bins ram dataset_stamp layers states ≡ some sec
          → (n : ℕ) × IsLongest (length layers) sec n)
        × (match_best_section shape digest load bins ram dataset_stamp layers states ≡ none
            → (m : ℕ) → 0 < m
            → m ≤ length layers
            → prefix_at m ≡ none)
  unfolding match_best_section
  match_best_section-IsLongest same =
      (λ sec e. match_best-at (length layers) sec refl same e, nothing)
    where
      nothing :
          match_best_section shape digest load bins ram dataset_stamp layers states ≡ none
          → (m : ℕ) → 0 < m
          → m ≤ length layers
          → prefix_at m ≡ none
      nothing e m low high =
          let (missing, rest) = first_some-none _ _ e in
          elim (top-cases m (length layers - 1) (omega (arith, low, high))) [
            | inl at ↦
                ap prefix_at (let e1 : m ≡ length layers = omega (arith, at, low, high) in e1)
                ∙ (prefix_at-all same ∙ missing)
            | inr below ↦ match_prefix-none (length layers - 1) m rest low below
          ]
