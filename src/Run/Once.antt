-- ===== src/Run/Once.antt =====
-- What a run of `execute_graph` of services/api/nns/graph_core.py keeps: a node runs at most once, and with
-- full inputs.
use neuralese.Prelude.{
  ℕ, ◌≡◌, refl, sym, ap, ◌∙◌, Bool, true, false, not, ◌&&◌, Option, List, [], ◌∷◌, String,
  string_eq, ◌==◌, if◌then◌else◌, elem, filter, All, Distinct, filter-Distinct, elem-filter,
  either_branch, Dict, lookup, insert, Bool-cases, inl, inr, arith, beq_self, Result, ok,
  or_raise->>=, >>=-eq-ok,
}
use mathlib.Core.Path.{subst}
use package.text.Mathlib.TextEquality.{eq_iff}
use neuralese.Run.Inbox.{Expect, is_ready, prepare_inputs, box_of, slots_of}
use neuralese.Run.Full.{IsCapped, IsFull, deliver-IsCapped, prepare_inputs-IsFull}
use neuralese.Run.Graph.{
  RunError, unknown_node_type, missing_node, Blob, NodeFn, NodeDefs, RunState, ExecutionResult,
  page_inbox, load_pages, activate, pass_emits, called, ran, run_node, run_nodes, enter_page,
  ready_now, run_pages, start, result_of, execute_graph,
}

All-insert :
    {A : Type 0} (P : String × A → Type 0) (key : String) (a : A) (d : Dict String A)
    → P (key, a)
    → All P d
    → All P (insert key a d)
All-insert P key a [] p h = (p, tt)
All-insert P key a ((j, b) ∷ d) p h =
    either_branch (All P) (j == key) (p, h.1) (h.0, All-insert P key a d p h.1)

activate-Distinct :
    {V : Type 0} (nodes : Dict String (Blob V)) (active : List String)
    → Distinct active
    → Distinct (activate nodes active)
unfolding activate
activate-Distinct [] active h = h
activate-Distinct ((nid, blob) ∷ nodes) active h =
    activate-Distinct nodes (if elem nid active then active else nid ∷ active)
      (added (elem nid active) refl)
  where
    added : (b : Bool) → elem nid active ≡ b → Distinct (if b then active else nid ∷ active)
    added true e = h
    added false e = (e, h)

-- No node of the first list is in the second.
Apart : List String → List String → Type 0
Apart nids executed = (n : String) → elem n nids ≡ true → elem n executed ≡ false

module _ {V C X : Type 0} (is_none truthy : V → Bool) (text : String → V)
    (registry : Dict String (NodeFn V C X)) (expect : Expect)
    (arrange : List String → List String) where
  -- What holds between two nodes of a run: the nodes that ran are distinct, no box holds more values than
  -- its node waits for, and every ending had full inputs.
  pub record IsSound (s : RunState V C) : Type 0 where
    pub active : Distinct s.active_nodes
    pub once : Distinct s.executed
    pub capped_inbox : IsCapped expect s.global_inbox
    pub full : All (λ ending. IsFull expect ending.0 ending.1) s.endings

  abbrev done : RunState V C → Result (RunError X) (RunState V C)
  done s = ok s

  done_inj : (a b : RunState V C) → done a ≡ done b → a ≡ b
  done_inj a b e = cc

  abbrev reported : ExecutionResult V → Result (RunError X) (ExecutionResult V)
  reported r = ok r

  endings_inj : (a b : ExecutionResult V) → reported a ≡ reported b → a.endings ≡ b.endings
  endings_inj a b e = cc

  ran-IsSound :
      (fn : NodeFn V C X) (nid page : String) (blob : Blob V) (next : Option String)
      (outputs : Dict String V) (targets : ℕ) (context : C) (s : RunState V C)
      → IsSound s
      → elem nid s.executed ≡ false
      → is_ready expect s.global_inbox nid ≡ true
      → IsSound (
          ran is_none truthy text registry fn nid page blob next
            (prepare_inputs expect s.global_inbox nid)
            outputs
            targets
            context
            s)
  unfolding ran
  ran-IsSound fn nid page blob next outputs targets context s h fresh ready = record {
    active = h.active;
    once = (fresh, h.once);
    capped_inbox = h.capped_inbox;
    full =
        either_branch (All (λ ending. IsFull expect ending.0 ending.1)) _
          (All-insert (λ ending. IsFull expect ending.0 ending.1) nid
            (prepare_inputs expect s.global_inbox nid) s.endings
            (prepare_inputs-IsFull expect s.global_inbox nid h.capped_inbox ready) h.full)
          h.full;
  }

  -- A step that succeeds keeps the invariant, the inbox, and adds the node.
  run_node-IsSound :
      (defs : NodeDefs V) (next : Option String) (nid : String) (s t : RunState V C)
      → IsSound s
      → elem nid s.executed ≡ false
      → is_ready expect s.global_inbox nid ≡ true
      → run_node is_none truthy text registry expect arrange defs next nid s ≡ ok t
      → IsSound t × (t.executed ≡ nid ∷ s.executed) × (t.global_inbox ≡ s.global_inbox)
  unfolding run_node ran
  run_node-IsSound defs next nid s t h fresh ready e =
      let (found, e0, e1) = or_raise->>= missing_node (lookup nid defs) _ e in
      let (fn, e2, e3) = or_raise->>= unknown_node_type (lookup (found.1).kind registry) _ e1 in
      let (outcome, e4, e5) =
        >>=-eq-ok
          (called (
            fn.call (prepare_inputs expect s.global_inbox nid)
              (insert "nid" (text nid) (found.1).props) s.context))
          _ e3 in
      let (targets, e6, e7) =
        >>=-eq-ok (pass_emits is_none truthy text registry (found.1).emit defs) _ e5 in
      let after =
        ran is_none truthy text registry fn nid found.0 found.1 next
          (prepare_inputs expect s.global_inbox nid) outcome.0 targets outcome.1 s in
      let same = done_inj after t e7 in
      subst Kept same (
        ran-IsSound fn nid found.0 found.1 next outcome.0 targets outcome.1 s h fresh ready,
        refl,
        refl,
      )
    where
      Kept : RunState V C → Type 0
      Kept u = IsSound u × (u.executed ≡ nid ∷ s.executed) × (u.global_inbox ≡ s.global_inbox)

  run_nodes-IsSound :
      (defs : NodeDefs V) (next : Option String) (nids : List String) (s t : RunState V C)
      → IsSound s
      → Distinct nids
      → Apart nids s.executed
      → All (λ nid. is_ready expect s.global_inbox nid ≡ true) nids
      → run_nodes is_none truthy text registry expect arrange defs next nids s ≡ ok t
      → IsSound t
  unfolding run_nodes Apart
  run_nodes-IsSound defs next [] s t h distinct apart ready e = subst IsSound (done_inj s t e) h
  run_nodes-IsSound defs next (nid ∷ nids) s t h distinct apart ready e =
      let (u, e0, e1) =
        >>=-eq-ok (run_node is_none truthy text registry expect arrange defs next nid s) _ e in
      let (sound, ran_now, inbox) =
        run_node-IsSound defs next nid s u h (apart nid (ground (arith, beq_self nid))) ready.0
          e0 in
      run_nodes-IsSound defs next nids u t sound distinct.1
        (λ n m. ap (elem n) ran_now ∙ ground (arith, m, distinct.0, apart n, eq_iff nid n))
        (subst (λ i. All (λ nid. is_ready expect i nid ≡ true) nids) (sym inbox) ready.1) e1

  ready-All :
      (p : String → Bool) (xs : List String) (executed : List String)
      → All (λ n. p n ≡ true) (filter (λ n. not (elem n executed) && p n) xs)
  ready-All p [] executed = tt
  ready-All p (x ∷ xs) executed = elim (Bool-cases (not (elem x executed) && p x)) [
    | inl kept ↦ rw kept (ground (arith, kept), ready-All p xs executed)
    | inr dropped ↦ rw dropped (ready-All p xs executed)
  ]

  enter_page-IsSound :
      (page : String) (nodes : Dict String (Blob V)) (s : RunState V C)
      → IsSound s
      → IsSound (enter_page is_none truthy text registry expect arrange page nodes s)
  unfolding enter_page
  enter_page-IsSound page nodes s h = record {
    active = activate-Distinct nodes s.active_nodes h.active;
    once = h.once;
    capped_inbox =
        deliver-IsCapped expect (page_inbox page s.inbox_by_page) s.global_inbox h.capped_inbox;
    full = h.full;
  }

  module _ (arrange-Distinct : (xs : List String) → Distinct xs → Distinct (arrange xs)) where
    run_pages-IsSound :
        (defs : NodeDefs V) (pages : Dict String (Dict String (Blob V))) (s t : RunState V C)
        → IsSound s
        → run_pages is_none truthy text registry expect arrange defs pages s ≡ ok t
        → IsSound t
    unfolding run_pages enter_page ready_now Apart
    run_pages-IsSound defs [] s t h e = subst IsSound (done_inj s t e) h
    run_pages-IsSound defs ((page, nodes) ∷ rest) s t h e =
        let entered = enter_page is_none truthy text registry expect arrange page nodes s in
        let ready = ready_now is_none truthy text registry expect arrange entered in
        let sound = enter_page-IsSound page nodes s h in
        let (u, e0, e1) =
          >>=-eq-ok (run_nodes is_none truthy text registry expect arrange defs _ ready entered) _
            e in
        run_pages-IsSound defs rest u t
          (run_nodes-IsSound defs _ ready entered u sound
            (filter-Distinct _ (arrange entered.active_nodes)
              (arrange-Distinct entered.active_nodes sound.active))
            (λ n m. ground (
              arith,
              m,
              elem-filter
                  (λ nid. not (elem nid s.executed) && is_ready expect entered.global_inbox nid) n
                  (arrange entered.active_nodes),
            ))
            (ready-All (is_ready expect entered.global_inbox) (arrange entered.active_nodes)
              s.executed)
            e0)
          e1

    start-IsSound :
        (context : C) → IsSound (start is_none truthy text registry expect arrange context)
    unfolding start IsCapped box_of slots_of
    start-IsSound context = record {
      active = tt;
      once = tt;
      capped_inbox = λ node port. omega arith;
      full = tt;
    }

    -- In a run that ends without an error no node runs twice.
    pub run_pages-Distinct :
        (pages : Dict String (Dict String (Blob V))) (context : C) (s : RunState V C)
        → run_pages is_none truthy text registry expect arrange
            (load_pages pages)
            pages
            (start is_none truthy text registry expect arrange context)
          ≡ ok s
        → Distinct s.executed
    run_pages-Distinct pages context s e =
        (run_pages-IsSound (load_pages pages) pages _ s (start-IsSound context) e).once

    -- The inputs that a graph reports as an ending have, on every port of the node that expects values,
    -- just as many values as it expects.
    pub execute_graph-IsFull :
        (pages : Dict String (Dict String (Blob V))) (context : C) (r : ExecutionResult V)
        → execute_graph is_none truthy text registry expect arrange pages context ≡ ok r
        → All (λ ending. IsFull expect ending.0 ending.1) r.endings
    unfolding execute_graph result_of
    execute_graph-IsFull pages context r e =
        let (s, e0, e1) =
          >>=-eq-ok
            (run_pages is_none truthy text registry expect arrange (load_pages pages) pages
              (start is_none truthy text registry expect arrange context))
            _ e in
        subst (All (λ ending. IsFull expect ending.0 ending.1)) (endings_inj _ r e1)
          (run_pages-IsSound (load_pages pages) pages _ s (start-IsSound context) e0).full
