-- ===== src/Run/Graph.antt =====
-- `pass_emits` and `execute_graph` of services/api/nns/graph_core.py, on a pack whose dictionaries are
-- read already and whose pages stand in the order of `_sorted_page_keys`. `V` is the type of Python's
-- values, `C` that of contexts, `X` that of the exceptions of node functions; `arrange` is the order in
-- which Python walks a set. A node that the registry does not know raises when it runs, or when
-- `pass_emits` looks it up. `executed` lists the nodes in the order they ran, the last first.
use neuralese.Prelude.{
  is_empty, ℕ, ◌+◌, Bool, false, not, ◌&&◌, ◌||◌, List, [], ◌∷◌, ◌++◌, Option, none, some, String,
  string_eq, pair_eq, eqb, if◌then◌else◌, filter, elem, Dict, lookup, insert, Result, ok, err,
  ◌>>=◌, or_raise, ◌⊎◌, inl, inr,
}
use mathlib.Core.Option
use neuralese.Run.Inbox.{Expect, Inbox, deliver, is_ready, prepare_inputs, box_of, put_box}

-- output port -> target node -> input ports
abbrev pub Emit : Type 0
Emit = Dict String (Dict String (List String))

pub data RunError (X : Type 0) : Type 0 where
  unknown_node_type missing_node : RunError X
  node_raised : X → RunError X

module _ (V : Type 0) where
  pub record Blob : Type 0 where
    pub kind : String
    pub props : Dict String V
    pub emit : Emit

  pub record NodeFn (C X : Type 0) : Type 0 where
    pub call : Dict String (List V) → Dict String V → C → Result X (Dict String V × C)
    pub branch_head : Bool
    pub pass_through : Bool

  abbrev pub NodeDefs : Type 0
  NodeDefs = Dict String (String × Blob)

  pub record RunState (C : Type 0) : Type 0 where
    pub inbox_by_page : Dict String (Inbox V)
    pub global_inbox : Inbox V
    pub trace : Dict (String × String) (Dict String V)
    pub active_nodes : List String
    pub executed : List String
    pub branch_heads : Dict String (Dict String (List V) ⊎ Dict String V)
    pub endings : Dict String (Dict String (List V))
    pub context : C

  pub record ExecutionResult : Type 0 where
    pub last_inbox : Inbox V
    pub branch_heads : Dict String (Dict String (List V) ⊎ Dict String V)
    pub endings : Dict String (Dict String (List V))
    pub trace : Dict (String × String) (Dict String V)
    pub inbox_by_page : Dict String (Inbox V)

module _ {V : Type 0} where
  unfoldable pub page_inbox : String → Dict String (Inbox V) → Inbox V
  page_inbox page inboxes = Option.get_or (lookup page inboxes) []

  unfoldable pub append_slot :
      String → V → String → String → Dict String (Inbox V) → Dict String (Inbox V)
  append_slot page value target port inboxes =
      let inbox = page_inbox page inboxes in
      insert page (put_box target port (box_of inbox target port ++ value ∷ []) inbox) inboxes

  unfoldable pub schedule_ports :
      String → V → String → List String → Dict String (Inbox V) → Dict String (Inbox V)
  schedule_ports page value target [] inboxes = inboxes
  schedule_ports page value target (port ∷ ports) inboxes =
      schedule_ports page value target ports (append_slot page value target port inboxes)

  unfoldable pub schedule_targets :
      String → V → Dict String (List String) → Dict String (Inbox V) → Dict String (Inbox V)
  schedule_targets page value [] inboxes = inboxes
  schedule_targets page value ((target, ports) ∷ fanouts) inboxes =
      schedule_targets page value fanouts (schedule_ports page value target ports inboxes)

  unfoldable pub load_page : String → Dict String (Blob V) → NodeDefs V → NodeDefs V
  load_page page [] defs = defs
  load_page page ((nid, blob) ∷ nodes) defs = load_page page nodes (insert nid (page, blob) defs)

  unfoldable pub load_pages : Dict String (Dict String (Blob V)) → NodeDefs V
  load_pages pages = go pages []
    where
      go : Dict String (Dict String (Blob V)) → NodeDefs V → NodeDefs V
      go [] defs = defs
      go ((page, nodes) ∷ rest) defs = go rest (load_page page nodes defs)

  -- `active_nodes.add(nid)` for the nodes of a page
  unfoldable pub activate : Dict String (Blob V) → List String → List String
  activate [] active = active
  activate ((nid, blob) ∷ nodes) active =
      activate nodes (if elem nid active then active else nid ∷ active)

-- What a node function raises, passed on.
unfoldable pub called : {A X : Type 0} → Result X A → Result (RunError X) A
called (ok outcome) = ok outcome
called (err raised) = err (node_raised raised)

module _ {V C X : Type 0} (is_none truthy : V → Bool) (text : String → V)
    (registry : Dict String (NodeFn V C X)) where
  unfoldable pub count_targets : NodeDefs V → Dict String (List String) → Result (RunError X) ℕ
  count_targets defs [] = ok 0
  count_targets defs ((target, ports) ∷ fanouts) =
      let rest = count_targets defs fanouts in
      elim (lookup target defs) [
        | none ↦ rest
        | some found ↦ or_raise unknown_node_type (lookup (found.1).kind registry) >>= λ fn.
            rest >>= λ n. ok (if fn.pass_through then n else n + 1)
      ]

  -- The targets of a node that do not just pass values through.
  unfoldable pub pass_emits : Emit → NodeDefs V → Result (RunError X) ℕ
  pass_emits [] defs = ok 0
  pass_emits ((port, fanouts) ∷ emits) defs = do
    n ← count_targets defs fanouts
    m ← pass_emits emits defs
    ok (n + m)

  unfoldable pub schedule :
      String → Dict String V → Emit → Dict String (Inbox V) → Dict String (Inbox V)
  schedule page outputs [] inboxes = inboxes
  schedule page outputs ((out_port, fanouts) ∷ emit) inboxes =
      schedule page outputs emit (sent (lookup out_port outputs))
    where
      sent : Option V → Dict String (Inbox V)
      sent none = inboxes
      sent (some value) =
          if is_none value then inboxes else schedule_targets page value fanouts inboxes

  unfoldable pub schedule_next :
      Option String → Dict String V → Emit → Dict String (Inbox V) → Dict String (Inbox V)
  schedule_next none outputs emit inboxes = inboxes
  schedule_next (some page) outputs emit inboxes = schedule page outputs emit inboxes

  unfoldable pub is_flagged : NodeFn V C X → Dict String V → Bool
  is_flagged fn props = fn.branch_head || flag (lookup "branch_head" props)
    where
      flag : Option V → Bool
      flag none = false
      flag (some value) = truthy value

  -- `outputs.copy() if outputs else inputs.copy()`
  abbrev head_of : Dict String (List V) → Dict String V → Dict String (List V) ⊎ Dict String V
  head_of inputs [] = inl inputs
  head_of inputs (o ∷ outputs) = inr (o ∷ outputs)

  -- The state after a node has run, with the number of its targets.
  unfoldable pub ran :
      NodeFn V C X
      → String
      → String
      → Blob V
      → Option String
      → Dict String (List V)
      → Dict String V
      → ℕ
      → C
      → RunState V C
      → RunState V C
  ran fn nid page blob next inputs outputs targets context s = record {
    inbox_by_page = schedule_next next outputs blob.emit s.inbox_by_page;
    global_inbox = s.global_inbox;
    trace = insert (page, nid) outputs s.trace;
    active_nodes = s.active_nodes;
    executed = nid ∷ s.executed;
    branch_heads =
        if (eqb targets 0 || is_flagged fn (insert "nid" (text nid) blob.props))
          && not fn.pass_through
        then insert nid (head_of inputs outputs) s.branch_heads
        else s.branch_heads;
    endings = if is_empty blob.emit then insert nid inputs s.endings else s.endings;
    context = context;
  }

  module _ (expect : Expect) (arrange : List String → List String) where
    -- The body of the loop over the nodes that are ready.
    unfoldable pub run_node :
        NodeDefs V → Option String → String → RunState V C → Result (RunError X) (RunState V C)
    run_node defs next nid s = do
      found ← or_raise missing_node (lookup nid defs)
      fn ← or_raise unknown_node_type (lookup (found.1).kind registry)
      outcome ← called (
          fn.call (prepare_inputs expect s.global_inbox nid)
            (insert "nid" (text nid) (found.1).props) s.context)
      targets ← pass_emits (found.1).emit defs
      ok (
          ran fn nid found.0 found.1 next (prepare_inputs expect s.global_inbox nid) outcome.0
            targets outcome.1 s)

    unfoldable pub run_nodes :
        NodeDefs V → Option String → List String → RunState V C → Result (RunError X) (RunState V C)
    run_nodes defs next [] s = ok s
    run_nodes defs next (nid ∷ nids) s = run_node defs next nid s >>= run_nodes defs next nids

    unfoldable pub enter_page : String → Dict String (Blob V) → RunState V C → RunState V C
    enter_page page nodes s = record s {
      active_nodes = activate nodes s.active_nodes;
      global_inbox = deliver expect (page_inbox page s.inbox_by_page) s.global_inbox;
    }

    unfoldable pub ready_now : RunState V C → List String
    ready_now s =
        filter (λ nid. not (elem nid s.executed) && is_ready expect s.global_inbox nid)
          (arrange s.active_nodes)

    abbrev first_key : Dict String (Dict String (Blob V)) → Option String
    first_key [] = none
    first_key ((page, nodes) ∷ rest) = some page

    unfoldable pub run_pages :
        NodeDefs V
        → Dict String (Dict String (Blob V))
        → RunState V C
        → Result (RunError X) (RunState V C)
    run_pages defs [] s = ok s
    run_pages defs ((page, nodes) ∷ rest) s =
        let entered = enter_page page nodes s in
        run_nodes defs (first_key rest) (ready_now entered) entered >>= run_pages defs rest

    unfoldable pub start : C → RunState V C
    start context = record {
      inbox_by_page = [];
      global_inbox = [];
      trace = [];
      active_nodes = [];
      executed = [];
      branch_heads = [];
      endings = [];
      context = context;
    }

    abbrev last_key : Dict String (Dict String (Blob V)) → String
    last_key [] = "0"
    last_key ((page, nodes) ∷ []) = page
    last_key (first ∷ second ∷ rest) = last_key (second ∷ rest)

    unfoldable pub result_of : Dict String (Dict String (Blob V)) → RunState V C → ExecutionResult V
    result_of pages s = record {
      last_inbox = page_inbox (last_key pages) s.inbox_by_page;
      branch_heads = s.branch_heads;
      endings = s.endings;
      trace = s.trace;
      inbox_by_page = s.inbox_by_page;
    }

    unfoldable pub execute_graph :
        Dict String (Dict String (Blob V)) → C → Result (RunError X) (ExecutionResult V)
    execute_graph pages context =
        run_pages (load_pages pages) pages (start context) >>= λ s. ok (result_of pages s)
