-- ===== src/Tests/Run.antt =====
-- Runs of services/api/nns/graph_core.py.
use neuralese.Prelude.{
  ℕ, ◌+◌, Bool, false, ◌≡◌, refl, List, [], ◌∷◌, String, string_eq, All, Distinct, Dict, ok, ◌⊎◌,
  inl,
}
use neuralese.Run.Inbox.{
  Expect, Inbox, ports_of, want_of, slots_of, box_of, put_box, capped, cap_append, append_all,
  deliver_ports, deliver, has_all, is_ready, inputs_from, prepare_inputs,
}
use neuralese.Run.Full.{IsFull}
use neuralese.Run.Graph.{
  Blob, NodeFn, RunState, ExecutionResult, page_inbox, append_slot, schedule_ports,
  schedule_targets, load_page, load_pages, activate, count_targets, pass_emits, schedule,
  schedule_next, is_flagged, called, ran, run_node, run_nodes, enter_page, ready_now, run_pages,
  start, result_of, execute_graph,
}
use neuralese.Run.Once.{run_pages-Distinct, execute_graph-IsFull}

-- "a" on the first page sends 7 to the port "i" of "b" on the second.
abbrev registry : Dict String (NodeFn ℕ ℕ ℕ)
registry =
    (
      "Source",
      record {
        call = λ inputs props calls. ok (("o", 7) ∷ [], calls + 1);
        branch_head = false;
        pass_through = false;
      },
    )
    ∷ (
      "Sink",
      record {
        call = λ inputs props calls. ok ([], calls + 1);
        branch_head = false;
        pass_through = false;
      },
    )
    ∷ []

abbrev pages : Dict String (Dict String (Blob ℕ))
pages =
    (
      "0",
      ("a", record { kind = "Source"; props = []; emit = ("o", ("b", "i" ∷ []) ∷ []) ∷ [] }) ∷ [],
    )
    ∷ ("1", ("b", record { kind = "Sink"; props = []; emit = [] }) ∷ [])
    ∷ []

abbrev expect : Expect
expect = ("b", ("i", 1) ∷ []) ∷ []

abbrev is_none : ℕ → Bool
is_none value = false

abbrev truthy : ℕ → Bool
truthy value = false

abbrev text : String → ℕ
text nid = 0

abbrev as_inserted : List String → List String
as_inserted nids = nids

abbrev inboxes : Dict String (Inbox ℕ)
inboxes = ("1", ("b", ("i", 7 ∷ []) ∷ []) ∷ []) ∷ []

abbrev traced : Dict (String × String) (Dict String ℕ)
traced = (("0", "a"), ("o", 7) ∷ []) ∷ (("1", "b"), []) ∷ []

abbrev heads : Dict String (Dict String (List ℕ) ⊎ Dict String ℕ)
heads = ("b", inl (("i", 7 ∷ []) ∷ [])) ∷ []

abbrev final : RunState ℕ ℕ
final = record {
  inbox_by_page = inboxes;
  global_inbox = ("b", ("i", 7 ∷ []) ∷ []) ∷ [];
  trace = traced;
  active_nodes = "b" ∷ "a" ∷ [];
  executed = "b" ∷ "a" ∷ [];
  branch_heads = heads;
  endings = ("b", ("i", 7 ∷ []) ∷ []) ∷ [];
  context = 2;
}

abbrev result : ExecutionResult ℕ
result = record {
  last_inbox = ("b", ("i", 7 ∷ []) ∷ []) ∷ [];
  branch_heads = heads;
  endings = ("b", ("i", 7 ∷ []) ∷ []) ∷ [];
  trace = traced;
  inbox_by_page = inboxes;
}

runs :
    run_pages is_none truthy text registry expect as_inserted
      (load_pages pages)
      pages
      (start is_none truthy text registry expect as_inserted 0)
    ≡ ok final
unfolding ports_of want_of slots_of box_of put_box capped cap_append append_all deliver_ports
    deliver has_all is_ready inputs_from prepare_inputs page_inbox append_slot schedule_ports
    schedule_targets load_page load_pages activate count_targets pass_emits schedule schedule_next
    is_flagged called ran run_node run_nodes enter_page ready_now run_pages start
runs = refl

run_pages-Distinct_example : Distinct final.executed
run_pages-Distinct_example =
    run_pages-Distinct is_none truthy text registry expect as_inserted (λ nids h. h) pages 0 final
      runs

executes : execute_graph is_none truthy text registry expect as_inserted pages 0 ≡ ok result
unfolding ports_of want_of slots_of box_of put_box capped cap_append append_all deliver_ports
    deliver has_all is_ready inputs_from prepare_inputs page_inbox append_slot schedule_ports
    schedule_targets load_page load_pages activate count_targets pass_emits schedule schedule_next
    is_flagged called ran run_node run_nodes enter_page ready_now run_pages start result_of
    execute_graph
executes = refl

execute_graph-IsFull_example : All (λ ending. IsFull expect ending.0 ending.1) result.endings
execute_graph-IsFull_example =
    execute_graph-IsFull is_none truthy text registry expect as_inserted (λ nids h. h) pages 0
      result executes
