-- ===== src/Run/Inbox.antt =====
-- `_cap_append`, `_deliver_scheduled_to_global`, `_is_ready` and `_prepare_inputs` of
-- services/api/nns/graph_core.py. `V` is the type of Python's values. The counts that a graph expects
-- are natural numbers, and the slots of a page, which the code makes itself, are lists.
use neuralese.Prelude.{
  ℕ, Bool, true, ◌&&◌, List, [], ◌∷◌, ◌++◌, String, string_eq, eqb, leb, ltb, if◌then◌else◌, length,
  take, Dict, lookup, insert,
}
use mathlib.Core.Option

-- node -> port -> the number of values that the node waits for
abbrev pub Expect : Type 0
Expect = Dict String (Dict String ℕ)

unfoldable pub ports_of : Expect → String → Dict String ℕ
ports_of expect node = Option.get_or (lookup node expect) []

unfoldable pub want_of : Expect → String → String → ℕ
want_of expect node port = Option.get_or (lookup port (ports_of expect node)) 0

-- node -> port -> values
abbrev pub Inbox : Type 0 → Type 0
Inbox V = Dict String (Dict String (List V))

module _ {V : Type 0} where
  unfoldable pub slots_of : Inbox V → String → Dict String (List V)
  slots_of inbox node = Option.get_or (lookup node inbox) []

  unfoldable pub box_of : Inbox V → String → String → List V
  box_of inbox node port = Option.get_or (lookup port (slots_of inbox node)) []

  unfoldable pub put_box : String → String → List V → Inbox V → Inbox V
  put_box node port box inbox = insert node (insert port box (slots_of inbox node)) inbox

  -- A box after a value was offered to it.
  unfoldable pub capped : ℕ → V → List V → List V
  capped want value [] = value ∷ []
  capped want value (v ∷ box) =
      if leb want 1
      then v ∷ box
      else if ltb (length (v ∷ box)) want
      then (v ∷ box) ++ value ∷ []
      else v ∷ box

  unfoldable pub cap_append : Expect → String → String → V → Inbox V → Inbox V
  cap_append expect node port value inbox =
      let want = want_of expect node port in
      if eqb want 0
      then inbox
      else put_box node port (capped want value (box_of inbox node port)) inbox

  unfoldable pub append_all : Expect → String → String → List V → Inbox V → Inbox V
  append_all expect node port [] inbox = inbox
  append_all expect node port (v ∷ values) inbox =
      append_all expect node port values (cap_append expect node port v inbox)

  unfoldable pub deliver_ports : Expect → String → Dict String (List V) → Inbox V → Inbox V
  deliver_ports expect node [] inbox = inbox
  deliver_ports expect node ((port, values) ∷ ports) inbox =
      deliver_ports expect node ports (append_all expect node port values inbox)

  -- `_deliver_scheduled_to_global`, on the nodes of the page
  unfoldable pub deliver : Expect → Inbox V → Inbox V → Inbox V
  deliver expect [] inbox = inbox
  deliver expect ((node, ports) ∷ scheduled) inbox =
      deliver expect scheduled (deliver_ports expect node ports inbox)

  unfoldable pub has_all : Inbox V → String → Dict String ℕ → Bool
  has_all inbox node [] = true
  has_all inbox node ((port, need) ∷ ports) =
      leb need (length (box_of inbox node port)) && has_all inbox node ports

  unfoldable pub is_ready : Expect → Inbox V → String → Bool
  is_ready expect inbox node = has_all inbox node (ports_of expect node)

  unfoldable pub inputs_from : Inbox V → String → Dict String ℕ → Dict String (List V)
  inputs_from inbox node [] = []
  inputs_from inbox node ((port, need) ∷ ports) =
      let values = box_of inbox node port in
      (port, if leb need 1 then values else take need values) ∷ inputs_from inbox node ports

  unfoldable pub prepare_inputs : Expect → Inbox V → String → Dict String (List V)
  prepare_inputs expect inbox node = inputs_from inbox node (ports_of expect node)
