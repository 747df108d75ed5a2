-- ===== src/Run/Full.antt =====
-- The boxes of services/api/nns/graph_core.py never hold more values than their node waits for, so that
-- a node that is ready has on every port just as many as it waits for.
use neuralese.Prelude.{
  ℕ, ◌≤◌, ◌≡◌, ap, true, false, ◌&&◌, some, List, [], ◌∷◌, String, string_eq, ◌==◌, if◌then◌else◌,
  eqb, length, length-append, length-take, Dict, lookup, insert, lookup-insert, Bool-cases, inl,
  inr, arith,
}
use mathlib.Core.Option
use package.text.Mathlib.TextEquality.{eq_iff}
use neuralese.Run.Inbox.{
  Expect, Inbox, ports_of, want_of, slots_of, box_of, put_box, capped, cap_append, append_all,
  deliver_ports, deliver, has_all, is_ready, inputs_from, prepare_inputs,
}

module _ {V : Type 0} where
  pub box_of-put_box :
      (n m p q : String) (box : List V) (inbox : Inbox V)
      → box_of (put_box n p box inbox) m q ≡ (if n == m && p == q then box else box_of inbox m q)
  unfolding box_of put_box slots_of
  box_of-put_box n m p q box inbox = ground (
    arith,
    lookup-insert n m (insert p box (Option.get_or (lookup n inbox) [])) inbox,
    lookup-insert p q box (Option.get_or (lookup n inbox) []),
    eq_iff n m,
  )

  length-capped :
      (want : ℕ) (value : V) (box : List V)
      → eqb want 0 ≡ false
      → length box ≤ want
      → length (capped want value box) ≤ want
  unfolding capped
  length-capped want value [] some_wanted h = ground (arith, some_wanted)
  length-capped want value (v ∷ box) some_wanted h =
      ground (arith, h, length-append box (value ∷ []))

  unfoldable pub IsCapped : Expect → Inbox V → Type 0
  IsCapped expect inbox =
      (node port : String) → length (box_of inbox node port) ≤ want_of expect node port

  module _ (expect : Expect) where
    cap_append-IsCapped :
        (node port : String) (value : V) (inbox : Inbox V)
        → IsCapped expect inbox
        → IsCapped expect (cap_append expect node port value inbox)
    unfolding IsCapped cap_append
    cap_append-IsCapped node port value inbox h m q =
        elim (Bool-cases (eqb (want_of expect node port) 0)) [
          | inl e ↦ rw e (h m q)
          | inr e ↦ rw e (
              ground (
                arith,
                h m q,
                length-capped (want_of expect node port) value (box_of inbox node port) e
                    (h node port),
                box_of-put_box node m port q
                    (capped (want_of expect node port) value (box_of inbox node port)) inbox,
                eq_iff node m,
                eq_iff port q,
              ))
        ]

    append_all-IsCapped :
        (node port : String) (values : List V) (inbox : Inbox V)
        → IsCapped expect inbox
        → IsCapped expect (append_all expect node port values inbox)
    unfolding append_all
    append_all-IsCapped node port [] inbox h = h
    append_all-IsCapped node port (v ∷ values) inbox h =
        append_all-IsCapped node port values (cap_append expect node port v inbox)
          (cap_append-IsCapped node port v inbox h)

    deliver_ports-IsCapped :
        (node : String) (ports : Dict String (List V)) (inbox : Inbox V)
        → IsCapped expect inbox
        → IsCapped expect (deliver_ports expect node ports inbox)
    unfolding deliver_ports
    deliver_ports-IsCapped node [] inbox h = h
    deliver_ports-IsCapped node ((port, values) ∷ ports) inbox h =
        deliver_ports-IsCapped node ports (append_all expect node port values inbox)
          (append_all-IsCapped node port values inbox h)

    pub deliver-IsCapped :
        (scheduled inbox : Inbox V)
        → IsCapped expect inbox
        → IsCapped expect (deliver expect scheduled inbox)
    unfolding deliver
    deliver-IsCapped [] inbox h = h
    deliver-IsCapped ((node, ports) ∷ scheduled) inbox h =
        deliver-IsCapped scheduled (deliver_ports expect node ports inbox)
          (deliver_ports-IsCapped node ports inbox h)

    -- Inputs with just as many values on every port as the node waits for.
    unfoldable pub IsFull : String → Dict String (List V) → Type 0
    IsFull node inputs =
        (port : String) (need : ℕ)
        → lookup port (ports_of expect node) ≡ some need
        → length (Option.get_or (lookup port inputs) []) ≡ need

    inputs_from-length :
        (inbox : Inbox V) (node port : String) (need : ℕ) (ports : Dict String ℕ)
        → length (box_of inbox node port) ≤ need
        → has_all inbox node ports ≡ true
        → lookup port ports ≡ some need
        → length (Option.get_or (lookup port (inputs_from inbox node ports)) []) ≡ need
    unfolding inputs_from has_all
    inputs_from-length inbox node port need [] bound ready e = absurd (ground (arith, e))
    inputs_from-length inbox node port need ((p, n) ∷ ports) bound ready e =
        elim (Bool-cases (p == port)) [
          | inl same ↦ rw same (
              let name = (eq_iff p port).0 same in
              let box = ap (box_of inbox node) name in
              ground (arith, box, bound, ready, e, same, length-take n (box_of inbox node p)))
          | inr other ↦ rw other (
              inputs_from-length inbox node port need ports bound (ground (arith, ready))
                (ground (arith, e, other)))
        ]

    pub prepare_inputs-IsFull :
        (inbox : Inbox V) (node : String)
        → IsCapped expect inbox
        → is_ready expect inbox node ≡ true
        → IsFull node (prepare_inputs expect inbox node)
    unfolding IsFull IsCapped is_ready prepare_inputs want_of
    prepare_inputs-IsFull inbox node h ready port need e =
        inputs_from-length inbox node port need (ports_of expect node)
          (ground (arith, h node port, e)) ready e
