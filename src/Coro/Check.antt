-- ===== src/Coro/Check.antt =====
-- The loop of `check_timeout_coroutine` (src/coro/sched.c), to its end.
use mathlib.Core.List.{append_assoc}
use mathlib.Core.Path.{subst}
use cserv.Prelude.{
  ℕ, zero, suc, ◌+◌, ◌<◌, ◌≡◌, refl, sym, ap, ◌∙◌, arith, false, Bool-cases, inl, inr, Option, List,
  ◌∷◌, ◌++◌, length, ltb, ltb→lt, count, count-append,
}
use cserv.Util.Rbtree.Order.{inorder}
use cserv.Coro.Search.{Focus, erase_at}
use cserv.Coro.SearchLaws.{IsSorted, Above-trans}
use cserv.Coro.State.{TimerNode, Coroutine, Schedule}
use cserv.Coro.Sched.{free_timer_node, check_loop, check_timeout_coroutine}
use cserv.Coro.Ordered.{whole, front, back, inorder-put_back, inorder-erase_at}
use cserv.Coro.TimerTree.{sleepers, Timed, erase_at-Timed, times}
use cserv.Coro.Handler.{mark_unless, mark_unless-add, Handled, timeout_coroutine_handler-Handled}
use cserv.Coro.Expiry.{
  expired, no_timer, first, recent, Timed-times, timeout-mark_unless, Checked, idle-Checked,
  check_loop-none, check_loop-pending, check_loop-expired,
}

module _ {F : Type 0} where
  -- the first node is gone, and its coroutines have been handled
  abbrev handled_at : Schedule F → Focus TimerNode → List ℕ → (ℕ → Coroutine F) → Schedule F
  handled_at sched at active coroutines = record sched {
    inactive = erase_at at;
    active = active;
    coroutines = coroutines;
  }

  -- one round: the coroutines of the first node, and then those that the rest of the loop wakes
  round-Checked :
      (now : ℕ) (sched : Schedule F) (at : Focus TimerNode) (h result : Option (Schedule F))
      → (d : Handled (inorder at.item.root) (record sched { inactive = erase_at at }) h)
      → inorder sched.inactive ≡ at.item ∷ inorder (erase_at at)
      → ltb now at.item.timeout ≡ false
      → Checked now
          (free_timer_node at.item.address (handled_at sched at d.active d.coroutines))
          result
      → Checked now sched result
  unfolding free_timer_node
  round-Checked now sched at h result d w le c =
      let xs : List TimerNode = inorder (erase_at at) in
      let same : expired now (inorder sched.inactive) ≡ at.item ∷ expired now xs =
        rw (w, le) refl in
      let total : (k : ℕ)
          → count k (sleepers (expired now (inorder sched.inactive)))
            ≡ count k (inorder at.item.root) + count k (sleepers (expired now xs)) =
        λ k. rw same (count-append k (inorder at.item.root) (sleepers (expired now xs))) in
      record {
        inactive = c.inactive;
        active = c.active;
        cache = c.cache;
        coroutines = c.coroutines;
        shape = c.shape;
        timed =
            Timed-times _ (times sched) c.inactive
              (λ k. ap Coroutine.timeout (d.woken k) ∙ timeout-mark_unless _ (sched.coroutines k))
              c.timed;
        rest = c.rest ∙ rw (w, le) refl;
        woke = d.woke ++ c.woke;
        appended =
            c.appended ∙ ap (λ u. u ++ c.woke) d.appended ∙ append_assoc sched.active d.woke c.woke;
        counts =
            (λ k. omega (arith, c.counts k, d.counts k, total k, count-append k d.woke c.woke));
        woken = (λ k.
            c.woken k
            ∙ ap (mark_unless (count k (sleepers (expired now xs)))) (d.woken k)
            ∙ mark_unless-add (count k (sleepers (expired now xs))) (count k (inorder at.item.root))
                (sched.coroutines k)
            ∙ ap (λ m. mark_unless m (sched.coroutines k)) (sym (total k)));
      }

  check_loop-Checked :
      (n now : ℕ) (sched : Schedule F)
      → Timed (times sched) sched.inactive
      → length (inorder sched.inactive) < n
      → Checked now sched (check_loop n now sched)
  check_loop-Checked zero now sched t h = absurd (omega (arith, h))
  check_loop-Checked (suc n) now sched t h = elim (recent sched.inactive) [
    | no_timer e z ↦ idle-Checked now sched _ t (check_loop-none n now sched e) (rw z tt)
    | first at e q f ↦
        let tw : Timed (times sched) (whole at) = rw q t in
        let w : inorder sched.inactive ≡ front at ++ (at.item ∷ back at) =
          ap inorder (sym q) ∙ inorder-put_back at at.item in
        let w' : inorder sched.inactive ≡ at.item ∷ inorder (erase_at at) =
          w
          ∙ ap (λ u. u ++ (at.item ∷ back at)) f
          ∙ ap (λ u. at.item ∷ u) (sym (inorder-erase_at at ∙ ap (λ u. u ++ back at) f)) in
        elim (Bool-cases (ltb now at.item.timeout)) [
          | inl b ↦ idle-Checked now sched _ t (check_loop-pending n now sched at e b) (
              rw w' (
                ltb→lt now at.item.timeout b,
                Above-trans TimerNode.timeout now at.item.timeout (inorder (erase_at at))
                    (ltb→lt now at.item.timeout b)
                    (let sorted : IsSorted TimerNode.timeout (at.item ∷ inorder (erase_at at)) =
                        subst (IsSorted TimerNode.timeout) w' t.order.sorted in
                      sorted.0),
              ))
          | inr b ↦
              let d =
                timeout_coroutine_handler-Handled at.item
                  (record sched { inactive = erase_at at }) in
              rw
                (check_loop-expired n now sched (handled_at sched at d.active d.coroutines) at e b
                  d.shape)
                (round-Checked now sched at _ _ d w' b (
                  check_loop-Checked n now
                    (free_timer_node at.item.address (handled_at sched at d.active d.coroutines))
                    (unfold free_timer_node in
                      Timed-times (times sched) _ (erase_at at)
                        (λ k. sym (
                          ap Coroutine.timeout (d.woken k)
                          ∙ timeout-mark_unless _ (sched.coroutines k)))
                        (erase_at-Timed (times sched) at tw))
                    (unfold free_timer_node in omega (arith, h, ap length w'))))
        ]
  ]

  -- `check_timeout_coroutine`, on a valid tree of timers, wakes exactly the coroutines of the timers
  -- whose time has come: the active list is what it was with these coroutines, in some order, behind
  -- it; they are marked as woken by a timeout, their timer nodes leave the tree, and the others stay.
  pub check_timeout_coroutine-Checked :
      (now : ℕ) (sched : Schedule F)
      → Timed (times sched) sched.inactive
      → Checked now sched (check_timeout_coroutine now sched)
  unfolding check_timeout_coroutine
  check_timeout_coroutine-Checked now sched t =
      check_loop-Checked (suc (length (inorder sched.inactive))) now sched t (omega arith)
