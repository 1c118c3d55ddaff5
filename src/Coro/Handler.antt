-- ===== src/Coro/Handler.antt =====
-- `timeout_coroutine_handler` (src/coro/sched.c) wakes every coroutine of a timer node.
use mathlib.Core.List.{append-nil, append_assoc}
use cserv.Prelude.{
  ℕ, zero, suc, ◌+◌, ◌≤◌, ◌≡◌, refl, sym, ap, ◌∙◌, arith, true, Option, some, List, [], ◌∷◌, ◌++◌,
  length, length-append, one_at, count, count-append,
}
use cserv.Util.Rbtree.Tree.{Color, Tree, leaf, node, top}
use cserv.Util.Rbtree.Order.{inorder}
use cserv.Util.Rbtree.OrderErase.{rb_erase-inorder}
use cserv.Util.Rbtree.Erase.{rb_erase}
use cserv.Coro.State.{TimerNode, Coroutine, Schedule, write}
use cserv.Coro.Sched.{
  set_by_timeout, move_to_active_list_tail_direct, handler_loop, timeout_coroutine_handler,
}

module _ {F : Type 0} where
  -- a coroutine, woken by its timer unless the number is 0
  abbrev pub mark_unless : ℕ → Coroutine F → Coroutine F
  mark_unless zero c = c
  mark_unless (suc n) c = record c { active_by_timeout = true }

  pub mark_unless-add :
      (m n : ℕ) (c : Coroutine F) → mark_unless m (mark_unless n c) ≡ mark_unless (n + m) c
  mark_unless-add zero n c = let e : n + 0 ≡ n = omega arith in rw e refl
  mark_unless-add (suc m) zero c = let e : 0 + suc m ≡ suc m = omega arith in rw e refl
  mark_unless-add (suc m) (suc n) c =
      let e : suc n + suc m ≡ suc (n + suc m) = omega arith in rw e refl

  write-mark :
      (cs : ℕ → Coroutine F) (id k : ℕ)
      → write cs id (record (cs id) { active_by_timeout = true }) k
        ≡ mark_unless (one_at k id) (cs k)
  unfolding write
  write-mark cs id k = ground arith

-- What the handler makes of the schedule: `ids`, in some order, are appended to the active list, and
-- marked.
pub record Handled {F : Type 0} (ids : List ℕ) (sched : Schedule F) (result : Option (Schedule F))
    : Type 0 where
  pub active : List ℕ
  pub coroutines : ℕ → Coroutine F
  pub shape : result ≡ some (record sched { active = active; coroutines = coroutines })
  pub woke : List ℕ
  pub appended : active ≡ sched.active ++ woke
  pub counts : (k : ℕ) → count k woke ≡ count k ids
  pub woken : (k : ℕ) → coroutines k ≡ mark_unless (count k ids) (sched.coroutines k)

inorder-root :
    (c : Color) (l : Tree ℕ) (id : ℕ) (r : Tree ℕ)
    → inorder (rb_erase c l id r top) ≡ inorder l ++ inorder r
inorder-root c l id r =
    (rb_erase-inorder c l id r top).1 ∙ ap (λ w. inorder l ++ w) (append-nil (inorder r))

module _ {F : Type 0} where
  pub handler_loop-Handled :
      (n : ℕ) (t : Tree ℕ) (sched : Schedule F)
      → length (inorder t) ≤ n
      → Handled (inorder t) sched (handler_loop n t sched)
  unfolding handler_loop set_by_timeout move_to_active_list_tail_direct
  handler_loop-Handled n leaf sched h = record {
    active = sched.active;
    coroutines = sched.coroutines;
    shape = refl;
    woke = [];
    appended = sym (append-nil sched.active);
    counts = (λ k. refl);
    woken = (λ k. refl);
  }
  handler_loop-Handled zero (node c l id r) sched h =
      absurd (omega (arith, h, length-append (inorder l) (id ∷ inorder r)))
  handler_loop-Handled (suc n) (node c l id r) sched h =
      let e = inorder-root c l id r in
      let ih =
        handler_loop-Handled n (rb_erase c l id r top)
          (move_to_active_list_tail_direct (set_by_timeout sched id true) id)
          (rw e (
            omega (
              arith,
              h,
              length-append (inorder l) (id ∷ inorder r),
              length-append (inorder l) (inorder r),
            ))) in
      let same : (k : ℕ)
          → count k (inorder l ++ (id ∷ inorder r))
            ≡ one_at k id + count k (inorder (rb_erase c l id r top)) =
        λ k. rw e (
          omega (
            arith,
            count-append k (inorder l) (id ∷ inorder r),
            count-append k (inorder l) (inorder r),
          )) in
      record {
        active = ih.active;
        coroutines = ih.coroutines;
        shape = ih.shape;
        woke = id ∷ ih.woke;
        appended = ih.appended ∙ append_assoc sched.active (id ∷ []) ih.woke;
        counts = (λ k. omega (arith, ih.counts k, same k));
        woken = (λ k.
            ih.woken k
            ∙ ap (mark_unless (count k (inorder (rb_erase c l id r top))))
                (write-mark sched.coroutines id k)
            ∙ mark_unless-add (count k (inorder (rb_erase c l id r top))) (one_at k id)
                (sched.coroutines k)
            ∙ ap (λ m. mark_unless m (sched.coroutines k)) (sym (same k)));
      }

  pub timeout_coroutine_handler-Handled :
      (n : TimerNode) (sched : Schedule F)
      → Handled (inorder n.root) sched (timeout_coroutine_handler n sched)
  unfolding timeout_coroutine_handler
  timeout_coroutine_handler-Handled n sched =
      handler_loop-Handled (length (inorder n.root)) n.root sched (omega arith)
