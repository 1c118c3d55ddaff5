-- ===== src/Coro/TimerTree.antt =====
-- The tree of timer nodes of src/coro/sched.c: a coroutine that sleeps is found by its time, and
-- leaves the tree.
use cserv.Prelude.{
  ℕ, zero, suc, ◌+◌, ◌≡◌, ◌≢◌, refl, sym, ap, ◌∙◌, arith, some, List, [], ◌∷◌, ◌++◌, ◌⊎◌, inl, inr,
  Every, Every-append, Every-split, Every-map, Every-count, one_at, count, count-append,
}
use cserv.Util.Rbtree.Tree.{Tree, leaf, node, top, plug}
use cserv.Util.Rbtree.Order.{inorder}
use cserv.Util.Memcache.Defs.{Memcache}
use cserv.Coro.Search.{Focus, locate, erase_at}
use cserv.Coro.SearchLaws.{Lacks, IsSorted-split, absent, present, located}
use cserv.Coro.State.{TimerNode, Schedule}
use cserv.Coro.Timers.{
  find_timer_node, remove_from_timer_node, settle_timer_node, remove_from_inactive_tree, put_back,
}
use cserv.Coro.Ordered.{
  whole, front, back, inorder-put_back, inorder-erase_at, Ordered, erase_at-Ordered,
  put_back-Ordered,
}
use cserv.Coro.TimerNodes.{Agrees, remove_from_timer_node-Agrees}

-- the coroutines that wait in the nodes
abbrev pub sleepers : List TimerNode → List ℕ
sleepers [] = []
sleepers (n ∷ ns) = inorder n.root ++ sleepers ns

-- A tree of timer nodes, none of which is without a coroutine.
pub record Timed (times : ℕ → ℕ) (t : Tree TimerNode) : Type 0 where
  pub order : Ordered TimerNode.timeout t
  pub nodes : Every (λ n. Agrees times n × (inorder n.root ≢ [])) (inorder t)

pub count-sleepers :
    (k : ℕ) (ms ns : List TimerNode)
    → count k (sleepers (ms ++ ns)) ≡ count k (sleepers ms) + count k (sleepers ns)
count-sleepers k [] ns = omega arith
count-sleepers k (m ∷ ms) ns = omega (
  arith,
  count-append k (inorder m.root) (sleepers (ms ++ ns)),
  count-append k (inorder m.root) (sleepers ms),
  count-sleepers k ms ns,
)

pub count-sleepers_at :
    (k : ℕ) (ms : List TimerNode) (n : TimerNode) (ns : List TimerNode)
    → count k (sleepers (ms ++ (n ∷ ns)))
      ≡ count k (sleepers ms) + (count k (inorder n.root) + count k (sleepers ns))
count-sleepers_at k ms n ns =
    omega (arith, count-sleepers k ms (n ∷ ns), count-append k (inorder n.root) (sleepers ns))

zero_cases : (n : ℕ) → (n ≡ 0) ⊎ (n ≢ 0)
zero_cases zero = inl refl
zero_cases (suc n) = inr (λ e. omega (arith, e))

-- A coroutine waits at its own time only.
pub sleepers-Lacks :
    (times : ℕ → ℕ) (id : ℕ) (ns : List TimerNode)
    → Every (λ n. Agrees times n × (inorder n.root ≢ [])) ns
    → Lacks TimerNode.timeout (times id) ns
    → count id (sleepers ns) ≡ 0
sleepers-Lacks times id [] a l = refl
sleepers-Lacks times id (n ∷ ns) a l = elim (zero_cases (count id (inorder n.root))) [
  | inl z ↦
      omega (
        arith,
        z,
        count-append id (inorder n.root) (sleepers ns),
        sleepers-Lacks times id ns a.1 l.1,
      )
  | inr h ↦ absurd (l.0 (sym (Every-count _ id (inorder n.root) a.0.0.timed h)))
]

-- the nodes around the one that is looked at
pub Timed-around :
    (times : ℕ → ℕ) (at : Focus TimerNode)
    → Timed times (whole at)
    → Every (λ n. Agrees times n × (inorder n.root ≢ [])) (front at)
      × Every (λ n. Agrees times n × (inorder n.root ≢ [])) (at.item ∷ back at)
Timed-around times at t =
    Every-split _ (front at) (at.item ∷ back at) (rw (sym (inorder-put_back at at.item)) t.nodes)

pub erase_at-Timed :
    (times : ℕ → ℕ) (at : Focus TimerNode) → Timed times (whole at) → Timed times (erase_at at)
erase_at-Timed times at t =
    let (f, b) = Timed-around times at t in
    record {
      order = erase_at-Ordered TimerNode.timeout at t.order;
      nodes = rw (inorder-erase_at at) (Every-append _ (front at) (back at) f b.1);
    }

pub put_back-Timed :
    (times : ℕ → ℕ) (at : Focus TimerNode) (n : TimerNode)
    → Timed times (whole at)
    → n.timeout ≡ at.item.timeout
    → Agrees times n
    → inorder n.root ≢ []
    → Timed times (put_back at n)
put_back-Timed times at n t e a h =
    let (f, b) = Timed-around times at t in
    record {
      order = put_back-Ordered TimerNode.timeout at n e t.order;
      nodes = rw (inorder-put_back at n) (Every-append _ (front at) (n ∷ back at) f ((a, h), b.1));
    }

-- a coroutine of the tree waits in the node that its time leads to
sleepers-here :
    (times : ℕ → ℕ) (id : ℕ) (at : Focus TimerNode)
    → Timed times (whole at)
    → times id ≡ at.item.timeout
    → count id (sleepers (inorder (whole at))) ≡ count id (inorder at.item.root)
sleepers-here times id at t e =
    let w = inorder-put_back at at.item in
    let (f, b) = Timed-around times at t in
    let (both, lo, hi, sf, sb) =
      IsSorted-split TimerNode.timeout (front at) at.item (back at) (rw (sym w) t.order.sorted) in
    rw w (
      omega (
        arith,
        count-sleepers_at id (front at) at.item (back at),
        sleepers-Lacks times id (front at) f
            (Every-map _ _ (front at) (λ n h. ground (arith, h, e)) lo),
        sleepers-Lacks times id (back at) b.1
            (Every-map _ _ (back at) (λ n h. ground (arith, h, e)) hi),
      ))

-- The tree once a node has been looked after.
record Settled (times : ℕ → ℕ) (at : Focus TimerNode) (n : TimerNode) (t : Tree TimerNode)
    : Type 0 where
  timed : Timed times t
  counts :
      (k : ℕ)
      → count k (sleepers (inorder t))
        ≡ count k (sleepers (front at)) + (count k (inorder n.root) + count k (sleepers (back at)))

not_nil : {A : Type 0} (xs : List A) (x : A) (ys : List A) → (xs ++ (x ∷ ys)) ≢ []
not_nil [] x ys h = ground (arith, h)
not_nil (y ∷ xs) x ys h = ground (arith, h)

settle_timer_node-Settled :
    (times : ℕ → ℕ) (at : Focus TimerNode) (n : TimerNode) (cache : Memcache)
    → Timed times (whole at)
    → n.timeout ≡ at.item.timeout
    → Agrees times n
    → (r : Tree ℕ) → n.root ≡ r
    → Settled times at n (settle_timer_node at n cache r).0
unfolding settle_timer_node
settle_timer_node-Settled times at n cache t e a leaf q = record {
  timed = erase_at-Timed times at t;
  counts = (λ k.
      let e0 : count k (inorder n.root) ≡ 0 = ap (λ z. count k (inorder z)) q in
      rw (inorder-erase_at at) (omega (arith, e0, count-sleepers k (front at) (back at))));
}
settle_timer_node-Settled times at n cache t e a (node c l x r) q = record {
  timed = put_back-Timed times at n t e a (rw q (not_nil (inorder l) x (inorder r)));
  counts = (λ k. rw (inorder-put_back at n) (count-sleepers_at k (front at) n (back at)));
}

-- The schedule once a coroutine that sleeps has left the tree: of the others, all sleep on.
pub record Removed {F : Type 0} (times : ℕ → ℕ) (sched : Schedule F) (id : ℕ) (after : Schedule F)
    : Type 0 where
  pub inactive : Tree TimerNode
  pub cache : Memcache
  pub shape : after ≡ record sched { inactive = inactive; cache = cache }
  pub timed : Timed times inactive
  pub counts :
      (k : ℕ)
      → one_at k id + count k (sleepers (inorder inactive))
        ≡ count k (sleepers (inorder sched.inactive))

module _ {F : Type 0} where
  abbrev pub times : Schedule F → ℕ → ℕ
  times sched id = (sched.coroutines id).timeout

  remove_from_inactive_tree-found :
      (sched : Schedule F) (id : ℕ) (at : Focus TimerNode)
      → locate TimerNode.timeout (times sched id) sched.inactive top ≡ some at
      → let tm_node = remove_from_timer_node at.item id in
        let r = settle_timer_node at tm_node sched.cache tm_node.root in
        remove_from_inactive_tree sched id ≡ record sched { inactive = r.0; cache = r.1 }
  unfolding find_timer_node remove_from_inactive_tree settle_timer_node
  remove_from_inactive_tree-found sched id at e = rw (remove_from_inactive_tree, e) refl

  pub remove_from_inactive_tree-Removed :
      (sched : Schedule F) (id : ℕ)
      → Timed (times sched) sched.inactive
      → count id (sleepers (inorder sched.inactive)) ≢ 0
      → Removed (times sched) sched id (remove_from_inactive_tree sched id)
  unfolding plug
  remove_from_inactive_tree-Removed sched id t h =
      elim (located TimerNode.timeout (times sched id) sched.inactive top t.order.sorted) [
        | absent e l ↦
            absurd (h (sleepers-Lacks (times sched) id (inorder sched.inactive) t.nodes l))
        | present at e i q ↦
            let tw : Timed (times sched) (whole at) = rw q t in
            let here = sleepers-here (times sched) id at tw i in
            let (f, b) = Timed-around (times sched) at tw in
            let (a, same, counts) =
              remove_from_timer_node-Agrees (times sched) at.item id b.0.0
                (λ z. h (ap (λ u. count id (sleepers (inorder u))) (sym q) ∙ here ∙ z)) in
            let n = remove_from_timer_node at.item id in
            let s =
              settle_timer_node-Settled (times sched) at n sched.cache tw same a n.root refl in
            record {
              inactive = (settle_timer_node at n sched.cache n.root).0;
              cache = (settle_timer_node at n sched.cache n.root).1;
              shape = remove_from_inactive_tree-found sched id at e;
              timed = s.timed;
              counts = (λ k.
                  rw (sym q, inorder-put_back at at.item)
                    (omega (
                      arith,
                      s.counts k,
                      counts k,
                      count-sleepers_at k (front at) at.item (back at),
                    )));
            }
      ]
