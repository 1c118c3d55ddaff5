-- ===== src/Coro/Expiry.antt =====
-- `check_timeout_coroutine` (src/coro/sched.c) wakes the coroutines whose time has come.
use mathlib.Core.List.{append-nil}
use mathlib.Core.Option.{map}
use cserv.Prelude.{
  ℕ, zero, suc, ◌≡◌, refl, sym, ap, ◌∙◌, arith, true, false, Option, none, some, List, [], ◌∷◌,
  ◌++◌, ltb, if◌then◌else◌, count, Every-map,
}
use cserv.Util.Rbtree.Tree.{Color, Tree, leaf, node, Ancestors, top, left_of, plug, rb_first}
use cserv.Util.Rbtree.Order.{inorder}
use cserv.Util.Rbtree.OrderErase.{inorder-leftmost}
use cserv.Util.Rbtree.Erase.{leftmost}
use cserv.Util.Memcache.Defs.{Memcache}
use cserv.Coro.Search.{Focus, erase_at}
use cserv.Coro.SearchLaws.{Above}
use cserv.Coro.State.{TimerNode, Coroutine, Schedule}
use cserv.Coro.Sched.{timeout_coroutine_handler, get_recent_timer_node, free_timer_node, check_loop}
use cserv.Coro.Ordered.{whole, front}
use cserv.Coro.TimerTree.{sleepers, Timed, times}
use cserv.Coro.Handler.{mark_unless}

-- the timer nodes whose time has come, and those whose time has not
abbrev pub expired : ℕ → List TimerNode → List TimerNode
expired now [] = []
expired now (n ∷ ns) = if ltb now n.timeout then expired now ns else n ∷ expired now ns

abbrev pub pending : ℕ → List TimerNode → List TimerNode
pending now [] = []
pending now (n ∷ ns) = if ltb now n.timeout then n ∷ pending now ns else pending now ns

all-pending :
    (now : ℕ) (ns : List TimerNode)
    → Above TimerNode.timeout now ns
    → (pending now ns ≡ ns) × (expired now ns ≡ [])
all-pending now [] a = (refl, refl)
all-pending now (n ∷ ns) a =
    let (p, e) = all-pending now ns a.1 in (ground (arith, a.0, p), ground (arith, a.0, e))

plug-leftmost :
    {A : Type 0} (c : Color) (l : Tree A) (x : A) (r : Tree A) (p : Ancestors A)
    → let first = leftmost c l x r p in
      plug first.spine (node first.color leaf first.item first.child) ≡ plug p (node c l x r)
unfolding leftmost plug
plug-leftmost c leaf x r p = refl
plug-leftmost c (node d ll y lr) x r p = plug-leftmost d ll y lr (left_of c x r p)

-- what `get_recent_timer_node` says of the tree
pub data Recent (t : Tree TimerNode) : Type 0 where
  no_timer : get_recent_timer_node t ≡ none → inorder t ≡ [] → Recent t
  first :
      (at : Focus TimerNode)
      → get_recent_timer_node t ≡ some at
      → whole at ≡ t
      → front at ≡ []
      → Recent t

pub recent : (t : Tree TimerNode) → Recent t
unfolding get_recent_timer_node
recent leaf = no_timer refl refl
recent (node c l x r) =
    first _ refl (plug-leftmost c l x r top ∙ unfold plug in refl)
      (ap (λ w. w ++ []) (inorder-leftmost c l x r top).0)

rb_first-leftmost :
    {A : Type 0} (c : Color) (l : Tree A) (x : A) (r : Tree A) (p : Ancestors A)
    → rb_first (node c l x r) ≡ some (leftmost c l x r p).item
unfolding rb_first leftmost
rb_first-leftmost c leaf x r p = refl
rb_first-leftmost c (node d ll y lr) x r p = rb_first-leftmost d ll y lr (left_of c x r p)

-- It is the node that `rb_first` answers.
get_recent_timer_node-rb_first :
    (t : Tree TimerNode) → rb_first t ≡ map Focus.item (get_recent_timer_node t)
unfolding get_recent_timer_node
get_recent_timer_node-rb_first leaf = unfold rb_first in refl
get_recent_timer_node-rb_first (node c l x r) = rb_first-leftmost c l x r top

-- The times matter one by one.
pub Timed-times :
    (ts us : ℕ → ℕ) (t : Tree TimerNode) → ((k : ℕ) → ts k ≡ us k) → Timed ts t → Timed us t
Timed-times ts us t e v = record {
  order = v.order;
  nodes =
      Every-map _ _ (inorder t)
        (λ n a. (
          record {
            order = a.0.order;
            timed = Every-map _ _ (inorder n.root) (λ id h. sym (e id) ∙ h) a.0.timed;
          },
          a.1,
        ))
        v.nodes;
}

pub timeout-mark_unless :
    {F : Type 0} (n : ℕ) (c : Coroutine F) → (mark_unless n c).timeout ≡ c.timeout
timeout-mark_unless zero c = refl
timeout-mark_unless (suc n) c = refl

-- What the loop makes of the schedule: the pending timers stay, and the coroutines of the expired
-- ones, in some order, are appended behind what the active list held, and marked.
pub record Checked {F : Type 0} (now : ℕ) (sched : Schedule F) (result : Option (Schedule F))
    : Type 0 where
  pub inactive : Tree TimerNode
  pub active : List ℕ
  pub cache : Memcache
  pub coroutines : ℕ → Coroutine F
  pub shape :
      result
      ≡ some (record sched {
        inactive = inactive;
        active = active;
        cache = cache;
        coroutines = coroutines;
      })
  pub timed : Timed (times sched) inactive
  pub rest : inorder inactive ≡ pending now (inorder sched.inactive)
  pub woke : List ℕ
  pub appended : active ≡ sched.active ++ woke
  pub counts : (k : ℕ) → count k woke ≡ count k (sleepers (expired now (inorder sched.inactive)))
  pub woken :
      (k : ℕ)
      → coroutines k
        ≡ mark_unless
            (count k (sleepers (expired now (inorder sched.inactive))))
            (sched.coroutines k)

module _ {F : Type 0} where
  -- nothing has expired
  pub idle-Checked :
      (now : ℕ) (sched : Schedule F) (result : Option (Schedule F))
      → Timed (times sched) sched.inactive
      → result ≡ some sched
      → Above TimerNode.timeout now (inorder sched.inactive)
      → Checked now sched result
  idle-Checked now sched result t e a =
      let (p, x) = all-pending now (inorder sched.inactive) a in
      record {
        inactive = sched.inactive;
        active = sched.active;
        cache = sched.cache;
        coroutines = sched.coroutines;
        shape = e;
        timed = t;
        rest = sym p;
        woke = [];
        appended = sym (append-nil sched.active);
        counts = (λ k. rw x refl);
        woken = (λ k. rw x refl);
      }

  pub check_loop-none :
      (n now : ℕ) (sched : Schedule F)
      → get_recent_timer_node sched.inactive ≡ none
      → check_loop (suc n) now sched ≡ some sched
  unfolding check_loop
  check_loop-none n now sched e = rw (check_loop, e) refl

  pub check_loop-pending :
      (n now : ℕ) (sched : Schedule F) (at : Focus TimerNode)
      → get_recent_timer_node sched.inactive ≡ some at
      → ltb now at.item.timeout ≡ true
      → check_loop (suc n) now sched ≡ some sched
  unfolding check_loop
  check_loop-pending n now sched at e h = rw (check_loop, e, h) refl

  pub check_loop-expired :
      (n now : ℕ) (sched handled : Schedule F) (at : Focus TimerNode)
      → get_recent_timer_node sched.inactive ≡ some at
      → ltb now at.item.timeout ≡ false
      → timeout_coroutine_handler at.item (record sched { inactive = erase_at at }) ≡ some handled
      → check_loop (suc n) now sched ≡ check_loop n now (free_timer_node at.item.address handled)
  unfolding check_loop
  check_loop-expired n now sched handled at e h g = rw (check_loop, e, h, g) refl
