-- ===== src/Coro/Invariant.antt =====
-- The invariant of src/coro/sched.c: every coroutine stands in exactly one place.
use cserv.Prelude.{
  ℕ, ◌+◌, ◌≤◌, ◌≡◌, ◌≢◌, ap, ◌∙◌, arith, List, [], ◌∷◌, leb, ◌==◌, if◌then◌else◌, count,
  count-append, count_zero-Every, Every,
}
use cserv.Util.Rbtree.Tree.{Tree}
use cserv.Util.Rbtree.Order.{inorder}
use cserv.Coro.State.{TimerNode, Coroutine, Current, no_coro, running, Schedule, write}
use cserv.Coro.TimerNodes.{Agrees}
use cserv.Coro.TimerTree.{sleepers, Timed, times}

-- 1 for the coroutines that have been created, by the last id
abbrev pub created_once : ℕ → ℕ → ℕ
created_once next k = if k == 0 then 0 else if leb k next then 1 else 0

abbrev pub current_list : Current → List ℕ
current_list no_coro = []
current_list (running id) = id ∷ []

module _ {F : Type 0} where
  abbrev pub sleeping : Schedule F → List ℕ
  sleeping sched = sleepers (inorder sched.inactive)

  -- in how many places a coroutine stands: idle, active, asleep or current
  abbrev pub places : Schedule F → ℕ → ℕ
  places sched k =
      count k sched.idle
      + count k sched.active
      + count k (sleeping sched)
      + count k (current_list sched.current)

-- The schedule is in order, but for the coroutines in `extra`, which stand nowhere.
pub record Holds {F : Type 0} (extra : List ℕ) (sched : Schedule F) : Type 0 where
  pub timed : Timed (times sched) sched.inactive
  pub once : (k : ℕ) → places sched k + count k extra ≡ created_once sched.next_coro_id k
  pub counted : sched.curr_coro_size ≡ sched.next_coro_id
  pub bounded : sched.curr_coro_size ≤ sched.max_coro_size

created_once-le : (next k : ℕ) → created_once next k ≤ 1
created_once-le next k = ground arith

nodes-elsewhere :
    (ts us : ℕ → ℕ) (id : ℕ) (ns : List TimerNode)
    → ((k : ℕ) → k ≢ id → us k ≡ ts k)
    → count id (sleepers ns) ≡ 0
    → Every (λ n. Agrees ts n × (inorder n.root ≢ [])) ns
    → Every (λ n. Agrees us n × (inorder n.root ≢ [])) ns
nodes-elsewhere ts us id [] e z a = tt
nodes-elsewhere ts us id (n ∷ ns) e z a =
    let apart = count-append id (inorder n.root) (sleepers ns) in
    let lacks : Every (λ x. x ≢ id) (inorder n.root) =
      count_zero-Every id (inorder n.root) (omega (arith, apart, z)) in
    (
      (
        record {
          order = a.0.0.order;
          timed = both-Every ts us n.timeout (inorder n.root) (λ k h. e k h) lacks a.0.0.timed;
        },
        a.0.1,
      ),
      nodes-elsewhere ts us id ns e (omega (arith, apart, z)) a.1,
    )
  where
    both-Every :
        (ts us : ℕ → ℕ) (m : ℕ) (xs : List ℕ)
        → ((k : ℕ) → k ≢ id → us k ≡ ts k)
        → Every (λ x. x ≢ id) xs
        → Every (λ x. ts x ≡ m) xs
        → Every (λ x. us x ≡ m) xs
    both-Every ts us m [] e l t = tt
    both-Every ts us m (x ∷ xs) e l t = (e x l.0 ∙ t.0, both-Every ts us m xs e l.1 t.1)

-- The times of coroutines that do not sleep do not matter.
pub Timed-elsewhere :
    (ts us : ℕ → ℕ) (id : ℕ) (t : Tree TimerNode)
    → ((k : ℕ) → k ≢ id → us k ≡ ts k)
    → count id (sleepers (inorder t)) ≡ 0
    → Timed ts t
    → Timed us t
Timed-elsewhere ts us id t e z v = record {
  order = v.order;
  nodes = nodes-elsewhere ts us id (inorder t) e z v.nodes;
}

module _ {F : Type 0} where
  pub times-write :
      (cs : ℕ → Coroutine F) (id : ℕ) (c : Coroutine F) (k : ℕ)
      → k ≢ id
      → (write cs id c k).timeout ≡ (cs k).timeout
  unfolding write
  times-write cs id c k h = ground (arith, h)

  pub write_self : (cs : ℕ → Coroutine F) (id : ℕ) (c : Coroutine F) → write cs id c id ≡ c
  unfolding write
  write_self cs id c = ground arith

  -- a write to a coroutine that stands nowhere, or at least not in the timers
  pub Holds-write :
      (extra : List ℕ) (sched : Schedule F) (id : ℕ) (c : Coroutine F)
      → count id (sleeping sched) ≡ 0
      → Holds extra sched
      → Holds extra (record sched { coroutines = write sched.coroutines id c })
  Holds-write extra sched id c z v = record {
    timed =
        Timed-elsewhere (times sched) _ id sched.inactive (times-write sched.coroutines id c) z
          v.timed;
    once = v.once;
    counted = v.counted;
    bounded = v.bounded;
  }

  pub Holds-extra :
      (id : ℕ) (sched : Schedule F) → Holds (id ∷ []) sched → count id (sleeping sched) ≡ 0
  Holds-extra id sched v = ground (arith, v.once id, created_once-le sched.next_coro_id id)

  pub Holds-current :
      (id : ℕ) (sched : Schedule F)
      → sched.current ≡ running id
      → Holds [] sched
      → count id (sleeping sched) ≡ 0
  Holds-current id sched e v =
      let c : count id (current_list sched.current) ≡ 1 =
        ap (λ z. count id (current_list z)) e ∙ ground arith in
      omega (arith, v.once id, created_once-le sched.next_coro_id id, c)
