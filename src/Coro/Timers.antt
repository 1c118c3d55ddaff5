-- ===== src/Coro/Timers.antt =====
-- src/coro/sched.c: the tree of timer nodes, each with a tree of coroutines.
use cserv.Prelude.{ℕ, Option, none, some, ◌==◌, if◌then◌else◌}
use cserv.Util.Rbtree.Tree.{Tree, leaf, node, Ancestors, top, left_of, right_of, plug}
use cserv.Util.Rbtree.Insert.{rb_link_node, rb_insert_color}
use cserv.Util.Memcache.Defs.{Memcache, memcache_alloc, memcache_free}
use cserv.Coro.Search.{Focus, locate, descend, erase_at}
use cserv.Coro.State.{TimerNode, Schedule, narrow, is_negative}

-- the key of a coroutine in the tree of a timer node
abbrev pub coro_id : ℕ → ℕ
coro_id id = id

unfoldable pub find_in_timer : TimerNode → ℕ → Option (Focus ℕ)
find_in_timer tm_node id = locate coro_id id tm_node.root top

unfoldable pub remove_from_timer_node : TimerNode → ℕ → TimerNode
unfolding find_in_timer
remove_from_timer_node tm_node id = elim (find_in_timer tm_node id) [
  | none ↦ tm_node
  | some at ↦ record tm_node { root = erase_at at }
]

unfoldable pub find_timer_node : Tree TimerNode → ℕ → Option (Focus TimerNode)
find_timer_node inactive timeout = locate TimerNode.timeout timeout inactive top

-- the tree whose node has changed
abbrev pub put_back : {A : Type 0} → Focus A → A → Tree A
put_back at item = plug at.path (node at.color at.left item at.right)

-- `RB_EMPTY_ROOT`, for a timer node that was found: one without coroutines leaves the tree.
unfoldable pub settle_timer_node :
    Focus TimerNode → TimerNode → Memcache → Tree ℕ → Tree TimerNode × Memcache
settle_timer_node at tm_node cache leaf = (erase_at at, memcache_free cache tm_node.address)
settle_timer_node at tm_node cache (node _ _ _ _) = (put_back at tm_node, cache)

module _ {F : Type 0} where
  unfoldable pub remove_from_inactive_tree : Schedule F → ℕ → Schedule F
  unfolding find_timer_node remove_from_timer_node settle_timer_node
  remove_from_inactive_tree sched id =
      elim (find_timer_node sched.inactive (sched.coroutines id).timeout) [
        | none ↦ sched
        | some at ↦
            let tm_node = remove_from_timer_node at.item id in
            let (inactive, cache) = settle_timer_node at tm_node sched.cache tm_node.root in
            record sched { inactive = inactive; cache = cache }
      ]

unfoldable pub add_to_timer_node : TimerNode → ℕ → TimerNode
unfolding descend
add_to_timer_node tm_node id = record tm_node {
  root = rb_insert_color (rb_link_node id) (descend coro_id id tm_node.root top);
}

-- where the loop of `move_to_inactive_tree` ends: at a timer node, or at a place for one
pub data Place : Type 0 where
  found : Focus TimerNode → Place
  vacant : Ancestors TimerNode → Place

-- the loop, by the narrowed difference
unfoldable pub find_place : ℕ → Tree TimerNode → Ancestors TimerNode → Place
unfolding narrow is_negative
find_place timeout leaf p = vacant p
find_place timeout (node c l tm_node r) p =
    let to_left = find_place timeout l (left_of c tm_node r p) in
    let to_right = find_place timeout r (right_of c l tm_node p) in
    let timespan = narrow timeout tm_node.timeout in
    if is_negative timespan
    then to_left
    else if timespan == 0
    then found (record { color = c; left = l; item = tm_node; right = r; path = p })
    else to_right

module _ {F : Type 0} where
  -- A new timer node is allocated at an address or, with `none`, not at all: then the coroutine,
  -- which is in no list, stays in none.
  unfoldable pub add_timer_node :
      Option ℕ × Memcache → ℕ → ℕ → Ancestors TimerNode → Schedule F → Schedule F
  unfolding add_to_timer_node
  add_timer_node (none, cache) timeout id p sched = record sched { cache = cache }
  add_timer_node (some address, cache) timeout id p sched =
      let tmp =
        add_to_timer_node (record { address = address; root = leaf; timeout = timeout }) id in
      record sched { cache = cache; inactive = rb_insert_color (rb_link_node tmp) p }

  -- `malloc` is what the system answers, should the cache ask for memory.
  unfoldable pub move_to_inactive_tree : Option ℕ → Schedule F → ℕ → Schedule F
  unfolding find_place add_to_timer_node add_timer_node
  move_to_inactive_tree malloc sched id =
      let timeout = (sched.coroutines id).timeout in
      elim (find_place timeout sched.inactive top) [
        | found at ↦ record sched { inactive = put_back at (add_to_timer_node at.item id) }
        | vacant p ↦ add_timer_node (memcache_alloc malloc sched.cache) timeout id p sched
      ]
