-- ===== src/Coro/Sched.antt =====
-- The functions of src/coro/sched.c that move coroutines between the lists and the timers. The
-- switch of stacks is machine code: a switch is the change of `current`.
use cserv.Prelude.{
  ℕ, zero, suc, ◌+◌, ◌*◌, ◌/◌, Bool, true, false, Option, none, some, List, [], ◌∷◌, ◌++◌, ltb,
  ◌==◌, if◌then◌else◌, length,
}
use cserv.Util.Rbtree.Tree.{Tree, leaf, node, top}
use cserv.Util.Rbtree.Erase.{rb_erase, leftmost}
use cserv.Util.Rbtree.Order.{inorder}
use cserv.Util.Memcache.Defs.{memcache_free, memcache_create, Created, created, failed, aborted}
use cserv.Coro.Search.{Focus, erase_at}
use cserv.Coro.State.{TimerNode, Coroutine, no_coro, running, Schedule, narrow, is_negative, write}
use cserv.Coro.Timers.{remove_from_inactive_tree, move_to_inactive_tree}

module _ {F : Type 0} where
  unfoldable pub move_to_idle_list_direct : Schedule F → ℕ → Schedule F
  move_to_idle_list_direct sched id = record sched { idle = sched.idle ++ (id ∷ []) }

  unfoldable pub move_to_active_list_tail_direct : Schedule F → ℕ → Schedule F
  move_to_active_list_tail_direct sched id = record sched { active = sched.active ++ (id ∷ []) }

  unfoldable pub move_to_active_list_tail : Schedule F → ℕ → Schedule F
  unfolding move_to_active_list_tail_direct
  move_to_active_list_tail sched id =
      move_to_active_list_tail_direct (remove_from_inactive_tree sched id) id

  unfoldable pub move_to_active_list_head : Schedule F → ℕ → Schedule F
  move_to_active_list_head sched id =
      let removed = remove_from_inactive_tree sched id in
      record removed { active = id ∷ removed.active }

  unfoldable pub coroutine_init : Coroutine F → Coroutine F
  coroutine_init c = record c { timeout = 0; active_by_timeout = false }

  unfoldable pub init_at : Schedule F → ℕ → Schedule F
  unfolding write coroutine_init
  init_at sched id = record sched {
    coroutines = write sched.coroutines id (coroutine_init (sched.coroutines id));
  }

  -- `memory` says whether `malloc` gives memory, and `stack` whether `coro_stack_alloc` does.
  unfoldable pub create_coroutine : Bool → Bool → Schedule F → Option ℕ × Schedule F
  create_coroutine memory stack sched =
      if sched.curr_coro_size == sched.max_coro_size
      then (none, sched)
      else if memory
      then if stack
        then (
          some (sched.next_coro_id + 1),
          record sched {
            next_coro_id = sched.next_coro_id + 1;
            curr_coro_size = sched.curr_coro_size + 1;
          },
        )
        else (none, sched)
      else (none, sched)

  -- what `get_coroutine` makes of the new coroutine
  unfoldable pub init_created : Option ℕ × Schedule F → Option ℕ × Schedule F
  unfolding init_at
  init_created (none, sched) = (none, sched)
  init_created (some id, sched) = (some id, init_at sched id)

  -- `get_coroutine`, by the list of idle coroutines
  unfoldable pub get_from : Bool → Bool → Schedule F → List ℕ → Option ℕ × Schedule F
  unfolding init_at create_coroutine init_created
  get_from memory stack sched [] = init_created (create_coroutine memory stack sched)
  get_from memory stack sched (id ∷ rest) = (some id, init_at (record sched { idle = rest }) id)

  unfoldable pub get_coroutine : Bool → Bool → Schedule F → Option ℕ × Schedule F
  unfolding get_from
  get_coroutine memory stack sched = get_from memory stack sched sched.idle

  -- what `dispatch_coro` makes of the coroutine: 0 is `true`, -1 is `false`
  unfoldable pub start : F → Option ℕ × Schedule F → Bool × Schedule F
  unfolding write move_to_active_list_tail_direct
  start task (none, sched) = (false, sched)
  start task (some id, sched) = (
    true,
    move_to_active_list_tail_direct
        (record sched {
          coroutines = write sched.coroutines id (record (sched.coroutines id) { task = task });
        })
        id,
  )

  unfoldable pub dispatch_coro : Bool → Bool → F → Schedule F → Bool × Schedule F
  unfolding get_coroutine start
  dispatch_coro memory stack task sched = start task (get_coroutine memory stack sched)

  -- `get_active_coroutine`, by the list of active coroutines
  unfoldable pub active_from : Schedule F → List ℕ → Option ℕ × Schedule F
  active_from sched [] = (none, sched)
  active_from sched (id ∷ rest) = (some id, record sched { active = rest })

  unfoldable pub get_active_coroutine : Schedule F → Option ℕ × Schedule F
  unfolding active_from
  get_active_coroutine sched = active_from sched sched.active

  -- `coroutine_switch(&sched.main_coro, coro)`, a round of `run_active_coroutine`
  unfoldable pub switch_to : Option ℕ × Schedule F → Option (Schedule F)
  switch_to (none, sched) = none
  switch_to (some id, sched) = some (record sched { current = running id })

  unfoldable pub run_next : Schedule F → Option (Schedule F)
  unfolding get_active_coroutine switch_to
  run_next sched = switch_to (get_active_coroutine sched)

  -- `coroutine_switch(sched.current, &sched.main_coro)`
  unfoldable pub switch_back : Schedule F → Schedule F
  switch_back sched = record sched { current = no_coro }

  -- the end of `coro_routine_proxy`, once the task of the coroutine has returned
  unfoldable pub finish : Schedule F → ℕ → Schedule F
  unfolding move_to_idle_list_direct switch_back
  finish sched id = switch_back (move_to_idle_list_direct sched id)

  -- `coro->active_by_timeout = b`
  unfoldable pub set_by_timeout : Schedule F → ℕ → Bool → Schedule F
  unfolding write
  set_by_timeout sched id b = record sched {
    coroutines = write sched.coroutines id (record (sched.coroutines id) { active_by_timeout = b });
  }

  -- `schedule_timeout` of the current coroutine, at the time `now`. The callers pass numbers of
  -- milliseconds that are not negative.
  unfoldable pub schedule_timeout : Option ℕ → ℕ → ℕ → Schedule F → ℕ → Schedule F
  unfolding write switch_back
  schedule_timeout malloc now milliseconds sched id = switch_back (
      move_to_inactive_tree malloc
        (record sched {
          coroutines =
              write sched.coroutines id
                (record (sched.coroutines id) { timeout = now + milliseconds });
        })
        id)

  unfoldable pub is_wakeup_by_timeout : Schedule F → ℕ → Bool × Schedule F
  unfolding set_by_timeout
  is_wakeup_by_timeout sched id =
      ((sched.coroutines id).active_by_timeout, set_by_timeout sched id false)

  unfoldable pub wakeup_coro : Schedule F → ℕ → Schedule F
  unfolding set_by_timeout move_to_active_list_tail
  wakeup_coro sched id = move_to_active_list_tail (set_by_timeout sched id false) id

  unfoldable pub wakeup_coro_priority : Schedule F → ℕ → Schedule F
  unfolding set_by_timeout move_to_active_list_head
  wakeup_coro_priority sched id = move_to_active_list_head (set_by_timeout sched id false) id

  -- The loop of `timeout_coroutine_handler`: each coroutine of the timer node becomes active, the one
  -- at the root of the tree first. `none` says that the fuel has run out.
  unfoldable pub handler_loop : ℕ → Tree ℕ → Schedule F → Option (Schedule F)
  unfolding set_by_timeout move_to_active_list_tail_direct
  handler_loop n leaf sched = some sched
  handler_loop zero (node c l id r) sched = none
  handler_loop (suc n) (node c l id r) sched =
      handler_loop n (rb_erase c l id r top)
        (move_to_active_list_tail_direct (set_by_timeout sched id true) id)

  unfoldable pub timeout_coroutine_handler : TimerNode → Schedule F → Option (Schedule F)
  unfolding handler_loop
  timeout_coroutine_handler tm_node sched =
      handler_loop (length (inorder tm_node.root)) tm_node.root sched

-- `get_recent_timer_node`: what `rb_first` finds, with its ancestors
unfoldable pub get_recent_timer_node : Tree TimerNode → Option (Focus TimerNode)
get_recent_timer_node leaf = none
get_recent_timer_node (node c l tm_node r) =
    let first = leftmost c l tm_node r top in
    some (record {
      color = first.color;
      left = leaf;
      item = first.item;
      right = first.child;
      path = first.spine;
    })

module _ {F : Type 0} where
  -- `memcache_free(sched.cache, node)`, when the coroutines of the node have been handled
  unfoldable pub free_timer_node : ℕ → Schedule F → Schedule F
  free_timer_node address sched = record sched { cache = memcache_free sched.cache address }

  -- The loop of `check_timeout_coroutine`: `none` says that the fuel has run out.
  unfoldable pub check_loop : ℕ → ℕ → Schedule F → Option (Schedule F)
  unfolding get_recent_timer_node timeout_coroutine_handler free_timer_node
  check_loop zero now sched = none
  check_loop (suc n) now sched = elim (get_recent_timer_node sched.inactive) [
    | none ↦ some sched
    | some at ↦
        if ltb now at.item.timeout
        then some sched
        else elim (timeout_coroutine_handler at.item (record sched { inactive = erase_at at })) [
          | none ↦ none
          | some handled ↦ check_loop n now (free_timer_node at.item.address handled)
        ]
  ]

  unfoldable pub check_timeout_coroutine : ℕ → Schedule F → Option (Schedule F)
  unfolding check_loop
  check_timeout_coroutine now sched = check_loop (suc (length (inorder sched.inactive))) now sched

  unfoldable pub get_recent_timespan : ℕ → Schedule F → ℕ
  unfolding get_recent_timer_node narrow is_negative
  get_recent_timespan now sched = elim (get_recent_timer_node sched.inactive) [
    | none ↦ 10 * 1000
    | some at ↦
        let timespan = narrow at.item.timeout now in if is_negative timespan then 0 else timespan
  ]

  -- the fields that `schedule_init` sets, by what the cache is
  unfoldable pub init_with : ℕ → ℕ → (ℕ → Coroutine F) → Created → Option (Schedule F)
  init_with stack_kbytes max_coro_size coroutines (failed _) = none
  init_with stack_kbytes max_coro_size coroutines aborted = none
  init_with stack_kbytes max_coro_size coroutines (created cache) = some (record {
    max_coro_size = max_coro_size;
    curr_coro_size = 0;
    next_coro_id = 0;
    stack_bytes = stack_kbytes * 1024;
    current = no_coro;
    idle = [];
    active = [];
    inactive = leaf;
    cache = cache;
    coroutines = coroutines;
  })

  -- `none` says that the program ends: an assertion fails, its own or that of `memcache_create`, or
  -- the cache cannot be created.
  unfoldable pub schedule_init : (ℕ → Option ℕ) → ℕ → ℕ → (ℕ → Coroutine F) → Option (Schedule F)
  unfolding init_with
  schedule_init malloc stack_kbytes max_coro_size coroutines =
      if ltb max_coro_size 2
      then none
      else init_with stack_kbytes max_coro_size coroutines
          (memcache_create malloc (max_coro_size / 2))
