-- ===== src/Tests/Coro.antt =====
-- Runs of the red-black tree and of the scheduler.
use cserv.Prelude.{ℕ, ◌+◌, ◌≡◌, refl, arith, true, false, Option, none, some, [], ◌∷◌, ◌++◌}
use cserv.Util.Rbtree.Tree.{red, black, Tree, leaf, node, Ancestors, top, right_of, plug}
use cserv.Util.Rbtree.Insert.{rb_link_node, rb_insert_color}
use cserv.Util.Rbtree.Erase.{rb_erase}
use cserv.Util.Rbtree.Order.{inorder, before, after, rb_insert_color-inorder}
use cserv.Util.Rbtree.OrderErase.{rb_erase-inorder}
use cserv.Util.Rbtree.Colors.{IsValid}
use cserv.Util.Rbtree.Valid.{rb_insert_color-IsValid, rb_erase-IsValid}
use cserv.Util.Memcache.Defs.{
  Memcache, memcache_alloc, memcache_create, fill, add_element, alloc_from,
}
use cserv.Coro.State.{Coroutine, no_coro, running, Schedule}
use cserv.Coro.Sched.{
  dispatch_coro, run_next, schedule_init, schedule_timeout, check_timeout_coroutine,
}
use cserv.Coro.TimerTree.{Timed, times}
use cserv.Coro.Expiry.{Checked}
use cserv.Coro.Check.{check_timeout_coroutine-Checked}
use cserv.Coro.Invariant.{Holds}
use cserv.Coro.Reachable.{dispatches, runs, sleeps, Reachable, starts, steps, Reachable-Holds}
use cserv.Coro.Lost.{schedule_timeout-lost}

-- the tree of 1, 2 and 3 with red leaves; the place of 4
abbrev place_of_4 : Ancestors ℕ
place_of_4 = right_of red leaf 3 (right_of black (node red leaf 1 leaf) 2 top)

abbrev three : Tree ℕ
three = node black (node red leaf 1 leaf) 2 (node red leaf 3 leaf)

three-IsValid : IsValid three
three-IsValid = record {
  root = refl;
  alternates = ground arith;
  height = 1;
  balanced = ground arith;
}

three-plugged :
    IsValid {A = ℕ} (plug top (node black (node red leaf 1 leaf) 2 (node red leaf 3 leaf)))
unfolding plug
three-plugged = three-IsValid

rb_insert_color-IsValid_example : IsValid (rb_insert_color (rb_link_node 4) place_of_4)
rb_insert_color-IsValid_example =
    rb_insert_color-IsValid 4 place_of_4 (unfold plug in three-IsValid)

rb_insert_color-inorder_example :
    inorder (rb_insert_color (rb_link_node 4) place_of_4)
    ≡ before place_of_4 ++ (4 ∷ after place_of_4)
rb_insert_color-inorder_example = rb_insert_color-inorder 4 place_of_4

rb_erase-IsValid_example :
    IsValid {A = ℕ} (rb_erase black (node red leaf 1 leaf) 2 (node red leaf 3 leaf) top)
rb_erase-IsValid_example =
    rb_erase-IsValid {A = ℕ} black (node red leaf 1 leaf) 2 (node red leaf 3 leaf) top three-plugged

rb_erase-inorder_example :
    (inorder (plug top (node black (node red leaf 1 leaf) 2 (node red leaf 3 leaf)))
      ≡ (before {A = ℕ} top ++ inorder (node red leaf 1 leaf))
        ++ (2 ∷ (inorder (node red leaf 3 leaf) ++ after {A = ℕ} top)))
    × (inorder (rb_erase black (node red leaf 1 leaf) 2 (node red leaf 3 leaf) top)
        ≡ (before {A = ℕ} top ++ inorder (node red leaf 1 leaf))
          ++ (inorder (node red leaf 3 leaf) ++ after {A = ℕ} top))
rb_erase-inorder_example =
    rb_erase-inorder black (node red leaf 1 leaf) 2 (node red leaf 3 leaf) top

-- a schedule as `schedule_init` leaves it
abbrev blank : ℕ → Coroutine ℕ
blank k = record { timeout = 0; active_by_timeout = false; task = 0 }

abbrev empty_cache : Memcache
empty_cache = record { elements = []; cache_size = 2; freed = [] }

abbrev fresh : Schedule ℕ
fresh = record {
  max_coro_size = 4;
  curr_coro_size = 0;
  next_coro_id = 0;
  stack_bytes = 16384;
  current = no_coro;
  idle = [];
  active = [];
  inactive = leaf;
  cache = empty_cache;
  coroutines = blank;
}

abbrev memory : ℕ → Option ℕ
memory k = some (k + 100)

fresh_init : schedule_init memory 16 4 blank ≡ some fresh
unfolding schedule_init memcache_create fill add_element
fresh_init = refl

-- a coroutine is dispatched, runs, and goes to sleep for 200 ms at 100
abbrev dispatched : Schedule ℕ
dispatched = (dispatch_coro true true 7 fresh).1

abbrev run : Schedule ℕ
run = record dispatched { active = []; current = running 1 }

abbrev asleep : Schedule ℕ
asleep = schedule_timeout (some 55) 100 200 run 1

run_next-run : run_next dispatched ≡ some run
unfolding run_next dispatch_coro
run_next-run = refl

asleep-Reachable : Reachable fresh asleep
asleep-Reachable =
    steps run asleep
      (steps dispatched run (steps fresh dispatched starts (dispatches true true 7))
        (runs run (unfold dispatch_coro in refl) run_next-run))
      (sleeps (some 55) 100 200 1 55 empty_cache refl (unfold dispatch_coro in tt)
        (unfold dispatch_coro memcache_alloc alloc_from in refl))

Reachable-Holds_example : Holds [] asleep
Reachable-Holds_example = Reachable-Holds memory 16 4 blank fresh asleep fresh_init asleep-Reachable

asleep-Timed : Timed (times asleep) asleep.inactive
asleep-Timed = (Reachable-Holds memory 16 4 blank fresh asleep fresh_init asleep-Reachable).timed

check_timeout_coroutine-Checked_example : Checked 300 asleep (check_timeout_coroutine 300 asleep)
check_timeout_coroutine-Checked_example = check_timeout_coroutine-Checked 300 asleep asleep-Timed

run-Holds : Holds [] run
run-Holds = Reachable-Holds memory 16 4 blank fresh run fresh_init (
    steps dispatched run (steps fresh dispatched starts (dispatches true true 7))
      (runs run (unfold dispatch_coro in refl) run_next-run))

schedule_timeout-lost_example : Holds (1 ∷ []) (schedule_timeout none 100 200 run 1)
schedule_timeout-lost_example =
    schedule_timeout-lost none 100 200 run 1 empty_cache refl (unfold dispatch_coro in tt)
      (unfold dispatch_coro in tt) (unfold dispatch_coro memcache_alloc alloc_from in refl)
      run-Holds
