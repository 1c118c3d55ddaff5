-- ===== src/Tests/Shm.antt =====
-- Runs of the ticket lock and of the allocator of shared memory.
use cserv.Prelude.{◌≡◌, ◌≢◌, refl, arith, some, [], ◌∷◌, Every}
use cserv.Util.Shm.Spinlock.{
  increment, take_ticket, see_ticket, try_ticket, waiting, trying, inside, System, set_thread,
  takes, reads, wins, Reachable, starts, steps, idle_system,
}
use cserv.Util.Shm.Exclusion.{Reachable-exclusive}
use cserv.Util.Shm.Alloc.{Shm, shm_init, round_up, blocks, Apart, Inside, IsValid, blocks-Apart}

-- thread 3 goes in by `spin_trylock`, and thread 5 takes a ticket and waits
abbrev seen : System
seen = record {
  lock = idle_system.lock;
  threads = set_thread idle_system.threads 3 (trying (see_ticket idle_system.lock));
}

abbrev won : System
won = record {
  lock = record { start = 0; ticket = 1 };
  threads = set_thread seen.threads 3 (inside 0);
}

abbrev entered : System
entered = record { lock = (take_ticket won.lock).1; threads = set_thread won.threads 5 (waiting 1) }

entered-Reachable : Reachable entered
unfolding take_ticket set_thread increment see_ticket try_ticket
entered-Reachable =
    steps won entered
      (steps seen won (steps idle_system seen starts (reads 3 refl))
        (wins 3 0 _ refl refl (λ k e. ground (arith, e))))
      (takes 5 refl (λ e. ground (arith, e)) (λ k e. ground (arith, e)))

entered-inside : entered.threads 3 ≡ inside 0
unfolding set_thread
entered-inside = refl

Reachable-exclusive_example : entered.threads 5 ≢ inside 0
Reachable-exclusive_example =
    Reachable-exclusive entered 3 5 0 0 entered-Reachable (λ e. ground (arith, e)) entered-inside

-- a page with room for three words
abbrev page : Shm
page = record { addr = 4096; size = 120; offset = 96 }

page_init : shm_init (some 4096) 120 96 ≡ some page
unfolding shm_init round_up
page_init = refl

page-IsValid : IsValid page
page-IsValid = record { room = omega arith; small = omega arith; page = refl; step = refl }

blocks-Apart_example :
    Every (Inside page) (blocks (5 ∷ 16 ∷ 8 ∷ []) page) × Apart (blocks (5 ∷ 16 ∷ 8 ∷ []) page)
blocks-Apart_example =
    blocks-Apart (5 ∷ 16 ∷ 8 ∷ []) page page-IsValid (omega arith, (omega arith, (omega arith, tt)))
