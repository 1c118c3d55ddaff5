-- ===== src/Proc/Draining.antt =====
-- How a worker of src/process.c that is told to stop comes to its end.
use cserv.Prelude.{
  ℕ, ◌+◌, ◌-◌, ◌≤◌, ◌≡◌, ◌≢◌, refl, ap, ◌∙◌, arith, Bool, false, List, [], ◌∷◌, length, ◌==◌,
}
use cserv.Proc.Worker.{
  at_head, at_end, Worker, Life, lives, ended, decrease_conn_and_check, handle_connection,
  worker_accept_cycle, worker_process_cycle, Reachable,
}
use cserv.Proc.Connections.{accepting, Reachable-Lives}

-- the connections are handled one after the other
unfoldable pub handle_all : List ℕ → Worker → Life
unfolding handle_connection
handle_all [] w = lives w
handle_all (connfd ∷ rest) w = elim (handle_connection rest w) [
  | lives after ↦ handle_all rest after
  | ended after ↦ ended after
]

-- a turn of the accepting coroutine, and then all that is open is handled
unfoldable pub drain : ℕ → ℕ → Bool → Worker → Life
unfolding worker_accept_cycle handle_all
drain n c spin_trylock w = elim (worker_accept_cycle n c spin_trylock w) [
  | lives after ↦ handle_all after.open_connections after
  | ended after ↦ ended after
]

-- a worker that has come to its end
abbrev pub drained : Worker → Worker
drained w = record w { connection_count = 0; place = at_end; open_connections = [] }

handle_all-ended :
    (connfd : ℕ) (rest : List ℕ) (w : Worker)
    → w.place ≡ at_end
    → w.connection_count ≡ 1 + length rest
    → handle_all (connfd ∷ rest) w ≡ ended (drained w)
unfolding handle_all
handle_all-ended connfd [] w p e =
    rw (handle_all, handle_connection, decrease_conn_and_check, e, p) refl
handle_all-ended connfd (k ∷ rest) w p e =
    let d : (w.connection_count == 1) ≡ false = ground (arith, e) in
    rw (handle_all, handle_connection, decrease_conn_and_check, d)
      (handle_all-ended k rest
        (record w { connection_count = w.connection_count - 1; open_connections = k ∷ rest }) p
        (omega (arith, e)))

drain-open :
    (n c : ℕ) (t : Bool) (w : Worker) (xs : List ℕ)
    → w.open_connections ≡ xs
    → w.connection_count ≡ 1 + length xs
    → (w.g_shall_stop == 0) ≡ false
    → drain n c t w ≡ ended (drained w)
unfolding drain
drain-open n c t w [] o e s = rw (drain, worker_accept_cycle, decrease_conn_and_check, s, e, o) refl
drain-open n c t w (connfd ∷ rest) o e s =
    let d : (w.connection_count == 1) ≡ false = ground (arith, e) in
    rw (drain, worker_accept_cycle, decrease_conn_and_check, s, d, o)
      (handle_all-ended connfd rest
        (record w {
          connection_count = w.connection_count - 1;
          place = at_end;
          open_connections = connfd ∷ rest;
        })
        refl (omega (arith, e)))

-- A worker that has been told to stop ends by itself: the accepting coroutine leaves its loop at its
-- next turn, and the worker ends at once when nothing is open, and when the last connection has been
-- handled otherwise.
pub drain-ended :
    (n c stop exit : ℕ) (t : Bool) (w : Worker)
    → 1 ≤ c
    → Reachable n c (worker_process_cycle false stop exit) (lives w)
    → w.place ≡ at_head
    → w.g_shall_stop ≢ 0
    → drain n c t w ≡ ended (drained w)
drain-ended n c stop exit t w h r p s =
    let v = Reachable-Lives n c stop exit (lives w) h r in
    drain-open n c t w w.open_connections refl
      (v.counts ∙ ap (λ x. accepting x + length w.open_connections) p) (ground (arith, s))
