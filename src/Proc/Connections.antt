-- ===== src/Proc/Connections.antt =====
-- The connections that a worker of src/process.c counts, and when it ends.
use cserv.Prelude.{
  ℕ, ◌+◌, ◌-◌, ◌≤◌, ◌<◌, ◌≡◌, ◌≢◌, refl, ap, ◌∙◌, arith, Bool, true, false, ◌&&◌, Option, none,
  some, ◌⊎◌, inl, inr, Bool-cases, List, [], ◌∷◌, ◌++◌, length, length-append, ltb, ◌==◌,
}
use cserv.Proc.Master.{Signal, sigquit, sigterm, sigint, sigchld, other_signal}
use cserv.Proc.Worker.{
  Place, at_head, at_end, in_accept, Worker, Life, lives, ended, increase_conn,
  decrease_conn_and_check, handle_connection, worker_can_accept, worker_accept, worker_accept_cycle,
  accepted, worker_signal_handler, worker_process_cycle, Step, turns, answers, handles, signalled,
  Reachable, starts, steps,
}

-- what the accepting coroutine adds to the count
abbrev pub accepting : Place → ℕ
accepting at_head = 1
accepting (in_accept locked) = 1
accepting at_end = 0

-- the room that the place needs under the limit
abbrev pub Room : ℕ → ℕ → Place → Type 0
Room count c at_head = count ≤ c
Room count c at_end = count ≤ c
Room count c (in_accept true) = count < c
Room count c (in_accept false) = ⊥

-- a worker that runs: with one process there is no limit
pub record IsValid (n c : ℕ) (w : Worker) : Type 0 where
  pub counts : w.connection_count ≡ accepting w.place + length w.open_connections
  pub busy : w.connection_count ≢ 0
  pub room : 1 < n → Room w.connection_count c w.place
  pub leaves : w.place ≡ at_end → w.g_shall_stop ≢ 0

-- a worker that has ended: told to, and not in `accept`
pub record HasEnded (w : Worker) : Type 0 where
  pub unlocked : (locked : Bool) → w.place ≢ in_accept locked
  pub told : (w.g_shall_exit ≢ 0) ⊎ ((w.g_shall_stop ≢ 0) × (w.open_connections ≡ []))

abbrev pub Lives : ℕ → ℕ → Life → Type 0
Lives n c (lives w) = IsValid n c w
Lives n c (ended w) = HasEnded w

signalled-Lives :
    (n c : ℕ) (signo : Signal) (w : Worker)
    → IsValid n c w
    → Lives n c (lives (worker_signal_handler signo w))
unfolding worker_signal_handler
signalled-Lives n c sigquit w v = record {
  counts = v.counts;
  busy = v.busy;
  room = v.room;
  leaves = (λ e h. ground (arith, h));
}
signalled-Lives n c sigterm w v = record {
  counts = v.counts;
  busy = v.busy;
  room = v.room;
  leaves = v.leaves;
}
signalled-Lives n c sigint w v = record {
  counts = v.counts;
  busy = v.busy;
  room = v.room;
  leaves = v.leaves;
}
signalled-Lives n c sigchld w v = v
signalled-Lives n c other_signal w v = v

-- the place behind `worker_accept`
pub record Asked (n c count : ℕ) (p : Place) : Type 0 where
  pub one : accepting p ≡ 1
  pub room : 1 < n → Room count c p
  pub stays : p ≢ at_end

Room-less : (m k c : ℕ) (p : Place) → m ≤ k → Room k c p → Room m c p
Room-less m k c at_head l h = omega (arith, l, h)
Room-less m k c at_end l h = omega (arith, l, h)
Room-less m k c (in_accept true) l h = omega (arith, l, h)
Room-less m k c (in_accept false) l h = h

Room-le : (m c : ℕ) (p : Place) → Room m c p → m ≤ c
Room-le m c at_head h = h
Room-le m c at_end h = h
Room-le m c (in_accept true) h = omega (arith, h)
Room-le m c (in_accept false) h = absurd h

accepting-zero : (p : Place) → accepting p ≡ 0 → p ≡ at_end
accepting-zero at_head e = absurd (ground (arith, e))
accepting-zero at_end e = refl
accepting-zero (in_accept locked) e = absurd (ground (arith, e))

length-zero : (xs : List ℕ) → length xs ≡ 0 → xs ≡ []
length-zero [] e = refl
length-zero (x ∷ xs) e = absurd (ground (arith, e))

at_end-unlocked : (p : Place) → p ≡ at_end → (locked : Bool) → p ≢ in_accept locked
at_end-unlocked p e locked f = ground (arith, e, f)

worker_accept-Asked :
    (n c : ℕ) (t : Bool) (w : Worker)
    → (1 < n → w.connection_count ≤ c)
    → Asked n c w.connection_count (worker_accept n c t w)
unfolding worker_accept worker_can_accept
worker_accept-Asked n c t w h = elim (Bool-cases (ltb 1 n)) [
  | inl m ↦ elim (Bool-cases (ltb w.connection_count c && t)) [
    | inl l ↦
        rw (m, l)
          (record { one = refl; room = (λ k. ground (arith, l)); stays = (λ e. ground (arith, e)) })
    | inr l ↦ rw (m, l) (record { one = refl; room = h; stays = (λ e. ground (arith, e)) })
  ]
  | inr m ↦ rw m (record {
    one = refl;
    room = (λ k. absurd (ground (arith, m, k)));
    stays = (λ e. ground (arith, e));
  })
]

decrease_conn_and_check-Lives :
    (n c : ℕ) (w : Worker)
    → w.connection_count ≡ 1 + accepting w.place + length w.open_connections
    → (1 < n → Room w.connection_count c w.place)
    → (w.place ≡ at_end → w.g_shall_stop ≢ 0)
    → Lives n c (decrease_conn_and_check w)
unfolding decrease_conn_and_check
decrease_conn_and_check-Lives n c w e r l = elim (Bool-cases (w.connection_count == 1)) [
  | inl d ↦
      let p = accepting-zero w.place (ground (arith, d, e)) in
      rw d (record {
        unlocked = at_end-unlocked w.place p;
        told = inr (l p, length-zero w.open_connections (ground (arith, d, e)));
      })
  | inr d ↦ rw d (record {
    counts = omega (arith, e);
    busy = ground (arith, d, e);
    room =
        (λ h. Room-less (w.connection_count - 1) w.connection_count c w.place (omega arith) (r h));
    leaves = l;
  })
]

turns-Lives :
    (n c : ℕ) (t : Bool) (w : Worker)
    → w.place ≡ at_head
    → IsValid n c w
    → Lives n c (worker_accept_cycle n c t w)
unfolding worker_accept_cycle
turns-Lives n c t w e v =
    let counted : w.connection_count ≡ 1 + length w.open_connections =
      v.counts ∙ ap (λ p. accepting p + length w.open_connections) e in
    let under : 1 < n → w.connection_count ≤ c =
      (λ h. Room-le w.connection_count c w.place (v.room h)) in
    let a = worker_accept-Asked n c t w under in
    elim (Bool-cases (w.g_shall_stop == 0)) [
      | inl s ↦ elim (Bool-cases (w.g_shall_exit == 0)) [
        | inl x ↦
            rw (s, x)
              (record {
                counts = omega (arith, counted, a.one);
                busy = v.busy;
                room = a.room;
                leaves = (λ p. absurd (a.stays p));
              })
        | inr x ↦
            rw (s, x)
              (record {
                unlocked = (λ locked f. ground (arith, e, f));
                told = inl (λ z. ground (arith, x, z));
              })
      ]
      | inr s ↦ rw s (
          decrease_conn_and_check-Lives n c (record w { place = at_end }) counted under
            (λ p z. ground (arith, s, z)))
    ]

in_accept-less : (m c : ℕ) (p : Place) (locked : Bool) → p ≡ in_accept locked → Room m c p → m < c
in_accept-less m c at_head locked e h = absurd (ground (arith, e))
in_accept-less m c at_end locked e h = absurd (ground (arith, e))
in_accept-less m c (in_accept true) locked e h = h
in_accept-less m c (in_accept false) locked e h = absurd h

answers-Lives :
    (n c : ℕ) (locked : Bool) (connfd : Option ℕ) (dispatched : Bool) (w : Worker)
    → w.place ≡ in_accept locked
    → IsValid n c w
    → Lives n c (lives (accepted connfd dispatched w))
unfolding accepted increase_conn
answers-Lives n c locked connfd dispatched w e v =
    let counted : w.connection_count ≡ 1 + length w.open_connections =
      v.counts ∙ ap (λ p. accepting p + length w.open_connections) e in
    let under : 1 < n → w.connection_count < c =
      (λ h. in_accept-less w.connection_count c w.place locked e (v.room h)) in
    let head : IsValid n c (record w { place = at_head }) = record {
      counts = counted;
      busy = v.busy;
      room = (λ h. omega (arith, under h));
      leaves = (λ p. absurd (ground (arith, p)));
    } in
    elim connfd as (λ x. Lives n c (lives (accepted x dispatched w))) [
      | none ↦ head
      | some fd ↦ elim (Bool-cases (fd == 0)) [
        | inl z ↦ rw z head
        | inr z ↦ elim dispatched as (λ b. Lives n c (lives (accepted (some fd) b w))) [
          | false ↦ rw z head
          | true ↦ rw z (record {
            counts = omega (arith, counted);
            busy = ground arith;
            room = (λ h. omega (arith, under h));
            leaves = (λ p. absurd (ground (arith, p)));
          })
        ]
      ]
    ]

handles-Lives :
    (n c : ℕ) (xs ys : List ℕ) (connfd : ℕ) (w : Worker)
    → w.open_connections ≡ xs ++ (connfd ∷ ys)
    → IsValid n c w
    → Lives n c (handle_connection (xs ++ ys) w)
unfolding handle_connection
handles-Lives n c xs ys connfd w e v =
    decrease_conn_and_check-Lives n c (record w { open_connections = xs ++ ys })
      (v.counts ∙ rw (e, length-append xs ys, length-append xs (connfd ∷ ys)) (omega arith)) v.room
      v.leaves

Step-Lives :
    (n c : ℕ) (w : Worker) (after : Life) → Step n c w after → IsValid n c w → Lives n c after
Step-Lives n c w after (turns t e) v = turns-Lives n c t w e v
Step-Lives n c w after (answers locked connfd dispatched e) v =
    answers-Lives n c locked connfd dispatched w e v
Step-Lives n c w after (handles xs ys connfd e) v = handles-Lives n c xs ys connfd w e v
Step-Lives n c w after (signalled signo) v = signalled-Lives n c signo w v

first-Lives : (n c stop exit : ℕ) → 1 ≤ c → Lives n c (worker_process_cycle false stop exit)
unfolding worker_process_cycle
first-Lives n c stop exit h = record {
  counts = refl;
  busy = ground arith;
  room = (λ _. h);
  leaves = (λ p. absurd (ground (arith, p)));
}

-- At every moment of its run a worker, whose limit is not 0, has the open connections counted, with
-- one more while it accepts, and under several processes keeps within the limit. It ends only outside
-- of `accept`, so that it never ends with the accept lock, and only when it has been told to exit, or
-- has been told to stop and has no connection left.
pub Reachable-Lives :
    (n c stop exit : ℕ) (life : Life)
    → 1 ≤ c
    → Reachable n c (worker_process_cycle false stop exit) life
    → Lives n c life
Reachable-Lives n c stop exit life h starts = first-Lives n c stop exit h
Reachable-Lives n c stop exit life h (steps w _ r s) =
    Step-Lives n c w life s (Reachable-Lives n c stop exit (lives w) h r)
