-- ===== src/Conf/Bounds.antt =====
-- The bounds that `conf_env_init` of src/env.c leaves, and what they are for in src/process.c.
use mathlib.Core.Path.{subst}
use cserv.Prelude.{
  ℕ, ◌/◌, ◌≤◌, ◌≡◌, arith, false, Bool-cases, inl, inr, Option, none, List, [], ltb, if◌then◌else◌,
  codes,
}
use cserv.Conf.Load.{Conf, Result, returns, exits, ◌>>=◌, str_equal, get_conf_entry}
use cserv.Conf.Env.{
  ℤ, pos, negsuc, Env, default, set_log_env, check_processes, check_connections, check_stack,
  aligned_kbytes, listen_loop, set_server_env, set_worker_env, conf_env_init,
}
use cserv.Proc.Worker.{Life, worker_process_cycle, Reachable}
use cserv.Proc.Connections.{Lives, Reachable-Lives}

-- what a function returns, if it does, satisfies the predicate
abbrev Ensures : {A : Type 0} → (A → Type 0) → Result A → Type 0
Ensures P (returns a) = P a
Ensures P exits = Unit

bind-Ensures :
    {A B : Type 0} (P : A → Type 0) (Q : B → Type 0) (m : Result A) (f : A → Result B)
    → Ensures P m
    → ((a : A) → P a → Ensures Q (f a))
    → Ensures Q (m >>= f)
bind-Ensures P Q (returns a) f p h = h a p
bind-Ensures P Q exits f p h = tt

any-Ensures : {A : Type 0} (m : Result A) → Ensures (λ a. Unit) m
any-Ensures (returns a) = tt
any-Ensures exits = tt

check_processes-Ensures : (x : ℤ) → Ensures (λ n. n ≤ 64) (check_processes x)
unfolding check_processes
check_processes-Ensures (negsuc n) = tt
check_processes-Ensures (pos n) = elim (Bool-cases (ltb 64 n)) [
  | inl e ↦ rw e tt
  | inr e ↦ rw e (ground (arith, e))
]

check_connections-Ensures : (x : ℤ) → Ensures (λ n. 1 ≤ n) (check_connections x)
unfolding check_connections
check_connections-Ensures (negsuc n) = tt
check_connections-Ensures (pos n) = ground arith

check_stack-Ensures : (x : ℤ) → Ensures (λ n. (1 ≤ n) × (n ≤ 10240)) (check_stack x)
unfolding check_stack
check_stack-Ensures (negsuc n) = tt
check_stack-Ensures (pos n) = ground arith

-- the bounds of a configuration
pub record IsBounded (env : Env) : Type 0 where
  pub processes : env.g_worker_processes ≤ 64
  pub connections : 1 ≤ env.g_worker_connections
  pub stack : (1 ≤ env.g_coro_stack_kbytes) × (env.g_coro_stack_kbytes ≤ 10240)
  pub port : 1 ≤ env.g_server_port

module _ (atoi : List ℕ → ℤ) (ncpu page_size : ℕ) where
  abbrev WorkerBounds : ℕ × ℕ × ℕ → Type 0
  WorkerBounds (p, c, k) = (p ≤ 64) × (1 ≤ c) × ((1 ≤ k) × (k ≤ 10240))

  worker_bounds :
      (p c k : ℕ)
      → p ≤ 64
      → 1 ≤ c
      → (1 ≤ k) × (k ≤ 10240)
      → Ensures WorkerBounds (returns (p, c, k))
  worker_bounds p c k hp hc hk = (hp, hc, hk)

  -- the chain of `set_worker_env`, for any results of its steps
  worker_chain-Ensures :
      (entry : List ℕ → Result (List ℕ)) (a b d : List ℕ) (f g h : List ℕ → Result ℕ)
      → ((c : List ℕ) → Ensures (λ n. n ≤ 64) (f c))
      → ((c : List ℕ) → Ensures (λ n. 1 ≤ n) (g c))
      → ((c : List ℕ) → Ensures (λ n. (1 ≤ n) × (n ≤ 10240)) (h c))
      → Ensures WorkerBounds
          (do x ← entry a; p ← f x; y ← entry b; c ← g y; z ← entry d; k ← h z; returns (p, c, k))
  worker_chain-Ensures entry a b d f g h pf pg ph =
      bind-Ensures (λ c. Unit {0}) WorkerBounds (entry a) _ (any-Ensures (entry a))
        (λ x _.
          bind-Ensures (λ n. n ≤ 64) WorkerBounds (f x) _ (pf x)
            (λ p hp.
              bind-Ensures (λ c. Unit {0}) WorkerBounds (entry b) _ (any-Ensures (entry b))
                (λ y _.
                  bind-Ensures (λ n. 1 ≤ n) WorkerBounds (g y) _ (pg y)
                    (λ c hc.
                      bind-Ensures (λ c. Unit {0}) WorkerBounds (entry d) _ (any-Ensures (entry d))
                        (λ z _.
                          bind-Ensures (λ n. (1 ≤ n) × (n ≤ 10240)) WorkerBounds (h z)
                            (λ k. returns (p, c, k)) (ph z)
                            (λ k hk. worker_bounds p c k hp hc hk))))))

  set_worker_env-Ensures :
      (config : List Conf) → Ensures WorkerBounds (set_worker_env atoi ncpu page_size config)
  unfolding set_worker_env
  set_worker_env-Ensures config =
      worker_chain-Ensures (λ key. get_conf_entry key config) (codes "worker_processes")
        (codes "worker_connections") (codes "coroutine_stack_kbytes")
        (λ c. check_processes (if str_equal c default then pos ncpu else atoi c))
        (λ c. check_connections (atoi c))
        (λ c. check_stack (
          if str_equal c default
          then pos (page_size / 1024)
          else aligned_kbytes page_size (atoi c)))
        (λ c. check_processes-Ensures (if str_equal c default then pos ncpu else atoi c))
        (λ c. check_connections-Ensures (atoi c))
        (λ c. check_stack-Ensures (
          if str_equal c default
          then pos (page_size / 1024)
          else aligned_kbytes page_size (atoi c)))

  set_server_env-Ensures :
      (config : List Conf) → Ensures (λ r. 1 ≤ r.1) (set_server_env atoi config)
  unfolding set_server_env
  set_server_env-Ensures config =
      bind-Ensures (λ c. Unit {0}) (λ r. 1 ≤ r.1) (get_conf_entry (codes "listen") config) _
        (any-Ensures (get_conf_entry (codes "listen") config))
        (λ head _.
          bind-Ensures (◌≤◌ 1) (λ r. 1 ≤ r.1)
            (check_connections (atoi (listen_loop none [] head).1))
            (λ port. returns ((listen_loop none [] head).0, port))
            (check_connections-Ensures (atoi (listen_loop none [] head).1)) (λ port h. h))

  -- the chain of `conf_env_init`, for any results of its steps
  env_chain-Ensures :
      (a : Result (List ℕ × List ℕ)) (b : Result (ℕ × ℕ × ℕ)) (c : Result (Option (List ℕ) × ℕ))
      → Ensures WorkerBounds b
      → Ensures (λ r. 1 ≤ r.1) c
      → Ensures IsBounded (do
        (log_path, log_strlevel) ← a
        (processes, connections, kbytes) ← b
        (addr, port) ← c
        returns (record {
          g_log_path = log_path;
          g_log_strlevel = log_strlevel;
          g_worker_processes = processes;
          g_worker_connections = connections;
          g_coro_stack_kbytes = kbytes;
          g_server_addr = addr;
          g_server_port = port;
        }))
  env_chain-Ensures exits b c hb hc = tt
  env_chain-Ensures (returns a) exits c hb hc = tt
  env_chain-Ensures (returns a) (returns b) exits hb hc = tt
  env_chain-Ensures (returns a) (returns (p, n, k)) (returns c) (hp, hn, hk) hc = record {
    processes = hp;
    connections = hn;
    stack = hk;
    port = hc;
  }

  -- What `conf_env_init` returns is within the bounds: at most 64 workers, and at least one connection
  -- of each, a stack of 1 to 10240 KiB, and a port that is not 0.
  pub conf_env_init-IsBounded :
      (config : List Conf) (env : Env)
      → conf_env_init atoi ncpu page_size config ≡ returns env
      → IsBounded env
  unfolding conf_env_init
  conf_env_init-IsBounded config env e = subst (Ensures IsBounded) e (
      env_chain-Ensures (set_log_env config) (set_worker_env atoi ncpu page_size config)
        (set_server_env atoi config) (set_worker_env-Ensures config)
        (set_server_env-Ensures config))

  -- A worker that runs with the numbers of a configuration that `conf_env_init` accepts has its open
  -- connections counted at every moment, keeps within the limit under several processes, and ends only
  -- outside of `accept` and when it has been told to.
  pub conf_env_init-Lives :
      (config : List Conf) (env : Env) (stop exit : ℕ) (life : Life)
      → conf_env_init atoi ncpu page_size config ≡ returns env
      → Reachable env.g_worker_processes env.g_worker_connections
          (worker_process_cycle false stop exit)
          life
      → Lives env.g_worker_processes env.g_worker_connections life
  conf_env_init-Lives config env stop exit life e r =
      Reachable-Lives env.g_worker_processes env.g_worker_connections stop exit life
        (conf_env_init-IsBounded config env e).connections r
