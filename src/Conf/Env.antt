-- ===== src/Conf/Env.antt =====
-- src/env.c, and `worker_process_init` of src/http/http.c: the numbers that the program takes from its
-- configuration. `atoi` is that of the C library, and the number of cpus and the size of a page are
-- what the system says.
use cserv.Prelude.{
  ℕ, ◌+◌, ◌-◌, ◌*◌, ◌/◌, ◌%◌, ◌^◌, true, false, Option, none, some, List, [], ◌∷◌, ◌++◌, codes, ltb,
  ◌==◌, if◌then◌else◌,
}
use cserv.Conf.Load.{Conf, Result, returns, exits, ◌>>=◌, str_equal, get_conf_entry}

-- an `int`: `negsuc n` is -n - 1
pub data ℤ : Type 0 where
  pos negsuc : ℕ → ℤ

pub record Env : Type 0 where
  pub g_log_path : List ℕ
  pub g_log_strlevel : List ℕ
  pub g_worker_processes : ℕ
  pub g_worker_connections : ℕ
  pub g_coro_stack_kbytes : ℕ
  pub g_server_addr : Option (List ℕ)
  pub g_server_port : ℕ

abbrev pub max_worker_process : ℕ
max_worker_process = 64

abbrev pub default : List ℕ
default = codes "default"

unfoldable pub set_log_env : List Conf → Result (List ℕ × List ℕ)
unfolding get_conf_entry
set_log_env config = do
  log_path ← get_conf_entry (codes "log_path") config
  log_strlevel ← get_conf_entry (codes "log_level") config
  returns (log_path, log_strlevel)

-- the checks of the three numbers
unfoldable pub check_processes : ℤ → Result ℕ
check_processes (pos n) = if ltb max_worker_process n then exits else returns n
check_processes (negsuc n) = exits

unfoldable pub check_connections : ℤ → Result ℕ
check_connections (pos n) = if n == 0 then exits else returns n
check_connections (negsuc n) = exits

unfoldable pub check_stack : ℤ → Result ℕ
check_stack (pos n) = if n == 0 then exits else if ltb 10240 n then exits else returns n
check_stack (negsuc n) = exits

-- the 32 bits of an `int`, and the `int` of 32 bits
abbrev pub to_word : ℤ → ℕ
to_word (pos n) = n % 2 ^ 32
to_word (negsuc n) = 2 ^ 32 - 1 - n % 2 ^ 32

abbrev pub from_word : ℕ → ℤ
from_word n = if ltb n (2 ^ 31) then pos n else negsuc (2 ^ 32 - 1 - n)

-- `x >> 10` on an `int`
abbrev pub shift_10 : ℤ → ℤ
shift_10 (pos n) = pos (n / 1024)
shift_10 (negsuc n) = negsuc (n / 1024)

-- `ALIGN(x * 1024, get_page_size()) >> 10`. The size of a page is a power of 2, so that the mask takes
-- away the rest of the division by it.
unfoldable pub aligned_kbytes : ℕ → ℤ → ℤ
aligned_kbytes page_size x =
    let n = (to_word x * 1024 + (page_size - 1)) % 2 ^ 32 in
    shift_10 (from_word (n - n % page_size))

-- the loop of `set_server_env`: the address, the bytes from `head` to `loop`, and those from `loop` on
unfoldable pub listen_loop : Option (List ℕ) → List ℕ → List ℕ → Option (List ℕ) × List ℕ
listen_loop addr head [] = (addr, head)
listen_loop addr head (c ∷ loop) = elim (c == 58) [
  | true ↦ listen_loop (some head) [] loop
  | false ↦ listen_loop addr (head ++ c ∷ []) loop
]

module _ (atoi : List ℕ → ℤ) where
  unfoldable pub set_server_env : List Conf → Result (Option (List ℕ) × ℕ)
  unfolding get_conf_entry listen_loop check_connections
  set_server_env config = do
    head ← get_conf_entry (codes "listen") config
    let (addr, port) = listen_loop none [] head
    g_server_port ← check_connections (atoi port)
    returns (addr, g_server_port)

  module _ (ncpu page_size : ℕ) where
    unfoldable pub set_worker_env : List Conf → Result (ℕ × ℕ × ℕ)
    unfolding get_conf_entry str_equal check_processes check_connections check_stack aligned_kbytes
    set_worker_env config = do
      c ← get_conf_entry (codes "worker_processes") config
      processes ← check_processes (if str_equal c default then pos ncpu else atoi c)
      c ← get_conf_entry (codes "worker_connections") config
      connections ← check_connections (atoi c)
      c ← get_conf_entry (codes "coroutine_stack_kbytes") config
      kbytes ← check_stack (
          if str_equal c default then pos (page_size / 1024) else aligned_kbytes page_size (atoi c))
      returns (processes, connections, kbytes)

    unfoldable pub conf_env_init : List Conf → Result Env
    unfolding set_log_env set_worker_env set_server_env
    conf_env_init config = do
      (log_path, log_strlevel) ← set_log_env config
      (processes, connections, kbytes) ← set_worker_env config
      (addr, port) ← set_server_env config
      returns (record {
        g_log_path = log_path;
        g_log_strlevel = log_strlevel;
        g_worker_processes = processes;
        g_worker_connections = connections;
        g_coro_stack_kbytes = kbytes;
        g_server_addr = addr;
        g_server_port = port;
      })

  -- the size in KiB that `http_request_init` is called with, or `none` for the result -1
  unfoldable pub worker_process_init : List Conf → Result (Option ℕ)
  unfolding get_conf_entry str_equal
  worker_process_init config = do
    c ← get_conf_entry (codes "client_header_buffer_kbytes") config
    returns (
        if str_equal c default
        then some 2
        else (if to_word (atoi c) == 0
            then none
            else (if ltb 4 (to_word (atoi c)) then none else some (to_word (atoi c)))))
