-- ===== src/Util/Memcache/Laws.antt =====
-- What src/util/memcache.c does with the addresses that it gets: none is lost, and none is handed
-- out twice.
use cserv.Prelude.{ℕ, ◌+◌, ◌≤◌, ◌<◌, ◌≡◌, some, Option, List, [], ◌∷◌, ◌==◌, if◌then◌else◌, arith}
use cserv.Util.Memcache.Defs.{Memcache, curr, alloc_from, memcache_alloc, memcache_free}

-- how often the address `a` stands in the list
abbrev pub count : ℕ → List ℕ → ℕ
count a [] = 0
count a (x ∷ xs) = (if a == x then 1 else 0) + count a xs

-- `curr` stays inside the array
abbrev pub IsValid : Memcache → Type 0
IsValid cache = curr cache ≤ cache.cache_size

-- how often the cache accounts for the address: as one of its objects, or as freed
abbrev pub held : ℕ → Memcache → ℕ
held a cache = count a cache.elements + count a cache.freed

-- `memcache_free` keeps `curr` inside the array, and keeps the object or frees it: exactly one
-- more is accounted for at its address, and none at any other.
pub memcache_free-held :
    (cache : Memcache) (element a : ℕ)
    → IsValid cache
    → IsValid (memcache_free cache element)
      × (held a (memcache_free cache element) ≡ (if a == element then 1 else 0) + held a cache)
unfolding memcache_free
memcache_free-held cache element a v = ground arith

-- An object that was freed while the pool had room is the next one to be allocated, and the pool
-- is then what it was: `malloc` is not called.
pub memcache_alloc-free :
    (malloc : Option ℕ) (cache : Memcache) (element : ℕ)
    → curr cache < cache.cache_size
    → memcache_alloc malloc (memcache_free cache element) ≡ (some element, cache)
unfolding memcache_alloc memcache_free alloc_from
memcache_alloc-free malloc cache element h = ground arith
