-- ===== src/Util/Memcache/Defs.antt =====
-- The functions of src/util/memcache.c. `malloc` is not part of the source: the calls that may
-- allocate take its answers, an address or NULL.
use cserv.Prelude.{
  ℕ, zero, suc, ◌+◌, ◌/◌, ◌^◌, Option, none, some, List, [], ◌∷◌, ltb, if◌then◌else◌, length,
}

-- `struct memcache`: `elements` are the first `curr` entries of the array, the topmost first.
-- `freed` records, latest first, the addresses that the cache has handed to `free`.
pub record Memcache : Type 0 where
  pub elements : List ℕ
  pub cache_size : ℕ
  pub freed : List ℕ

abbrev pub curr : Memcache → ℕ
curr cache = length cache.elements

unfoldable pub add_element : Memcache → ℕ → Memcache
add_element cache element =
    if ltb (curr cache) cache.cache_size
    then record cache { elements = element ∷ cache.elements }
    else record cache { freed = element ∷ cache.freed }

-- `(cache->curr) ? remove_element(cache) : malloc(cache->obj_size)`, by the array's entries
unfoldable pub alloc_from : Option ℕ → Memcache → List ℕ → Option ℕ × Memcache
alloc_from malloc cache [] = (malloc, cache)
alloc_from malloc cache (element ∷ rest) = (some element, record cache { elements = rest })

unfoldable pub memcache_alloc : Option ℕ → Memcache → Option ℕ × Memcache
unfolding alloc_from
memcache_alloc malloc cache = alloc_from malloc cache cache.elements

unfoldable pub memcache_free : Memcache → ℕ → Memcache
unfolding add_element
memcache_free cache element = add_element cache element

-- the loop of `free_pool`: each element in turn goes to `free`
unfoldable pub free_elements : List ℕ → List ℕ → List ℕ
free_elements [] freed = freed
free_elements (element ∷ rest) freed = free_elements rest (element ∷ freed)

-- `free_pool`, which is also `memcache_destroy`: what has been freed in the end, the cache at
-- `address` last
unfoldable pub free_pool : ℕ → Memcache → List ℕ
unfolding free_elements
free_pool address cache = address ∷ free_elements cache.elements cache.freed

-- a cache, NULL with what was freed, or an assertion that has failed and ends the program
pub data Created : Type 0 where
  created : Memcache → Created
  failed : List ℕ → Created
  aborted : Created

-- The loop of `memcache_create`, with the rounds left and the number of calls of `malloc` so far;
-- `address` is where the cache itself lies.
unfoldable pub fill : (ℕ → Option ℕ) → ℕ → ℕ → ℕ → Memcache → Created
fill malloc address zero k cache = created cache
fill malloc address (suc rounds) k cache = elim (malloc k) [
  | none ↦ failed (free_pool address cache)
  | some element ↦ fill malloc address rounds (k + 1) (add_element cache element)
]

-- The first call of `malloc` is for the cache itself.
unfoldable pub memcache_create : (ℕ → Option ℕ) → ℕ → Created
memcache_create malloc max_cache_size = if ltb max_cache_size 2 then aborted else elim (malloc 0) [
  | none ↦ failed []
  | some address ↦
      fill malloc address (max_cache_size / 2 ^ 2) 1
        (record { elements = []; cache_size = max_cache_size; freed = [] })
]
