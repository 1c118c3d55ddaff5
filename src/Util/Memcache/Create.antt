-- ===== src/Util/Memcache/Create.antt =====
-- `memcache_create` of src/util/memcache.c keeps every object that it gets, or frees them all.
use cserv.Prelude.{
  ℕ, zero, suc, ◌+◌, ◌/◌, ◌≤◌, ◌<◌, ◌≡◌, refl, ap, ◌∙◌, none, some, Option, List, [], ◌∷◌, ◌==◌,
  if◌then◌else◌, arith, ◌⊎◌, Option-cases, inl, inr, ltb, ltb→lt, Bool-cases, false,
}
use cserv.Util.Memcache.Defs.{
  Memcache, curr, add_element, free_elements, free_pool, fill, memcache_create, Created, created,
  failed, aborted,
}
use cserv.Util.Memcache.Laws.{count, held}

-- how often `malloc` answers `a` in the `rounds` calls from call `k` on
abbrev pub once : ℕ → Option ℕ → ℕ
once a none = 0
once a (some x) = if a == x then 1 else 0

abbrev pub given : (ℕ → Option ℕ) → ℕ → ℕ → ℕ → ℕ
given malloc k zero a = 0
given malloc k (suc rounds) a = once a (malloc k) + given malloc (k + 1) rounds a

count-free_elements :
    (a : ℕ) (xs freed : List ℕ) → count a (free_elements xs freed) ≡ count a xs + count a freed
unfolding free_elements
count-free_elements a [] freed = omega arith
count-free_elements a (x ∷ xs) freed = omega (arith, count-free_elements a xs (x ∷ freed))

free_pool-held :
    (a address : ℕ) (cache : Memcache)
    → count a (free_pool address cache) ≡ once a (some address) + held a cache
unfolding free_pool
free_pool-held a address cache = omega (arith, count-free_elements a cache.elements cache.freed)

-- what the loop makes of `cache` in the rounds from call `k` on
abbrev Filled : (ℕ → Option ℕ) → ℕ → ℕ → ℕ → Memcache → Created → Type 0
Filled malloc address rounds k cache (created c) =
    (curr c ≡ curr cache + rounds)
    × (c.freed ≡ cache.freed)
    × (c.cache_size ≡ cache.cache_size)
    × ((a : ℕ) → held a c ≡ held a cache + given malloc k rounds a)
Filled malloc address rounds k cache (failed freed) =
    (j : ℕ) × (j < rounds)
    × (malloc (k + j) ≡ none)
    × ((a : ℕ) → count a freed ≡ once a (some address) + held a cache + given malloc k j a)
Filled malloc address rounds k cache aborted = ⊥

with_element : Memcache → ℕ → Memcache
with_element cache x = record cache { elements = x ∷ cache.elements }

add_element-room :
    (cache : Memcache) (x : ℕ)
    → curr cache < cache.cache_size
    → add_element cache x ≡ with_element cache x
unfolding add_element with_element
add_element-room cache x h = ground arith

Filled-later :
    (malloc : ℕ → Option ℕ) (address rounds k x : ℕ) (cache : Memcache) (t : Created)
    → malloc k ≡ some x
    → Filled malloc address rounds (k + 1) (with_element cache x) t
    → Filled malloc address (suc rounds) k cache t
unfolding with_element
Filled-later malloc address rounds k x cache (created c) e (len, fr, size, all) =
    (omega arith, fr, size, λ a. let b = all a in let o = ap (once a) e in omega arith)
Filled-later malloc address rounds k x cache (failed freed) e (j, lt, nothing, all) = (
  suc j,
  omega arith,
  ap malloc {x = k + suc j} {y = k + 1 + j} (omega arith) ∙ nothing,
  λ a. let b = all a in let o = ap (once a) e in omega arith,
)
Filled-later malloc address rounds k x cache aborted e h = absurd h

fill-Filled :
    (malloc : ℕ → Option ℕ) (address rounds k : ℕ) (cache : Memcache)
    → curr cache + rounds ≤ cache.cache_size
    → Filled malloc address rounds k cache (fill malloc address rounds k cache)
unfolding fill
fill-Filled malloc address zero k cache h = (omega arith, refl, refl, λ a. omega arith)
fill-Filled malloc address (suc rounds) k cache h = elim (Option-cases (malloc k)) [
  | inl e ↦
      rw (fill, e)
        (
          0,
          omega arith,
          ap malloc {x = k + 0} {y = k} (omega arith) ∙ e,
          λ a. omega (arith, free_pool-held a address cache),
        )
  | inr (x, e) ↦
      rw (fill, e, add_element-room cache x (omega arith))
        (Filled-later malloc address rounds k x cache
          (fill malloc address rounds (k + 1) (with_element cache x)) e
          (fill-Filled malloc address rounds (k + 1) (with_element cache x)
            (unfold with_element in omega arith)))
]

two_le : (n : ℕ) → ltb n 2 ≡ false → 2 ≤ n
two_le n h = ground arith

-- what `memcache_create` returns for a pool of `n` objects
abbrev pub Outcome : (ℕ → Option ℕ) → ℕ → Created → Type 0
Outcome malloc n (created c) =
    (2 ≤ n)
    × (curr c ≡ n / 4)
    × (c.cache_size ≡ n)
    × (c.freed ≡ [])
    × ((a : ℕ) → count a c.elements ≡ given malloc 1 (n / 4) a)
Outcome malloc n (failed freed) =
    (2 ≤ n)
    × (((malloc 0 ≡ none) × (freed ≡ []))
        ⊎ ((j : ℕ) × (j < n / 4)
            × (malloc (1 + j) ≡ none)
            × ((a : ℕ) → count a freed ≡ given malloc 0 (suc j) a)))
Outcome malloc n aborted = n < 2

from_filled :
    (malloc : ℕ → Option ℕ) (address n : ℕ) (t : Created)
    → 2 ≤ n
    → malloc 0 ≡ some address
    → Filled malloc address (n / 4) 1 (record { elements = []; cache_size = n; freed = [] }) t
    → Outcome malloc n t
from_filled malloc address n (created c) two e (len, fr, size, all) =
    (two, len ∙ omega arith, size, fr, λ a. let b = all a in let f = ap (count a) fr in omega arith)
from_filled malloc address n (failed freed) two e (j, lt, nothing, all) =
    (two, inr (j, lt, nothing, λ a. let b = all a in let o = ap (once a) e in omega arith))
from_filled malloc address n aborted two e h = absurd h

-- `memcache_create` aborts by its assertion for sizes below 2. For every other size it either returns
-- a pool that holds a quarter of the objects asked for, exactly those that `malloc` answered after
-- the cache itself, and has freed none; or a call of `malloc` failed. Then nothing is freed when it
-- was the call for the cache, and otherwise exactly the cache and the objects that the calls after
-- that one had answered.
pub memcache_create-Outcome :
    (malloc : ℕ → Option ℕ) (n : ℕ) → Outcome malloc n (memcache_create malloc n)
unfolding memcache_create
memcache_create-Outcome malloc n = elim (Bool-cases (ltb n 2)) [
  | inl small ↦ rw (memcache_create, small) (ltb→lt n 2 small)
  | inr big ↦ elim (Option-cases (malloc 0)) [
    | inl e ↦ rw (memcache_create, big, e) (two_le n big, inl (e, refl))
    | inr (x, e) ↦
        let cache : Memcache = record { elements = []; cache_size = n; freed = [] } in
        rw (memcache_create, big, e)
          (from_filled malloc x n (fill malloc x (n / 4) 1 cache) (two_le n big) e
            (fill-Filled malloc x (n / 4) 1 cache (omega arith)))
  ]
]
