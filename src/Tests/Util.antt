-- ===== src/Tests/Util.antt =====
-- Runs of the containers.
use cserv.Prelude.{
  ℕ, zero, suc, ◌+◌, ◌≡◌, refl, arith, true, none, some, [], ◌∷◌, ◌==◌, if◌then◌else◌, get_or,
}
use cserv.Prelude.{Option}
use cserv.Util.HashTable.Bucket as B
use cserv.Util.HashTable.Table.{
  HashTable, added, conflict, hash_table_find, hash_table_add, hash_table_remove, hash_table_create,
  empty_buckets,
}
use cserv.Util.HashTable.BucketLaws.{IsSorted}
use cserv.Util.HashTable.TableLaws as T
use cserv.Util.HashTable.CreateLaws.{hash_table_create-IsValid}
use cserv.Util.Memcache.Defs.{Memcache, memcache_create, memcache_alloc, memcache_free}
use cserv.Util.Memcache.Laws as M
use cserv.Util.Memcache.Create.{Outcome, memcache_create-Outcome}
use cserv.Util.Cirbuf.Defs.{Cirbuf, cirbuf_write, cirbuf_read}
use cserv.Util.Cirbuf.Laws as C

-- two buckets: the keys 2 and 6 in the first, none in the second
abbrev two_buckets : HashTable ℕ
two_buckets = record {
  bucket_size = 2;
  buckets = (record { key = 2; object = 20 } ∷ record { key = 6; object = 60 } ∷ []) ∷ [] ∷ [];
}

two_buckets-IsSorted : (i : ℕ) → IsSorted (get_or two_buckets.buckets i [])
two_buckets-IsSorted zero = ((omega arith, tt), (tt, tt))
two_buckets-IsSorted (suc zero) = tt
two_buckets-IsSorted (suc (suc i)) = tt

two_buckets-IsValid : T.IsValid two_buckets
two_buckets-IsValid = record {
  some_bucket = omega arith;
  width = refl;
  sorted = two_buckets-IsSorted;
}

hash_table_add-conflict_example : hash_table_add true two_buckets 6 61 ≡ (conflict, two_buckets)
unfolding hash_table_find B.bucket_find
hash_table_add-conflict_example =
    T.hash_table_add-conflict two_buckets 6 61 two_buckets-IsValid (ground arith)

hash_table_add-added_example :
    (ht' : HashTable ℕ) × (hash_table_add true two_buckets 4 40 ≡ (added, ht'))
    × T.IsValid ht'
    × ((q : ℕ)
        → hash_table_find ht' q ≡ (if q == 4 then some 40 else hash_table_find two_buckets q))
unfolding hash_table_find B.bucket_find
hash_table_add-added_example = T.hash_table_add-added two_buckets 4 40 two_buckets-IsValid refl

hash_table_remove-find_example :
    ((hash_table_remove two_buckets 2).0 ≡ hash_table_find two_buckets 2)
    × T.IsValid (hash_table_remove two_buckets 2).1
    × ((q : ℕ)
        → hash_table_find (hash_table_remove two_buckets 2).1 q
          ≡ (if q == 2 then none else hash_table_find two_buckets q))
hash_table_remove-find_example = T.hash_table_remove-find two_buckets 2 two_buckets-IsValid

abbrev table_of_4 : HashTable ℕ
table_of_4 = record { bucket_size = 4; buckets = empty_buckets 4 }

hash_table_create-IsValid_example :
    T.IsValid table_of_4
    × (table_of_4.bucket_size ≡ 4)
    × ((q : ℕ) → hash_table_find table_of_4 q ≡ none)
unfolding hash_table_create
hash_table_create-IsValid_example = hash_table_create-IsValid {V = ℕ} true 4 table_of_4 refl

-- a pool with one object, and room for another
abbrev pool : Memcache
pool = record { elements = 100 ∷ []; cache_size = 2; freed = [] }

memcache_free-held_example :
    M.IsValid (memcache_free pool 200) × (M.held 200 (memcache_free pool 200) ≡ 1 + M.held 200 pool)
memcache_free-held_example = M.memcache_free-held pool 200 200 (omega arith)

memcache_alloc-free_example : memcache_alloc none (memcache_free pool 200) ≡ (some 200, pool)
memcache_alloc-free_example = M.memcache_alloc-free none pool 200 (omega arith)

-- a buffer of three slots that has wrapped around and holds 7
abbrev wrapped : Cirbuf ℕ
wrapped = record { elem_count = 3; start = 2; end = 0; elem = 5 ∷ 6 ∷ 7 ∷ [] }

wrapped-IsValid : C.IsValid wrapped
wrapped-IsValid = record { start_in = omega arith; end_in = omega arith; room = omega arith }

abbrev full : Cirbuf ℕ
full = record { elem_count = 3; start = 2; end = 1; elem = 8 ∷ 6 ∷ 7 ∷ [] }

full-IsValid : C.IsValid full
full-IsValid = record { start_in = omega arith; end_in = omega arith; room = omega arith }

abbrev none_left : Cirbuf ℕ
none_left = record { elem_count = 3; start = 1; end = 1; elem = 8 ∷ 6 ∷ 7 ∷ [] }

none_left-IsValid : C.IsValid none_left
none_left-IsValid = record { start_in = omega arith; end_in = omega arith; room = omega arith }

cirbuf_write-append_example :
    (q' : Cirbuf ℕ) × (cirbuf_write 0 (λ _. 9) wrapped ≡ (true, q'))
    × C.IsValid q'
    × (C.contents 0 q' ≡ 7 ∷ 9 ∷ [])
cirbuf_write-append_example = C.cirbuf_write-append 0 (λ _. 9) wrapped wrapped-IsValid (omega arith)

cirbuf_read-cons_example :
    (q' : Cirbuf ℕ) × (cirbuf_read 0 (λ x s. x + s) full 3 ≡ (true, q', 10))
    × C.IsValid q'
    × (C.contents 0 q' ≡ 8 ∷ [])
cirbuf_read-cons_example = C.cirbuf_read-cons 0 (λ x s. x + s) full 3 7 (8 ∷ []) full-IsValid refl

-- three objects are answered, and then none
abbrev scarce : ℕ → Option ℕ
scarce zero = some 100
scarce (suc zero) = some 200
scarce (suc (suc zero)) = some 300
scarce _ = none

memcache_create-Outcome_example : Outcome scarce 16 (memcache_create scarce 16)
memcache_create-Outcome_example = memcache_create-Outcome scarce 16
