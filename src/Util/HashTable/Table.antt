-- ===== src/Util/HashTable/Table.antt =====
-- The functions of src/util/hashtable.c. A call that allocates takes the answer of `malloc`, `true`
-- for success.
use Prim.Native.Nat.{bit_and}
use cserv.Prelude.{
  ℕ, zero, suc, ◌-◌, ◌%◌, Bool, true, false, not, ◌||◌, Option, none, some, List, [], ◌∷◌, ◌==◌,
  if◌then◌else◌, get_or, set,
}
use cserv.Util.HashTable.Bucket.{HashElement, bucket_find, bucket_remove, bucket_add}

-- `struct hash_table`
pub record HashTable {ℓ} (V : Type ℓ) : Type ℓ where
  pub bucket_size : ℕ
  pub buckets : List (List (HashElement V))

-- the results 0, -1 and -2
pub data AddResult : Type 0 where
  added no_memory conflict : AddResult

module _ {ℓ} {V : Type ℓ} where
  abbrev pub bucket_of : HashTable V → ℕ → List (HashElement V)
  bucket_of ht key = get_or ht.buckets (key % ht.bucket_size) []

  abbrev pub with_bucket : HashTable V → ℕ → List (HashElement V) → HashTable V
  with_bucket ht key bucket = record ht { buckets = set ht.buckets (key % ht.bucket_size) bucket }

  unfoldable pub hash_table_find : HashTable V → ℕ → Option V
  hash_table_find ht key = bucket_find key (bucket_of ht key)

  unfoldable pub hash_table_remove : HashTable V → ℕ → Option V × HashTable V
  hash_table_remove ht key = elim (bucket_remove key (bucket_of ht key)) [
    | none ↦ (none, ht)
    | some (object, rest) ↦ (some object, with_bucket ht key rest)
  ]

  unfoldable pub hash_table_add : Bool → HashTable V → ℕ → V → AddResult × HashTable V
  hash_table_add false ht key object = (no_memory, ht)
  hash_table_add true ht key object =
      elim (bucket_add (record { key = key; object = object }) (bucket_of ht key)) [
        | none ↦ (conflict, ht)
        | some bucket ↦ (added, with_bucket ht key bucket)
      ]

  -- the loop of `INIT_LIST_HEAD` over the buckets
  unfoldable pub empty_buckets : ℕ → List (List (HashElement V))
  empty_buckets zero = []
  empty_buckets (suc n) = [] ∷ empty_buckets n

  unfoldable pub hash_table_create : Bool → ℕ → Option (HashTable V)
  hash_table_create malloc_ok bucket_size =
      if bucket_size == 0 || not (bit_and bucket_size (bucket_size - 1) == 0)
      then none
      else if not malloc_ok
      then none
      else some (record { bucket_size = bucket_size; buckets = empty_buckets bucket_size })
