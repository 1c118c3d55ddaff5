-- ===== src/Util/HashTable/CreateLaws.antt =====
-- The table that `hash_table_create` of src/util/hashtable.c returns.
use mathlib.Core.Path.{subst}
use Prim.Native.Nat.{bit_and}
use cserv.Prelude.{
  ℕ, zero, suc, ◌-◌, ◌<◌, ◌≡◌, refl, ap, arith, Bool, true, false, not, ◌||◌, none, some, [], ◌==◌,
  inl, inr, length, get_or, Bool-cases,
}
use cserv.Util.HashTable.Bucket.{bucket_find}
use cserv.Util.HashTable.Table.{HashTable, hash_table_find, empty_buckets, hash_table_create}
use cserv.Util.HashTable.TableLaws.{IsValid}

length-empty_buckets : (V : Type 0) (n : ℕ) → length (empty_buckets {V = V} n) ≡ n
unfolding empty_buckets
length-empty_buckets V zero = refl
length-empty_buckets V (suc n) = omega (arith, length-empty_buckets V n)

get_or-empty_buckets : (V : Type 0) (n i : ℕ) → get_or (empty_buckets {V = V} n) i [] ≡ []
unfolding empty_buckets
get_or-empty_buckets V zero i = refl
get_or-empty_buckets V (suc n) zero = refl
get_or-empty_buckets V (suc n) (suc i) = get_or-empty_buckets V n i

abbrev Fresh : (V : Type 0) → ℕ → HashTable V → Type 0
Fresh V n ht = IsValid ht × (ht.bucket_size ≡ n) × ((q : ℕ) → hash_table_find ht q ≡ none)

empty_table-Fresh :
    (V : Type 0) (n : ℕ) → 0 < n → Fresh V n (record { bucket_size = n; buckets = empty_buckets n })
unfolding hash_table_find bucket_find
empty_table-Fresh V n h = (
  record {
    some_bucket = h;
    width = length-empty_buckets V n;
    sorted = λ i. rw (get_or-empty_buckets V n i) tt;
  },
  refl,
  λ q. ap (bucket_find q) (get_or-empty_buckets V n _),
)

-- A table that `hash_table_create` returns is well formed, has as many buckets as were asked for,
-- and no key is in it.
pub hash_table_create-IsValid :
    {V : Type 0} (malloc_ok : Bool) (n : ℕ) (ht : HashTable V)
    → hash_table_create malloc_ok n ≡ some ht
    → IsValid ht × (ht.bucket_size ≡ n) × ((q : ℕ) → hash_table_find ht q ≡ none)
unfolding hash_table_create
hash_table_create-IsValid false n ht h = ground arith
hash_table_create-IsValid {V} true n ht h =
    elim (Bool-cases (n == 0 || not (bit_and n (n - 1) == 0))) [
      | inl e ↦ absurd (ground (arith, e, h))
      | inr e ↦ subst (Fresh V n) (ground (arith, e, h)) (empty_table-Fresh V n (ground (arith, e)))
    ]
