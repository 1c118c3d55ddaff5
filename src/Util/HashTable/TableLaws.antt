-- ===== src/Util/HashTable/TableLaws.antt =====
-- src/util/hashtable.c as a finite map: what `hash_table_find` sees after each operation.
use cserv.Prelude.{
  ℕ, ◌%◌, ◌<◌, ◌≡◌, ◌≢◌, inl, inr, ap, ◌∙◌, sym, true, none, some, Option, List, [], ◌==◌,
  if◌then◌else◌, arith, Option-cases, Bool-cases, ==_iff, get_or, length, length-set, get_or-set,
}
use cserv.Util.HashTable.Bucket.{HashElement, bucket_find, bucket_remove, bucket_add}
use cserv.Util.HashTable.BucketLaws.{
  IsSorted, bucket_remove-IsSorted, bucket_find-remove, bucket_find-remove_none,
  bucket_add-IsSorted, bucket_find-add, bucket_add-eq-none,
}
use cserv.Util.HashTable.Table.{
  HashTable, added, conflict, bucket_of, with_bucket, hash_table_find, hash_table_add,
  hash_table_remove,
}

module _ {V : Type 0} where
  -- there is a bucket, and each is sorted by key
  pub record IsValid (ht : HashTable V) : Type 0 where
    pub some_bucket : 0 < ht.bucket_size
    pub width : length ht.buckets ≡ ht.bucket_size
    pub sorted : (i : ℕ) → IsSorted (get_or ht.buckets i [])

  index-lt : (ht : HashTable V) (key : ℕ) → IsValid ht → key % ht.bucket_size < length ht.buckets
  index-lt ht key v = omega arith

  with_bucket-IsValid :
      (ht : HashTable V) (key : ℕ) (bucket : List (HashElement V))
      → IsValid ht
      → IsSorted bucket
      → IsValid (with_bucket ht key bucket)
  with_bucket-IsValid ht key bucket v s = record {
    some_bucket = v.some_bucket;
    width = length-set ht.buckets _ bucket ∙ v.width;
    sorted = λ i.
        rw (get_or-set ht.buckets (key % ht.bucket_size) i bucket [] (index-lt ht key v))
          (ground (arith, v.sorted i));
  }

  -- A lookup after the bucket of `key` was replaced: by `f` in that bucket, as before elsewhere.
  find-with_bucket :
      (ht : HashTable V) (key q : ℕ) (bucket : List (HashElement V))
      → IsValid ht
      → hash_table_find (with_bucket ht key bucket) q ≡ (
          if key % ht.bucket_size == q % ht.bucket_size
          then bucket_find q bucket
          else hash_table_find ht q)
  unfolding hash_table_find
  find-with_bucket ht key q bucket v =
      rw
        (get_or-set ht.buckets (key % ht.bucket_size) (q % ht.bucket_size) bucket []
          (index-lt ht key v))
        (ground arith)

  -- A new bucket for `key` that differs at `key` only: so does the table.
  find_after :
      (ht : HashTable V) (key q : ℕ)
      → IsValid ht
      → (bucket : List (HashElement V)) (o : Option V)
      → bucket_find q bucket ≡ (if q == key then o else bucket_find q (bucket_of ht key))
      → hash_table_find (with_bucket ht key bucket) q
        ≡ (if q == key then o else hash_table_find ht q)
  unfolding hash_table_find
  find_after ht key q v bucket o h =
      find-with_bucket ht key q bucket v
      ∙ elim (Bool-cases (key % ht.bucket_size == q % ht.bucket_size)) [
        | inl same ↦
            rw (same, h)
              (ap (λ n. if q == key then o else bucket_find q (get_or ht.buckets n []))
                ((==_iff _ _).0 same))
        | inr other ↦ rw other (ground (arith, ap (λ n. n % ht.bucket_size) {x = key} {y = q}))
      ]

  -- With memory at hand, `hash_table_add` refuses a key that the table holds, and changes nothing.
  pub hash_table_add-conflict :
      (ht : HashTable V) (key : ℕ) (object : V)
      → IsValid ht
      → hash_table_find ht key ≢ none
      → hash_table_add true ht key object ≡ (conflict, ht)
  unfolding hash_table_add hash_table_find
  hash_table_add-conflict ht key object v found =
      let new : HashElement V = record { key = key; object = object } in
      rw (hash_table_add, (bucket_add-eq-none new (bucket_of ht key) (v.sorted _)).1 found)

  -- With memory at hand, `hash_table_add` of a key that is not in the table succeeds. The table
  -- stays well formed, a lookup of the key finds the object, and every other key reads as before.
  pub hash_table_add-added :
      (ht : HashTable V) (key : ℕ) (object : V)
      → IsValid ht
      → hash_table_find ht key ≡ none
      → (ht' : HashTable V) × (hash_table_add true ht key object ≡ (added, ht'))
        × IsValid ht'
        × ((q : ℕ)
            → hash_table_find ht' q ≡ (if q == key then some object else hash_table_find ht q))
  unfolding hash_table_add hash_table_find
  hash_table_add-added ht key object v absent =
      let new : HashElement V = record { key = key; object = object } in
      let es = bucket_of ht key in
      elim (Option-cases (bucket_add new es)) [
        | inl refused ↦ absurd ((bucket_add-eq-none new es (v.sorted _)).0 refused absent)
        | inr (bucket, e) ↦ (
          with_bucket ht key bucket,
          rw (hash_table_add, e),
          with_bucket-IsValid ht key bucket v (rw e at (bucket_add-IsSorted new es (v.sorted _))),
          λ q.
              find_after ht key q v bucket (some object)
                (rw e at (bucket_find-add q new es (v.sorted _))),
        )
      ]

  -- `hash_table_remove` returns what a lookup of the key finds. The table stays well formed, the
  -- key is gone, and every other key reads as before.
  pub hash_table_remove-find :
      (ht : HashTable V) (key : ℕ)
      → IsValid ht
      → ((hash_table_remove ht key).0 ≡ hash_table_find ht key)
        × IsValid (hash_table_remove ht key).1
        × ((q : ℕ)
            → hash_table_find (hash_table_remove ht key).1 q
              ≡ (if q == key then none else hash_table_find ht q))
  unfolding hash_table_remove hash_table_find
  hash_table_remove-find ht key v =
      let es = bucket_of ht key in
      elim (Option-cases (bucket_remove key es)) [
        | inl e ↦
            let absent = bucket_find-remove_none key es e in
            (
              rw (hash_table_remove, e) (sym absent),
              rw (hash_table_remove, e) v,
              λ q.
                  rw (hash_table_remove, e)
                    (ground (arith, absent, ap (λ k. hash_table_find ht k) {x = q} {y = key})),
            )
        | inr ((object, rest), e) ↦ (
          rw (hash_table_remove, e) (sym (rw e at (bucket_find-remove key key es (v.sorted _))).0),
          rw (hash_table_remove, e)
              (with_bucket-IsValid ht key rest v
                (rw e at (bucket_remove-IsSorted key es (v.sorted _)))),
          λ q.
              rw (hash_table_remove, e)
                (find_after ht key q v rest none
                  (rw e at (bucket_find-remove key q es (v.sorted _))).1),
        )
      ]
