-- ===== src/Util/HashTable/Bucket.antt =====
-- The loops of src/util/hashtable.c over one bucket. A bucket is the list of its elements in the
-- order of `list_for_each_entry`; `list_add_tail(elem, loop)` puts an element in front of `loop`.
use cserv.Prelude.{ℕ, Option, none, some, List, [], ◌∷◌, ltb, ◌==◌, if◌then◌else◌}

-- `struct hash_element`
pub record HashElement {ℓ} (V : Type ℓ) : Type ℓ where
  pub key : ℕ
  pub object : V

module _ {ℓ} {V : Type ℓ} where
  -- the loop of `hash_table_find`
  unfoldable pub bucket_find : ℕ → List (HashElement V) → Option V
  bucket_find key [] = none
  bucket_find key (loop ∷ rest) =
      let later = bucket_find key rest in
      if ltb loop.key key then later else if loop.key == key then some loop.object else none

  -- the loop of `hash_table_remove`: the object, and the bucket without its element
  unfoldable pub bucket_remove : ℕ → List (HashElement V) → Option (V × List (HashElement V))
  bucket_remove key [] = none
  bucket_remove key (loop ∷ rest) =
      let later = bucket_remove key rest in
      if key == loop.key
      then some (loop.object, rest)
      else elim later [ none ↦ none | some (object, rest') ↦ some (object, loop ∷ rest') ]

  -- the loop of `hash_table_add`: the bucket with the new element, `none` on `return -2`
  unfoldable pub bucket_add : HashElement V → List (HashElement V) → Option (List (HashElement V))
  bucket_add new [] = some (new ∷ [])
  bucket_add new (loop ∷ rest) =
      let later = bucket_add new rest in
      if ltb loop.key new.key
      then elim later [ none ↦ none | some rest' ↦ some (loop ∷ rest') ]
      else if loop.key == new.key
      then none
      else some (new ∷ loop ∷ rest)
