-- ===== src/Util/HashTable/BucketLaws.antt =====
-- One bucket of src/util/hashtable.c, sorted by key, is a finite map.
use cserv.Prelude.{
  ℕ, ◌<◌, ◌≤◌, ◌≡◌, ◌≢◌, ◌↔◌, refl, none, some, Option, List, [], ◌∷◌, ◌==◌, if◌then◌else◌, arith,
}
use cserv.Util.HashTable.Bucket.{HashElement, bucket_find, bucket_remove, bucket_add}

abbrev pub OnSome {ℓ κ} : {A : Type ℓ} → (A → Type κ) → Option A → Type κ
OnSome P none = Unit
OnSome P (some a) = P a

module _ {V : Type 0} where
  -- the keys are above `k`
  abbrev pub Above : ℕ → List (HashElement V) → Type 0
  Above k [] = Unit
  Above k (e ∷ es) = (k < e.key) × Above k es

  -- the keys increase
  abbrev pub IsSorted : List (HashElement V) → Type 0
  IsSorted [] = Unit
  IsSorted (e ∷ es) = Above e.key es × IsSorted es

  Above-trans : (k l : ℕ) (es : List (HashElement V)) → k < l → Above l es → Above k es
  Above-trans k l [] h a = tt
  Above-trans k l (e ∷ es) h a = (omega arith, Above-trans k l es h a.1)

  pub bucket_find-Above :
      (q k : ℕ) (es : List (HashElement V)) → Above k es → q ≤ k → bucket_find q es ≡ none
  unfolding bucket_find
  bucket_find-Above q k [] a h = refl
  bucket_find-Above q k (e ∷ es) a h = ground arith

  bucket_add-Above :
      (k : ℕ) (new : HashElement V) (es : List (HashElement V))
      → k < new.key
      → Above k es
      → OnSome (Above k) (bucket_add new es)
  unfolding bucket_add
  bucket_add-Above k new [] h a = ground arith
  bucket_add-Above k new (x ∷ es) h a = ground (arith, bucket_add-Above k new es h a.1)

  pub bucket_add-IsSorted :
      (new : HashElement V) (es : List (HashElement V))
      → IsSorted es
      → OnSome IsSorted (bucket_add new es)
  unfolding bucket_add
  bucket_add-IsSorted new [] s = ground arith
  bucket_add-IsSorted new (x ∷ es) s = ground (
    arith,
    bucket_add-IsSorted new es s.1,
    λ (h : x.key < new.key). bucket_add-Above x.key new es h s.0,
    λ (h : new.key < x.key). Above-trans new.key x.key es h s.0,
  )

  -- the new bucket, where there is one, maps the new key to the new object
  pub bucket_find-add :
      (q : ℕ) (new : HashElement V) (es : List (HashElement V))
      → IsSorted es
      → OnSome
          (λ bs. bucket_find q bs ≡ (if q == new.key then some new.object else bucket_find q es))
          (bucket_add new es)
  unfolding bucket_add bucket_find
  bucket_find-add q new [] s = ground arith
  bucket_find-add q new (x ∷ es) s =
      ground (arith, bucket_find-add q new es s.1, bucket_find-Above q x.key es s.0)

  -- an element is refused exactly when its key is there
  pub bucket_add-eq-none :
      (new : HashElement V) (es : List (HashElement V))
      → IsSorted es
      → (bucket_add new es ≡ none) ↔ (bucket_find new.key es ≢ none)
  unfolding bucket_add bucket_find
  bucket_add-eq-none new [] s = ground arith
  bucket_add-eq-none new (x ∷ es) s = ground (arith, bucket_add-eq-none new es s.1)

  bucket_remove-Above :
      (k q : ℕ) (es : List (HashElement V))
      → Above k es
      → OnSome (λ (r : V × List (HashElement V)). Above k r.1) (bucket_remove q es)
  unfolding bucket_remove
  bucket_remove-Above k q [] a = ground arith
  bucket_remove-Above k q (x ∷ es) a = ground (arith, bucket_remove-Above k q es a.1)

  pub bucket_remove-IsSorted :
      (q : ℕ) (es : List (HashElement V))
      → IsSorted es
      → OnSome (λ (r : V × List (HashElement V)). IsSorted r.1) (bucket_remove q es)
  unfolding bucket_remove
  bucket_remove-IsSorted q [] s = ground arith
  bucket_remove-IsSorted q (x ∷ es) s =
      ground (arith, bucket_remove-IsSorted q es s.1, bucket_remove-Above x.key q es s.0)

  -- what is taken out is what a lookup finds, and the other keys read as before
  pub bucket_find-remove :
      (k q : ℕ) (es : List (HashElement V))
      → IsSorted es
      → OnSome
          (λ (r : V × List (HashElement V)).
            (bucket_find k es ≡ some r.0)
            × (bucket_find q r.1 ≡ (if q == k then none else bucket_find q es)))
          (bucket_remove k es)
  unfolding bucket_remove bucket_find
  bucket_find-remove k q [] s = ground arith
  bucket_find-remove k q (x ∷ es) s = ground (
    arith,
    bucket_find-remove k q es s.1,
    bucket_find-Above q x.key es s.0,
    bucket_find-Above k x.key es s.0,
  )

  pub bucket_find-remove_none :
      (k : ℕ) (es : List (HashElement V)) → bucket_remove k es ≡ none → bucket_find k es ≡ none
  unfolding bucket_remove bucket_find
  bucket_find-remove_none k [] h = refl
  bucket_find-remove_none k (x ∷ es) h = ground (arith, bucket_find-remove_none k es)
