-- ===== src/Coro/SearchLaws.antt =====
-- The searches of src/coro/sched.c find a key that stands in the tree, and the place of one that
-- does not, when the tree is sorted.
use cserv.Prelude.{
  ℕ, ◌<◌, ◌≡◌, ◌≢◌, refl, sym, ◌∙◌, arith, none, some, List, [], ◌∷◌, ◌++◌, Every, Every-append,
  Every-split, Every-map, less, equal, greater, compared,
}
use cserv.Util.Rbtree.Tree.{Color, Tree, leaf, node, Ancestors, left_of, right_of, plug}
use cserv.Util.Rbtree.Order.{inorder, before, after}
use cserv.Coro.Search.{Focus, locate, descend}

module _ {A : Type 0} (key : A → ℕ) where
  abbrev pub Above : ℕ → List A → Type 0
  Above k = Every (λ x. k < key x)

  abbrev pub Below : ℕ → List A → Type 0
  Below k = Every (λ x. key x < k)

  abbrev pub Lacks : ℕ → List A → Type 0
  Lacks k = Every (λ x. key x ≢ k)

  abbrev pub IsSorted : List A → Type 0
  IsSorted [] = Unit
  IsSorted (x ∷ xs) = Above (key x) xs × IsSorted xs

  pub Above-trans : (j k : ℕ) (xs : List A) → j < k → Above k xs → Above j xs
  Above-trans j k xs h = Every-map _ _ xs (λ x a. omega (arith, h, a))

  pub IsSorted-insert :
      (xs : List A) (x : A) (ys : List A)
      → IsSorted (xs ++ ys)
      → Below (key x) xs
      → Above (key x) ys
      → IsSorted (xs ++ (x ∷ ys))
  IsSorted-insert [] x ys s b a = (a, s)
  IsSorted-insert (y ∷ xs) x ys s b a =
      let (h, t) = Every-split _ xs ys s.0 in
      (Every-append _ xs (x ∷ ys) h (b.0, t), IsSorted-insert xs x ys s.1 b.1 a)

  pub IsSorted-split :
      (xs : List A) (x : A) (ys : List A)
      → IsSorted (xs ++ (x ∷ ys))
      → IsSorted (xs ++ ys) × Below (key x) xs × Above (key x) ys × IsSorted xs × IsSorted ys
  IsSorted-split [] x ys s = (s.1, tt, s.0, tt, s.1)
  IsSorted-split (y ∷ xs) x ys s =
      let (h, t) = Every-split _ xs (x ∷ ys) s.0 in
      let (r, b, a, sx, sy) = IsSorted-split xs x ys s.1 in
      ((Every-append _ xs ys h t.1, r), (t.0, b), a, (h, sx), sy)

  -- one round of each search
  locate-less :
      (k : ℕ) (c : Color) (l : Tree A) (y : A) (r : Tree A) (p : Ancestors A)
      → k < key y
      → locate key k (node c l y r) p ≡ locate key k l (left_of c y r p)
  unfolding locate
  locate-less k c l y r p h = ground (arith, h)

  locate-greater :
      (k : ℕ) (c : Color) (l : Tree A) (y : A) (r : Tree A) (p : Ancestors A)
      → key y < k
      → locate key k (node c l y r) p ≡ locate key k r (right_of c l y p)
  unfolding locate
  locate-greater k c l y r p h = ground (arith, h)

  locate-equal :
      (k : ℕ) (c : Color) (l : Tree A) (y : A) (r : Tree A) (p : Ancestors A)
      → k ≡ key y
      → locate key k (node c l y r) p
        ≡ some (record { color = c; left = l; item = y; right = r; path = p })
  unfolding locate
  locate-equal k c l y r p h = ground (arith, h)

  descend-less :
      (k : ℕ) (c : Color) (l : Tree A) (y : A) (r : Tree A) (p : Ancestors A)
      → k < key y
      → descend key k (node c l y r) p ≡ descend key k l (left_of c y r p)
  unfolding descend
  descend-less k c l y r p h = ground (arith, h)

  descend-greater :
      (k : ℕ) (c : Color) (l : Tree A) (y : A) (r : Tree A) (p : Ancestors A)
      → key y < k
      → descend key k (node c l y r) p ≡ descend key k r (right_of c l y p)
  unfolding descend
  descend-greater k c l y r p h = ground (arith, h)

  -- what a search says when the tree is sorted
  pub data Located (k : ℕ) (t : Tree A) (p : Ancestors A) : Type 0 where
    absent : locate key k t p ≡ none → Lacks k (inorder t) → Located k t p
    present :
        (at : Focus A)
        → locate key k t p ≡ some at
        → k ≡ key at.item
        → plug at.path (node at.color at.left at.item at.right) ≡ plug p t
        → Located k t p

  pub located : (k : ℕ) (t : Tree A) (p : Ancestors A) → IsSorted (inorder t) → Located k t p
  unfolding plug
  located k leaf p s = absent (unfold locate in refl) tt
  located k (node c l y r) p s =
      let (both, b, a, sl, sr) = IsSorted-split (inorder l) y (inorder r) s in
      elim (compared k (key y)) [
        | less h ↦ elim (located k l (left_of c y r p) sl) [
          | absent e n ↦ absent (locate-less k c l y r p h ∙ e) (
              Every-append _ (inorder l) (y ∷ inorder r) n
                (ground (arith, h), Every-map _ _ (inorder r) (λ x g. ground (arith, h, g)) a))
          | present at e i q ↦ present at (locate-less k c l y r p h ∙ e) i q
        ]
        | greater h ↦ elim (located k r (right_of c l y p) sr) [
          | absent e n ↦ absent (locate-greater k c l y r p h ∙ e) (
              Every-append _ (inorder l) (y ∷ inorder r)
                (Every-map _ _ (inorder l) (λ x g. ground (arith, h, g)) b) (ground (arith, h), n))
          | present at e i q ↦ present at (locate-greater k c l y r p h ∙ e) i q
        ]
        | equal h ↦ present _ (locate-equal k c l y r p h) h refl
      ]

  -- the place of a new key, and the tree that it is in
  pub record Descended (k : ℕ) (t : Tree A) (p q : Ancestors A) : Type 0 where
    pub place : plug q leaf ≡ plug p t
    pub below : Below k (before q)
    pub above : Above k (after q)

  pub Descended-left :
      (k : ℕ) (c : Color) (l : Tree A) (y : A) (r : Tree A) (p q : Ancestors A)
      → Descended k l (left_of c y r p) q
      → Descended k (node c l y r) p q
  unfolding plug
  Descended-left k c l y r p q d = record { place = d.place; below = d.below; above = d.above }

  pub Descended-right :
      (k : ℕ) (c : Color) (l : Tree A) (y : A) (r : Tree A) (p q : Ancestors A)
      → Descended k r (right_of c l y p) q
      → Descended k (node c l y r) p q
  unfolding plug
  Descended-right k c l y r p q d = record { place = d.place; below = d.below; above = d.above }

  pub descended :
      (k : ℕ) (t : Tree A) (p : Ancestors A)
      → IsSorted (inorder t)
      → Lacks k (inorder t)
      → Below k (before p)
      → Above k (after p)
      → Descended k t p (descend key k t p)
  descended k leaf p s n bp pa = unfold descend in record { place = refl; below = bp; above = pa }
  descended k (node c l y r) p s n bp pa =
      let (both, b, a, sl, sr) = IsSorted-split (inorder l) y (inorder r) s in
      let (nl, nr) = Every-split _ (inorder l) (y ∷ inorder r) n in
      elim (compared k (key y)) [
        | less h ↦ rw (descend-less k c l y r p h) (
            Descended-left k c l y r p _ (
              descended k l (left_of c y r p) sl nl bp (
                h,
                Every-append _ (inorder r) (after p) (Above-trans k (key y) (inorder r) h a) pa,
              )))
        | greater h ↦ rw (descend-greater k c l y r p h) (
            Descended-right k c l y r p _ (
              descended k r (right_of c l y p) sr nr.1
                (Every-append _ (before p) (inorder l ++ (y ∷ [])) bp (
                  Every-append _ (inorder l) (y ∷ [])
                    (Every-map _ _ (inorder l) (λ x g. omega (arith, h, g)) b) (h, tt)))
                pa))
        | equal h ↦ absurd (nr.0 (sym h))
      ]
