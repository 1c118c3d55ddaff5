-- ===== src/Util/Rbtree/Colors.antt =====
-- The invariant of a red-black tree (src/util/rbtree.c): no red node has a red child, and every way
-- down from a node passes the same number of black nodes.
use cserv.Prelude.{ℕ, zero, suc, ◌≡◌, refl, arith, true}
use cserv.Util.Rbtree.Tree.{
  red, black, Tree, leaf, node, Ancestors, top, left_of, right_of, plug, set_black,
}
use cserv.Util.Rbtree.Erase.{is_black}

module _ {A : Type 0} where
  -- no red node has a red child
  abbrev pub Alternates : Tree A → Type 0
  Alternates leaf = Unit
  Alternates (node red l x r) =
      (is_black l ≡ true) × (is_black r ≡ true) × Alternates l × Alternates r
  Alternates (node black l x r) = Alternates l × Alternates r

  -- every way down passes `n` black nodes
  abbrev pub HasHeight : Tree A → ℕ → Type 0
  HasHeight leaf n = n ≡ 0
  HasHeight (node red l x r) n = HasHeight l n × HasHeight r n
  HasHeight (node black l x r) zero = ⊥
  HasHeight (node black l x r) (suc n) = HasHeight l n × HasHeight r n

  pub record IsValid (t : Tree A) : Type 0 where
    pub root : is_black t ≡ true
    pub alternates : Alternates t
    pub height : ℕ
    pub balanced : HasHeight t height

  -- the nearest ancestor is there, and black
  abbrev pub BlackAbove : Ancestors A → Type 0
  BlackAbove top = ⊥
  BlackAbove (left_of black x r p) = Unit
  BlackAbove (right_of black l x p) = Unit
  BlackAbove _ = ⊥

  -- the ancestors alternate, and the root is black
  abbrev pub PathAlternates : Ancestors A → Type 0
  PathAlternates top = Unit
  PathAlternates (left_of red x r p) =
      (is_black r ≡ true) × BlackAbove p × Alternates r × PathAlternates p
  PathAlternates (right_of red l x p) =
      (is_black l ≡ true) × BlackAbove p × Alternates l × PathAlternates p
  PathAlternates (left_of black x r p) = Alternates r × PathAlternates p
  PathAlternates (right_of black l x p) = Alternates l × PathAlternates p

  -- with `n` black nodes below the path there are `m` below the root
  abbrev pub PathHeight : Ancestors A → ℕ → ℕ → Type 0
  PathHeight top n m = n ≡ m
  PathHeight (left_of red x r p) n m = HasHeight r n × PathHeight p n m
  PathHeight (right_of red l x p) n m = HasHeight l n × PathHeight p n m
  PathHeight (left_of black x r p) n m = HasHeight r n × PathHeight p (suc n) m
  PathHeight (right_of black l x p) n m = HasHeight l n × PathHeight p (suc n) m

  -- a red node is not under a red one, and is not the root
  abbrev pub Fits : Tree A → Ancestors A → Type 0
  Fits (node red l x r) p = BlackAbove p
  Fits _ p = Unit

  Fits-black : (t : Tree A) (p : Ancestors A) → Fits t p → (BlackAbove p → ⊥) → is_black t ≡ true
  Fits-black leaf p f h = refl
  Fits-black (node black l x r) p f h = refl
  Fits-black (node red l x r) p f h = absurd (h f)

  pub Fits-of_black : (t : Tree A) (p : Ancestors A) → is_black t ≡ true → Fits t p
  Fits-of_black leaf p e = tt
  Fits-of_black (node black l x r) p e = tt
  Fits-of_black (node red l x r) p e = absurd (ground arith)

  pub plug-IsValid :
      (p : Ancestors A) (t : Tree A) (n m : ℕ)
      → Alternates t
      → Fits t p
      → PathAlternates p
      → HasHeight t n
      → PathHeight p n m
      → IsValid (plug p t)
  unfolding plug
  plug-IsValid top t n m a f pa h ph = record {
    root = Fits-black t top f (λ z. z);
    alternates = a;
    height = n;
    balanced = h;
  }
  plug-IsValid (left_of black x r p) t n m a f pa h ph =
      plug-IsValid p (node black t x r) (suc n) m (a, pa.0) tt pa.1 (h, ph.0) ph.1
  plug-IsValid (right_of black l x p) t n m a f pa h ph =
      plug-IsValid p (node black l x t) (suc n) m (pa.0, a) tt pa.1 (ph.0, h) ph.1
  plug-IsValid (left_of red x r p) t n m a f pa h ph =
      plug-IsValid p (node red t x r) n m
        (Fits-black t (left_of red x r p) f (λ z. z), pa.0, a, pa.2) pa.1 pa.3 (h, ph.0) ph.1
  plug-IsValid (right_of red l x p) t n m a f pa h ph =
      plug-IsValid p (node red l x t) n m
        (pa.0, Fits-black t (right_of red l x p) f (λ z. z), pa.2, a) pa.1 pa.3 (ph.0, h) ph.1

  pub set_black-IsValid : (t : Tree A) → IsValid t → IsValid (set_black t)
  set_black-IsValid leaf v = v
  set_black-IsValid (node black l x r) v = v
  set_black-IsValid (node red l x r) v = absurd (ground (arith, v.root))

  pub set_black-Alternates : (t : Tree A) → Alternates t → Alternates (set_black t)
  set_black-Alternates leaf a = tt
  set_black-Alternates (node black l x r) a = a
  set_black-Alternates (node red l x r) a = (a.2, a.3)

  pub is_black-set_black : (t : Tree A) → is_black (set_black t) ≡ true
  is_black-set_black leaf = refl
  is_black-set_black (node c l x r) = refl

  -- a tree whose root has just become black
  pub root-IsValid : (t : Tree A) (n : ℕ) → Alternates t → HasHeight t n → IsValid (set_black t)
  root-IsValid leaf n a h = record { root = refl; alternates = tt; height = n; balanced = h }
  root-IsValid (node black l x r) n a h = record {
    root = refl;
    alternates = a;
    height = n;
    balanced = h;
  }
  root-IsValid (node red l x r) n a h = record {
    root = refl;
    alternates = (a.2, a.3);
    height = suc n;
    balanced = h;
  }
