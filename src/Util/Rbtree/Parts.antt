-- ===== src/Util/Rbtree/Parts.antt =====
-- What the validity of a red-black tree (src/util/rbtree.c) says of one of its nodes, and of the path
-- from that node to the root.
use cserv.Prelude.{ℕ, zero, suc, refl, arith}
use cserv.Util.Rbtree.Tree.{
  Color, red, black, Tree, leaf, node, Ancestors, top, left_of, right_of, plug,
}
use cserv.Util.Rbtree.Erase.{under, leftmost}
use cserv.Util.Rbtree.Colors.{
  Alternates, HasHeight, IsValid, BlackAbove, PathAlternates, PathHeight, Fits, Fits-of_black,
}

pub record Parts {A : Type 0} (t : Tree A) (p : Ancestors A) : Type 0 where
  pub below : ℕ
  pub all : ℕ
  pub alternates : Alternates t
  pub fits : Fits t p
  pub path : PathAlternates p
  pub balanced : HasHeight t below
  pub above : PathHeight p below all

module _ {A : Type 0} where
  left_of_black-Parts :
      (x : A) (r : Tree A) (p : Ancestors A) (t : Tree A) (n m : ℕ)
      → Alternates t × Alternates r
      → PathAlternates p
      → HasHeight (node black t x r) n
      → PathHeight p n m
      → Parts t (left_of black x r p)
  left_of_black-Parts x r p t zero m a pa h ph = absurd h
  left_of_black-Parts x r p t (suc n) m a pa h ph = record {
    below = n;
    all = m;
    alternates = a.0;
    fits = ground arith;
    path = (a.1, pa);
    balanced = h.0;
    above = (h.1, ph);
  }

  right_of_black-Parts :
      (l : Tree A) (x : A) (p : Ancestors A) (t : Tree A) (n m : ℕ)
      → Alternates l × Alternates t
      → PathAlternates p
      → HasHeight (node black l x t) n
      → PathHeight p n m
      → Parts t (right_of black l x p)
  right_of_black-Parts l x p t zero m a pa h ph = absurd h
  right_of_black-Parts l x p t (suc n) m a pa h ph = record {
    below = n;
    all = m;
    alternates = a.1;
    fits = ground arith;
    path = (a.0, pa);
    balanced = h.1;
    above = (h.0, ph);
  }

  -- a node below a node whose parts are known
  left-Parts :
      (c : Color) (x : A) (r : Tree A) (p : Ancestors A) (t : Tree A)
      → Parts (node c t x r) p
      → Parts t (left_of c x r p)
  left-Parts red x r p t q = record {
    below = q.below;
    all = q.all;
    alternates = q.alternates.2;
    fits = Fits-of_black t _ q.alternates.0;
    path = (q.alternates.1, q.fits, q.alternates.3, q.path);
    balanced = q.balanced.0;
    above = (q.balanced.1, q.above);
  }
  left-Parts black x r p t q =
      left_of_black-Parts x r p t q.below q.all q.alternates q.path q.balanced q.above

  pub right-Parts :
      (c : Color) (l : Tree A) (x : A) (p : Ancestors A) (t : Tree A)
      → Parts (node c l x t) p
      → Parts t (right_of c l x p)
  right-Parts red l x p t q = record {
    below = q.below;
    all = q.all;
    alternates = q.alternates.3;
    fits = Fits-of_black t _ q.alternates.1;
    path = (q.alternates.0, q.fits, q.alternates.2, q.path);
    balanced = q.balanced.1;
    above = (q.balanced.0, q.above);
  }
  right-Parts black l x p t q =
      right_of_black-Parts l x p t q.below q.all q.alternates q.path q.balanced q.above

  pub IsValid-Parts : (p : Ancestors A) (t : Tree A) → IsValid (plug p t) → Parts t p
  unfolding plug
  IsValid-Parts top t v = record {
    below = v.height;
    all = v.height;
    alternates = v.alternates;
    fits = Fits-of_black t top v.root;
    path = tt;
    balanced = v.balanced;
    above = refl;
  }
  IsValid-Parts (left_of c x r p) t v = left-Parts c x r p t (IsValid-Parts p (node c t x r) v)
  IsValid-Parts (right_of c l x p) t v = right-Parts c l x p t (IsValid-Parts p (node c l x t) v)

  -- A node with one child is as valid with the child on the other side.
  HasHeight-swapped :
      (c : Color) (t : Tree A) (x : A) (n : ℕ)
      → HasHeight (node c t x leaf) n
      → HasHeight (node c leaf x t) n
  HasHeight-swapped red t x n h = (h.1, h.0)
  HasHeight-swapped black t x zero h = h
  HasHeight-swapped black t x (suc n) h = (h.1, h.0)

  Alternates-swapped :
      (c : Color) (t : Tree A) (x : A) → Alternates (node c t x leaf) → Alternates (node c leaf x t)
  Alternates-swapped red t x a = (a.1, a.0, a.3, a.2)
  Alternates-swapped black t x a = (a.1, a.0)

  Fits-swapped :
      (c : Color) (t : Tree A) (x : A) (p : Ancestors A)
      → Fits (node c t x leaf) p
      → Fits (node c leaf x t) p
  Fits-swapped red t x p f = f
  Fits-swapped black t x p f = f

  pub swapped-Parts :
      (c : Color) (t : Tree A) (x : A) (p : Ancestors A)
      → Parts (node c t x leaf) p
      → Parts (node c leaf x t) p
  swapped-Parts c t x p q = record {
    below = q.below;
    all = q.all;
    alternates = Alternates-swapped c t x q.alternates;
    fits = Fits-swapped c t x p q.fits;
    path = q.path;
    balanced = HasHeight-swapped c t x q.below q.balanced;
    above = q.above;
  }

  -- the leftmost node of a subtree
  pub leftmost-Parts :
      (c : Color) (l : Tree A) (x : A) (r : Tree A) (s p : Ancestors A)
      → Parts (node c l x r) (under s p)
      → let next = leftmost c l x r s in
        Parts (node next.color leaf next.item next.child) (under next.spine p)
  unfolding leftmost under
  leftmost-Parts c leaf x r s p q = q
  leftmost-Parts c (node d ll y lr) x r s p q =
      leftmost-Parts d ll y lr (left_of c x r s) p (left-Parts c x r (under s p) (node d ll y lr) q)

  -- What an ancestor holds does not matter for its colors.
  BlackAbove-replaced :
      (s : Ancestors A) (c : Color) (l : Tree A) (x z : A) (p : Ancestors A)
      → BlackAbove (under s (right_of c l x p))
      → BlackAbove (under s (right_of c l z p))
  unfolding under
  BlackAbove-replaced top red l x z p b = b
  BlackAbove-replaced top black l x z p b = b
  BlackAbove-replaced (left_of red y r s) c l x z p b = b
  BlackAbove-replaced (left_of black y r s) c l x z p b = b
  BlackAbove-replaced (right_of red k y s) c l x z p b = b
  BlackAbove-replaced (right_of black k y s) c l x z p b = b

  path-replaced :
      (s : Ancestors A) (c : Color) (l : Tree A) (x z : A) (p : Ancestors A)
      → PathAlternates (under s (right_of c l x p))
      → PathAlternates (under s (right_of c l z p))
  unfolding under
  path-replaced top red l x z p b = b
  path-replaced top black l x z p b = b
  path-replaced (left_of red y r s) c l x z p b =
      (b.0, BlackAbove-replaced s c l x z p b.1, b.2, path-replaced s c l x z p b.3)
  path-replaced (left_of black y r s) c l x z p b = (b.0, path-replaced s c l x z p b.1)
  path-replaced (right_of red k y s) c l x z p b =
      (b.0, BlackAbove-replaced s c l x z p b.1, b.2, path-replaced s c l x z p b.3)
  path-replaced (right_of black k y s) c l x z p b = (b.0, path-replaced s c l x z p b.1)

  height-replaced :
      (s : Ancestors A) (c : Color) (l : Tree A) (x z : A) (p : Ancestors A) (n m : ℕ)
      → PathHeight (under s (right_of c l x p)) n m
      → PathHeight (under s (right_of c l z p)) n m
  unfolding under
  height-replaced top red l x z p n m b = b
  height-replaced top black l x z p n m b = b
  height-replaced (left_of red y r s) c l x z p n m b = (b.0, height-replaced s c l x z p n m b.1)
  height-replaced (left_of black y r s) c l x z p n m b =
      (b.0, height-replaced s c l x z p (suc n) m b.1)
  height-replaced (right_of red k y s) c l x z p n m b = (b.0, height-replaced s c l x z p n m b.1)
  height-replaced (right_of black k y s) c l x z p n m b =
      (b.0, height-replaced s c l x z p (suc n) m b.1)

  Fits-replaced :
      (t : Tree A) (s : Ancestors A) (c : Color) (l : Tree A) (x z : A) (p : Ancestors A)
      → Fits t (under s (right_of c l x p))
      → Fits t (under s (right_of c l z p))
  Fits-replaced leaf s c l x z p f = tt
  Fits-replaced (node black tl y tr) s c l x z p f = tt
  Fits-replaced (node red tl y tr) s c l x z p f = BlackAbove-replaced s c l x z p f

  pub replaced-Parts :
      (t : Tree A) (s : Ancestors A) (c : Color) (l : Tree A) (x z : A) (p : Ancestors A)
      → Parts t (under s (right_of c l x p))
      → Parts t (under s (right_of c l z p))
  replaced-Parts t s c l x z p q = record {
    below = q.below;
    all = q.all;
    alternates = q.alternates;
    fits = Fits-replaced t s c l x z p q.fits;
    path = path-replaced s c l x z p q.path;
    balanced = q.balanced;
    above = height-replaced s c l x z p q.below q.all q.above;
  }
