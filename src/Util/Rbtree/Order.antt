-- ===== src/Util/Rbtree/Order.antt =====
-- Rotations and recoloring do not change the order of the tree: the functions of
-- src/util/rbtree.c insert one element into the sequence.
use mathlib.Core.List.{append_assoc, append-nil}
use cserv.Prelude.{◌≡◌, refl, sym, ap, ◌∙◌, List, [], ◌∷◌, ◌++◌}
use cserv.Util.Rbtree.Tree.{
  red, black, Tree, leaf, node, Ancestors, top, left_of, right_of, plug, set_black, rotate_left,
  rotate_right,
}
use cserv.Util.Rbtree.Insert.{rise_left, rise_right, insert_loop, rb_insert_color, rb_link_node}

module _ {A : Type 0} where
  abbrev pub inorder : Tree A → List A
  inorder leaf = []
  inorder (node c l x r) = inorder l ++ (x ∷ inorder r)

  -- what is in front of a node, and what is behind it
  abbrev pub before : Ancestors A → List A
  before top = []
  before (left_of c x r p) = before p
  before (right_of c l x p) = before p ++ (inorder l ++ x ∷ [])

  abbrev pub after : Ancestors A → List A
  after top = []
  after (left_of c x r p) = x ∷ (inorder r ++ after p)
  after (right_of c l x p) = after p

  pub inorder-plug :
      (p : Ancestors A) (t : Tree A) → inorder (plug p t) ≡ before p ++ (inorder t ++ after p)
  unfolding plug
  inorder-plug top t = sym (append-nil (inorder t))
  inorder-plug (left_of c x r p) t = inorder-plug p (node c t x r) ∙ simp append_assoc
  inorder-plug (right_of c l x p) t = inorder-plug p (node c l x t) ∙ simp append_assoc

  pub plug-cong :
      (p : Ancestors A) (s t : Tree A)
      → inorder s ≡ inorder t
      → inorder (plug p s) ≡ inorder (plug p t)
  plug-cong p s t e =
      inorder-plug p s ∙ ap (λ w. before p ++ (w ++ after p)) e ∙ sym (inorder-plug p t)

  pub inorder-set_black : (t : Tree A) → inorder (set_black t) ≡ inorder t
  inorder-set_black leaf = refl
  inorder-set_black (node c l x r) = refl

  pub inorder-rotate_left : (t : Tree A) → inorder (rotate_left t) ≡ inorder t
  unfolding rotate_left
  inorder-rotate_left leaf = refl
  inorder-rotate_left (node c l x leaf) = refl
  inorder-rotate_left (node c l x (node d rl y rr)) = simp append_assoc

  pub inorder-rotate_right : (t : Tree A) → inorder (rotate_right t) ≡ inorder t
  unfolding rotate_right
  inorder-rotate_right leaf = refl
  inorder-rotate_right (node c leaf x r) = refl
  inorder-rotate_right (node c (node d ll y lr) x r) = simp append_assoc

  inorder-rise_left :
      (t : Tree A) (x : A) (u : Tree A) → inorder (rise_left t x u) ≡ inorder t ++ (x ∷ inorder u)
  unfolding rise_left
  inorder-rise_left t x u =
      inorder-rotate_right (node red (set_black t) x u)
      ∙ ap (λ w. w ++ (x ∷ inorder u)) (inorder-set_black t)

  inorder-rise_right :
      (u : Tree A) (x : A) (t : Tree A) → inorder (rise_right u x t) ≡ inorder u ++ (x ∷ inorder t)
  unfolding rise_right
  inorder-rise_right u x t =
      inorder-rotate_left (node red u x (set_black t))
      ∙ ap (λ w. inorder u ++ (x ∷ w)) (inorder-set_black t)

  inorder-rise_left_inner :
      (t : Tree A) (x : A) (u : Tree A)
      → inorder (rise_left (rotate_left t) x u) ≡ inorder t ++ (x ∷ inorder u)
  inorder-rise_left_inner t x u =
      inorder-rise_left (rotate_left t) x u ∙ ap (λ w. w ++ (x ∷ inorder u)) (inorder-rotate_left t)

  inorder-rise_right_inner :
      (u : Tree A) (x : A) (t : Tree A)
      → inorder (rise_right u x (rotate_right t)) ≡ inorder u ++ (x ∷ inorder t)
  inorder-rise_right_inner u x t =
      inorder-rise_right u x (rotate_right t)
      ∙ ap (λ w. inorder u ++ (x ∷ w)) (inorder-rotate_right t)

  inorder-insert_loop :
      (t : Tree A) (p : Ancestors A) → inorder (insert_loop t p) ≡ inorder (plug p t)
  unfolding insert_loop plug
  inorder-insert_loop t top = refl
  inorder-insert_loop t (left_of black x r p) = refl
  inorder-insert_loop t (right_of black l x p) = refl
  inorder-insert_loop t (left_of red x r top) = refl
  inorder-insert_loop t (right_of red l x top) = refl
  inorder-insert_loop t (left_of red x r (left_of gc gx (node red ul u ur) gp)) =
      inorder-insert_loop (node red (node black t x r) gx (node black ul u ur)) gp
      ∙ plug-cong gp _ _ refl
  inorder-insert_loop t (left_of red x r (left_of gc gx leaf gp)) =
      plug-cong gp _ _ (inorder-rise_left (node red t x r) gx leaf)
  inorder-insert_loop t (left_of red x r (left_of gc gx (node black ul u ur) gp)) =
      plug-cong gp _ _ (inorder-rise_left (node red t x r) gx (node black ul u ur))
  inorder-insert_loop t (right_of red l x (left_of gc gx (node red ul u ur) gp)) =
      inorder-insert_loop (node red (node black l x t) gx (node black ul u ur)) gp
      ∙ plug-cong gp _ _ refl
  inorder-insert_loop t (right_of red l x (left_of gc gx leaf gp)) =
      plug-cong gp _ _ (inorder-rise_left_inner (node red l x t) gx leaf)
  inorder-insert_loop t (right_of red l x (left_of gc gx (node black ul u ur) gp)) =
      plug-cong gp _ _ (inorder-rise_left_inner (node red l x t) gx (node black ul u ur))
  inorder-insert_loop t (right_of red l x (right_of gc (node red ul u ur) gx gp)) =
      inorder-insert_loop (node red (node black ul u ur) gx (node black l x t)) gp
      ∙ plug-cong gp _ _ refl
  inorder-insert_loop t (right_of red l x (right_of gc leaf gx gp)) =
      plug-cong gp _ _ (inorder-rise_right leaf gx (node red l x t))
  inorder-insert_loop t (right_of red l x (right_of gc (node black ul u ur) gx gp)) =
      plug-cong gp _ _ (inorder-rise_right (node black ul u ur) gx (node red l x t))
  inorder-insert_loop t (left_of red x r (right_of gc (node red ul u ur) gx gp)) =
      inorder-insert_loop (node red (node black ul u ur) gx (node black t x r)) gp
      ∙ plug-cong gp _ _ refl
  inorder-insert_loop t (left_of red x r (right_of gc leaf gx gp)) =
      plug-cong gp _ _ (inorder-rise_right_inner leaf gx (node red t x r))
  inorder-insert_loop t (left_of red x r (right_of gc (node black ul u ur) gx gp)) =
      plug-cong gp _ _ (inorder-rise_right_inner (node black ul u ur) gx (node red t x r))

  -- `rb_link_node` and `rb_insert_color` put the new element, and nothing else, where the search has
  -- ended: behind what is in front of that place, and in front of what is behind it.
  pub rb_insert_color-inorder :
      (x : A) (p : Ancestors A)
      → inorder (rb_insert_color (rb_link_node x) p) ≡ before p ++ (x ∷ after p)
  unfolding rb_insert_color rb_link_node
  rb_insert_color-inorder x p =
      inorder-set_black (insert_loop (node red leaf x leaf) p)
      ∙ inorder-insert_loop (node red leaf x leaf) p
      ∙ inorder-plug p (node red leaf x leaf)
