-- ===== src/Util/Links/Segment.antt =====
-- Pieces of the lists of src/util/list.h, and what leaves them alone.
use mathlib.Core.Path.{subst}
use mathlib.Core.List.{append_assoc}
use cserv.Prelude.{
  ◌⊎◌, inl, inr, ℕ, ◌≤◌, ◌≡◌, refl, sym, ap, ◌∙◌, arith, List, [], ◌∷◌, ◌++◌, count,
}
use cserv.Util.Links.Defs.{Heap, put}

-- from `a` on, `next` leads over the entries `xs` to `b`, and `prev` back
abbrev pub Seg : Heap → ℕ → List ℕ → ℕ → Type 0
Seg h a [] b = (h.next a ≡ b) × (h.prev b ≡ a)
Seg h a (x ∷ xs) b = (h.next a ≡ x) × (h.prev x ≡ a) × Seg h x xs b

-- the fields agree on these entries
abbrev pub Same : (ℕ → ℕ) → (ℕ → ℕ) → List ℕ → Type 0
Same f g [] = Unit
Same f g (k ∷ ks) = (f k ≡ g k) × Same f g ks

pub put-Same : (f : ℕ → ℕ) (p v : ℕ) (ks : List ℕ) → count p ks ≡ 0 → Same (put f p v) f ks
put-Same f p v [] c = tt
put-Same f p v (k ∷ ks) c = (ground (arith, c), put-Same f p v ks (ground (arith, c)))

pub Same-trans : (f g h : ℕ → ℕ) (ks : List ℕ) → Same f g ks → Same g h ks → Same f h ks
Same-trans f g h [] a b = tt
Same-trans f g h (k ∷ ks) (e, a) (e', b) = (e ∙ e', Same-trans f g h ks a b)

-- two assignments
pub puts-Same :
    (f : ℕ → ℕ) (p v q w : ℕ) (ks : List ℕ)
    → count p ks ≡ 0
    → count q ks ≡ 0
    → Same (put (put f p v) q w) f ks
puts-Same f p v q w ks c d =
    Same-trans (put (put f p v) q w) (put f p v) f ks (put-Same (put f p v) q w ks d)
      (put-Same f p v ks c)

pub Same-Seg :
    (h h' : Heap) (a : ℕ) (xs : List ℕ) (b : ℕ)
    → Same h'.next h.next (a ∷ xs)
    → Same h'.prev h.prev (xs ++ (b ∷ []))
    → Seg h a xs b
    → Seg h' a xs b
Same-Seg h h' a [] b (e, n) (f, p) (s, t) = (e ∙ s, f ∙ t)
Same-Seg h h' a (x ∷ xs) b (e, n) (f, p) (s, t, r) = (e ∙ s, f ∙ t, Same-Seg h h' x xs b n p r)

-- a piece that is reached from another entry
pub restart-Seg :
    (h h' : Heap) (a c : ℕ) (xs : List ℕ) (b : ℕ)
    → h'.next c ≡ h.next a
    → h'.prev (h.next a) ≡ c
    → Same h'.next h.next xs
    → ((x : ℕ) (ys : List ℕ) → xs ≡ x ∷ ys → h.next a ≡ x → Same h'.prev h.prev (ys ++ (b ∷ [])))
    → Seg h a xs b
    → Seg h' c xs b
restart-Seg h h' a c [] b e f n p (s, t) = (e ∙ s, ap h'.prev (sym s) ∙ f)
restart-Seg h h' a c (x ∷ xs) b e f n p (s, t, r) =
    (e ∙ s, ap h'.prev (sym s) ∙ f, Same-Seg h h' x xs b n (p x xs refl s) r)

pub Seg-append :
    (h : Heap) (a : ℕ) (xs : List ℕ) (p : ℕ) (ys : List ℕ) (b : ℕ)
    → Seg h a xs p
    → Seg h p ys b
    → Seg h a (xs ++ (p ∷ ys)) b
Seg-append h a [] p ys b (s, t) r = (s, t, r)
Seg-append h a (x ∷ xs) p ys b (s, t, q) r = (s, t, Seg-append h x xs p ys b q r)

pub Seg-split :
    (h : Heap) (a : ℕ) (xs : List ℕ) (p : ℕ) (ys : List ℕ) (b : ℕ)
    → Seg h a (xs ++ (p ∷ ys)) b
    → Seg h a xs p × Seg h p ys b
Seg-split h a [] p ys b (s, t, r) = ((s, t), r)
Seg-split h a (x ∷ xs) p ys b (s, t, q) = let (l, r) = Seg-split h x xs p ys b q in ((s, t, l), r)

-- `next` of the beginning is one of the piece, and `prev` of the end
pub first-count :
    (h : Heap) (a : ℕ) (xs : List ℕ) (b : ℕ) → Seg h a xs b → 1 ≤ count (h.next a) (xs ++ (b ∷ []))
first-count h a [] b (s, t) = ground (arith, s)
first-count h a (x ∷ xs) b (s, t, r) = ground (arith, s)

pub last-count :
    (h : Heap) (a : ℕ) (xs : List ℕ) (b : ℕ) → Seg h a xs b → 1 ≤ count (h.prev b) (a ∷ xs)
last-count h a [] b (s, t) = ground (arith, t)
last-count h a (x ∷ xs) b (s, t, r) = ground (arith, last-count h x xs b r)

last_of : (xs : List ℕ) → (xs ≡ []) ⊎ ((ys : List ℕ) × (p : ℕ) × (xs ≡ ys ++ (p ∷ [])))
last_of [] = inl refl
last_of (x ∷ xs) = elim (last_of xs) [
  | inl e ↦ inr ([], x, ap (◌∷◌ x) e)
  | inr r ↦ let (ys, p, e) = r in inr (x ∷ ys, p, ap (◌∷◌ x) e)
]

-- a piece whose last entry goes on to other entries
pub join-Seg :
    (h h' : Heap) (a : ℕ) (xs : List ℕ) (e : ℕ) (zs : List ℕ) (b : ℕ)
    → ((us : List ℕ) (p : ℕ)
        → xs ≡ us ++ (p ∷ [])
        → h.prev e ≡ p
        → Same h'.next h.next (a ∷ us) × Same h'.prev h.prev (us ++ (p ∷ [])))
    → Seg h a xs e
    → Seg h' (h.prev e) zs b
    → Seg h' a (xs ++ zs) b
join-Seg h h' a xs e zs b same s r = elim (last_of xs) [
  | inl i ↦
      let none_between : Seg h a [] e = subst (λ x. Seg h a x e) i s in
      subst (λ x. Seg h' a (x ++ zs) b) (sym i) (subst (λ p. Seg h' p zs b) none_between.1 r)
  | inr k ↦
      let (us, p, i) = k in
      let (l, m) = Seg-split h a us p [] e (subst (λ x. Seg h a x e) i s) in
      let (n, q) = same us p i m.1 in
      subst (λ x. Seg h' a x b) (sym (ap (λ x. x ++ zs) i ∙ append_assoc us (p ∷ []) zs))
        (Seg-append h' a us p zs b (Same-Seg h h' a us p n q l) (subst (λ x. Seg h' x zs b) m.1 r))
]
