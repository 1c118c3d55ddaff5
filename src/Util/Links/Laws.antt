-- ===== src/Util/Links/Laws.antt =====
-- The lists of src/util/list.h as lists: what the functions make of the entries.
use cserv.Prelude.{
  ℕ, zero, suc, ◌+◌, ◌≤◌, ◌<◌, ◌≡◌, ◌≢◌, ◌↔◌, refl, sym, ap, arith, true, false, List, [], ◌∷◌,
  ◌++◌, ◌==◌, one_at, count, count-append, length,
}
use cserv.Util.Links.Defs.{
  Heap, init_list_head, list_add_between, list_add, list_add_tail, list_del_between, list_del,
  list_del_init, list_empty, list_for_each_entry,
}
use cserv.Util.Links.Segment.{
  Seg, put-Same, puts-Same, Same-Seg, restart-Seg, join-Seg, first-count, last-count, Seg-split,
}

-- the head with its entries, each of them once
pub record IsList (h : Heap) (head : ℕ) (xs : List ℕ) : Type 0 where
  pub links : Seg h head xs head
  pub once : (k : ℕ) → count k (head ∷ xs) ≤ 1

-- an entry that is reached is one of the piece
Seg-first :
    (h : Heap) (a : ℕ) (xs : List ℕ) (b n : ℕ)
    → Seg h a xs b
    → count n (xs ++ (b ∷ [])) ≡ 0
    → h.next a ≢ n
Seg-first h a [] b n (s, t) c e = ground (arith, s, e, c)
Seg-first h a (x ∷ xs) b n (s, t, r) c e = ground (arith, s, e, c)

-- an entry that is not in the list is not behind its first entry
rest-counts :
    (k y head : ℕ) (xs ys : List ℕ)
    → xs ≡ y ∷ ys
    → count k (head ∷ xs) ≡ 0
    → count k (ys ++ (head ∷ [])) ≡ 0
rest-counts k y head xs ys e c =
    rw (count-append k ys (head ∷ [])) (ground (arith, c, ap (count k) e))

-- neither is the first entry
first-counts :
    (x y head : ℕ) (xs ys : List ℕ)
    → xs ≡ y ∷ ys
    → x ≡ y
    → ((k : ℕ) → count k (head ∷ xs) ≤ 1)
    → count x (ys ++ (head ∷ [])) ≡ 0
first-counts x y head xs ys e f once =
    rw (count-append x ys (head ∷ [])) (ground (arith, once x, ap (count x) e, f))

-- `list_add` puts a new entry in front.
pub list_add-IsList :
    (h : Heap) (head n : ℕ) (xs : List ℕ)
    → IsList h head xs
    → count n (head ∷ xs) ≡ 0
    → IsList (list_add n head h) head (n ∷ xs)
unfolding list_add list_add_between
list_add-IsList h head n xs v c =
    let far : h.next head ≢ n =
      Seg-first h head xs head n v.links (rw (count-append n xs (head ∷ [])) (omega (arith, c))) in
    let rest : Seg (list_add n head h) n xs head =
      restart-Seg h (list_add n head h) head n xs head (ground (arith, c)) (ground (arith, far))
        (puts-Same h.next n (h.next head) head n xs (omega (arith, c))
          (ground (arith, v.once head)))
        (λ x ys e f.
          puts-Same h.prev (h.next head) n n head (ys ++ (head ∷ []))
            (first-counts (h.next head) x head xs ys e f v.once) (rest-counts n x head xs ys e c))
        v.links in
    record { links = (ground arith, ground arith, rest); once = (λ k. ground (arith, c, v.once k)) }

-- the last entry among the others
snoc-count :
    (k p : ℕ) (xs us : List ℕ) → xs ≡ us ++ (p ∷ []) → count k (us ++ (p ∷ [])) ≡ count k xs
snoc-count k p xs us e = sym (ap (count k) e)

front-count :
    (k p : ℕ) (xs us : List ℕ) → xs ≡ us ++ (p ∷ []) → count k us + one_at k p ≡ count k xs
front-count k p xs us e = omega (arith, count-append k us (p ∷ []), snoc-count k p xs us e)

-- `list_add_tail` puts a new entry at the end.
pub list_add_tail-IsList :
    (h : Heap) (head n : ℕ) (xs : List ℕ)
    → IsList h head xs
    → count n (head ∷ xs) ≡ 0
    → IsList (list_add_tail n head h) head (xs ++ (n ∷ []))
unfolding list_add_tail list_add_between
list_add_tail-IsList h head n xs v c =
    let l = last-count h head xs head v.links in
    let far : h.prev head ≢ n = ground (arith, l, c) in
    record {
      links =
          join-Seg h (list_add_tail n head h) head xs head (n ∷ []) head
            (λ us p i f. (
              puts-Same h.next n head (h.prev head) n (head ∷ us)
                  (omega (arith, c, front-count n p xs us i))
                  (ground (arith, f, v.once (h.prev head), front-count (h.prev head) p xs us i)),
              puts-Same h.prev head n n (h.prev head) (us ++ (p ∷ []))
                  (ground (arith, snoc-count head p xs us i, v.once head))
                  (omega (arith, snoc-count n p xs us i, c)),
            ))
            v.links (ground arith, ground arith, (ground (arith, far), ground (arith, c)));
      once = (λ k. rw (count-append k xs (n ∷ [])) (ground (arith, c, v.once k)));
    }

-- `list_del` takes an entry out, wherever it stands.
pub list_del-IsList :
    (h : Heap) (head e : ℕ) (xs ys : List ℕ)
    → IsList h head (xs ++ (e ∷ ys))
    → IsList (list_del e h) head (xs ++ ys)
unfolding list_del list_del_between
list_del-IsList h head e xs ys v =
    let (s, t) = Seg-split h head xs e ys head v.links in
    let l = last-count h head xs e s in
    let f = first-count h e ys head t in
    let each : (k : ℕ) → one_at k head + count k xs + one_at k e + count k ys ≤ 1 =
      (λ k. omega (arith, v.once k, count-append k xs (e ∷ ys))) in
    let behind : (k : ℕ) → count k (ys ++ (head ∷ [])) ≡ count k ys + one_at k head =
      (λ k. omega (arith, count-append k ys (head ∷ []))) in
    let rest : Seg (list_del e h) (h.prev e) ys head =
      restart-Seg h (list_del e h) e (h.prev e) ys head (ground arith) (ground arith)
        (put-Same h.next (h.prev e) (h.next e) ys (omega (arith, l, each (h.prev e))))
        (λ x zs i j.
          put-Same h.prev (h.next e) (h.prev e) (zs ++ (head ∷ []))
            (first-counts (h.next e) x head ys zs i j (λ k. omega (arith, each k))))
        t in
    record {
      links =
          join-Seg h (list_del e h) head xs e ys head
            (λ us p i j. (
              put-Same h.next (h.prev e) (h.next e) (head ∷ us)
                  (ground (arith, j, each (h.prev e), front-count (h.prev e) p xs us i)),
              put-Same h.prev (h.next e) (h.prev e) (us ++ (p ∷ [])) (
                  omega (
                    arith,
                    snoc-count (h.next e) p xs us i,
                    f,
                    each (h.next e),
                    behind (h.next e),
                  )),
            ))
            s rest;
      once = (λ k. omega (arith, each k, count-append k xs ys));
    }

-- a list is left alone by what is done to entries outside of it
init-IsList :
    (h : Heap) (head e : ℕ) (xs : List ℕ)
    → count e (head ∷ xs) ≡ 0
    → IsList h head xs
    → IsList (init_list_head e h) head xs
unfolding init_list_head
init-IsList h head e xs c v = record {
  links =
      Same-Seg h (init_list_head e h) head xs head (put-Same h.next e e (head ∷ xs) c)
        (put-Same h.prev e e (xs ++ (head ∷ [])) (omega (arith, c, count-append e xs (head ∷ []))))
        v.links;
  once = v.once;
}

-- `init_list_head` makes an empty list of an entry, whatever it was before.
pub init_list_head-IsList : (h : Heap) (head : ℕ) → IsList (init_list_head head h) head []
unfolding init_list_head
init_list_head-IsList h head = record {
  links = (ground arith, ground arith);
  once = (λ k. ground arith);
}

-- `list_del_init` takes an entry out as well, and makes it an empty list of its own.
pub list_del_init-IsList :
    (h : Heap) (head e : ℕ) (xs ys : List ℕ)
    → IsList h head (xs ++ (e ∷ ys))
    → IsList (list_del_init e h) head (xs ++ ys) × IsList (list_del_init e h) e []
unfolding list_del_init
list_del_init-IsList h head e xs ys v =
    let w : IsList (list_del_between (h.prev e) (h.next e) h) head (xs ++ ys) =
      unfold list_del in list_del-IsList h head e xs ys v in
    let c : count e (head ∷ (xs ++ ys)) ≡ 0 =
      ground (arith, v.once e, count-append e xs (e ∷ ys), count-append e xs ys) in
    (init-IsList _ head e (xs ++ ys) c w, init_list_head-IsList _ e)

-- the test is true of the empty list, and of no other
pub list_empty-IsList :
    (h : Heap) (head : ℕ) (xs : List ℕ) → IsList h head xs → (list_empty head h ≡ true) ↔ (xs ≡ [])
unfolding list_empty
list_empty-IsList h head [] v = ((λ e. refl), (λ e. ground (arith, v.links.0)))
list_empty-IsList h head (x ∷ xs) v = (
  (λ e. absurd (ground (arith, e, v.links.0, v.once head))),
  (λ e. absurd (ground (arith, ap length e))),
)

-- the entries of a piece, when it does not come back to the head
walk-Seg :
    (h : Heap) (head a : ℕ) (xs : List ℕ) (fuel : ℕ)
    → Seg h a xs head
    → count head xs ≡ 0
    → length xs < fuel
    → list_for_each_entry fuel (h.next a) head h ≡ xs
unfolding list_for_each_entry
walk-Seg h head a xs zero s c l = absurd (ground (arith, l))
walk-Seg h head a [] (suc fuel) (s, t) c l = rw (list_for_each_entry, s) (ground arith)
walk-Seg h head a (x ∷ xs) (suc fuel) (s, t, r) c l =
    let e : (x == head) ≡ false = ground (arith, c) in
    rw (s, list_for_each_entry, e)
      (ap (◌∷◌ x) (walk-Seg h head x xs fuel r (omega (arith, c)) (omega (arith, l))))

-- The loop of `list_for_each_entry` goes over the entries of a list, each once and in order, and then
-- ends.
pub list_for_each_entry-IsList :
    (h : Heap) (head : ℕ) (xs : List ℕ) (fuel : ℕ)
    → IsList h head xs
    → length xs < fuel
    → list_for_each_entry fuel (h.next head) head h ≡ xs
list_for_each_entry-IsList h head xs fuel v l =
    walk-Seg h head head xs fuel v.links (ground (arith, v.once head)) l
