-- ===== src/Util/Links/Moves.antt =====
-- Two lists of src/util/list.h on one heap, between which an entry moves, as in the
-- `move_to_` functions of src/coro/sched.c.
use cserv.Prelude.{ℕ, ◌+◌, ◌≤◌, ◌≡◌, arith, List, [], ◌∷◌, ◌++◌, count, count-append}
use cserv.Util.Links.Defs.{Heap, list_add_between, list_add_tail, list_del_between, list_del}
use cserv.Util.Links.Segment.{put-Same, puts-Same, Same-Seg, first-count, last-count, Seg-split}
use cserv.Util.Links.Laws.{IsList, list_add_tail-IsList, list_del-IsList}

-- no entry of one list, or its head, is in the other
abbrev pub Apart : List ℕ → List ℕ → Type 0
Apart xs ys = (k : ℕ) → count k xs + count k ys ≤ 1

-- the entries and the head, in another order
head-count : (k b : ℕ) (zs : List ℕ) → count k (zs ++ (b ∷ [])) ≡ count k (b ∷ zs)
head-count k b zs = omega (arith, count-append k zs (b ∷ []))

list_del-other :
    (h : Heap) (a b e : ℕ) (xs ys zs : List ℕ)
    → IsList h a (xs ++ (e ∷ ys))
    → Apart (a ∷ (xs ++ (e ∷ ys))) (b ∷ zs)
    → IsList h b zs
    → IsList (list_del e h) b zs
unfolding list_del list_del_between
list_del-other h a b e xs ys zs v far w =
    let (s, t) = Seg-split h a xs e ys a v.links in
    let l = last-count h a xs e s in
    let f = first-count h e ys a t in
    let p = h.prev e in
    let n = h.next e in
    record {
      links =
          Same-Seg h (list_del e h) b zs b
            (put-Same h.next p n (b ∷ zs) (omega (arith, l, far p, count-append p xs (e ∷ ys))))
            (put-Same h.prev n p (zs ++ (b ∷ [])) (
              omega (
                arith,
                f,
                far n,
                count-append n xs (e ∷ ys),
                head-count n b zs,
                head-count n a ys,
              )))
            w.links;
      once = w.once;
    }

list_add_tail-other :
    (h : Heap) (a b n : ℕ) (xs zs : List ℕ)
    → IsList h a xs
    → IsList h b zs
    → Apart (a ∷ xs) (b ∷ zs)
    → count n (a ∷ xs) ≡ 0
    → IsList (list_add_tail n b h) a xs
unfolding list_add_tail list_add_between
list_add_tail-other h a b n xs zs v w far c =
    let p = h.prev b in
    let l = last-count h b zs b w.links in
    record {
      links =
          Same-Seg h (list_add_tail n b h) a xs a
            (puts-Same h.next n b p n (a ∷ xs) c (omega (arith, l, far p)))
            (puts-Same h.prev b n n p (xs ++ (a ∷ [])) (ground (arith, far b, head-count b a xs))
              (omega (arith, c, head-count n a xs)))
            v.links;
      once = v.once;
    }

-- An entry that is deleted from one list and added to the end of another is in the second list, at its
-- end, and no longer in the first; the other entries of both keep their order.
pub list_add_tail-list_del :
    (h : Heap) (a b e : ℕ) (xs ys zs : List ℕ)
    → IsList h a (xs ++ (e ∷ ys))
    → IsList h b zs
    → Apart (a ∷ (xs ++ (e ∷ ys))) (b ∷ zs)
    → IsList (list_add_tail e b (list_del e h)) a (xs ++ ys)
      × IsList (list_add_tail e b (list_del e h)) b (zs ++ (e ∷ []))
list_add_tail-list_del h a b e xs ys zs v w far =
    let v' = list_del-IsList h a e xs ys v in
    let w' = list_del-other h a b e xs ys zs v far w in
    let gone : count e (a ∷ (xs ++ ys)) ≡ 0 =
      ground (arith, v.once e, count-append e xs (e ∷ ys), count-append e xs ys) in
    let new : count e (b ∷ zs) ≡ 0 = ground (arith, far e, count-append e xs (e ∷ ys)) in
    let apart : Apart (a ∷ (xs ++ ys)) (b ∷ zs) =
      (λ k. omega (arith, far k, count-append k xs (e ∷ ys), count-append k xs ys)) in
    (
      list_add_tail-other (list_del e h) a b e (xs ++ ys) zs v' w' apart gone,
      list_add_tail-IsList (list_del e h) b e zs w' new,
    )
