-- ===== src/Tests/Links.antt =====
-- Two lists of src/util/list.h on one heap, and an entry that moves from the one to the other.
use cserv.Prelude.{refl, arith, [], ◌∷◌, ◌++◌}
use cserv.Util.Links.Defs.{Heap, init_list_head, list_add_between, list_add_tail, list_del}
use cserv.Util.Links.Laws.{IsList}
use cserv.Util.Links.Moves.{Apart, list_add_tail-list_del}

abbrev blank : Heap
blank = record { next = (λ k. k); prev = (λ k. k) }

-- the list at 10 has the entries 2, 3 and 4, and the list at 11 is empty
abbrev heap : Heap
heap =
    list_add_tail 4 10
      (list_add_tail 3 10 (list_add_tail 2 10 (init_list_head 11 (init_list_head 10 blank))))

heap-IsList : IsList heap 10 ((2 ∷ []) ++ 3 ∷ 4 ∷ [])
unfolding list_add_tail list_add_between init_list_head
heap-IsList = record {
  links = (refl, refl, (refl, refl, (refl, refl, (refl, refl))));
  once = (λ k. ground arith);
}

heap-IsList_empty : IsList heap 11 []
unfolding list_add_tail list_add_between init_list_head
heap-IsList_empty = record { links = (refl, refl); once = (λ k. ground arith) }

heap-Apart : Apart (10 ∷ ((2 ∷ []) ++ 3 ∷ 4 ∷ [])) (11 ∷ [])
heap-Apart k = ground arith

list_add_tail-list_del_example :
    IsList (list_add_tail 3 11 (list_del 3 heap)) 10 ((2 ∷ []) ++ 4 ∷ [])
    × IsList (list_add_tail 3 11 (list_del 3 heap)) 11 ([] ++ 3 ∷ [])
list_add_tail-list_del_example =
    list_add_tail-list_del heap 10 11 3 (2 ∷ []) (4 ∷ []) [] heap-IsList heap-IsList_empty
      heap-Apart
