-- ===== src/Util/Links/Defs.antt =====
-- The functions of src/util/list.h on a heap: a `list_head` is named by a number, its address.
use cserv.Prelude.{ℕ, zero, suc, Bool, List, [], ◌∷◌, ◌==◌, if◌then◌else◌}

-- the two fields of every `list_head`
pub record Heap : Type 0 where
  pub next : ℕ → ℕ
  pub prev : ℕ → ℕ

-- an assignment to the field of the entry `p`
abbrev pub put : (ℕ → ℕ) → ℕ → ℕ → ℕ → ℕ
put field p value k = if k == p then value else field k

unfoldable pub init_list_head : ℕ → Heap → Heap
init_list_head list h = record { next = put h.next list list; prev = put h.prev list list }

-- `__list_add`: the assignments in their order
unfoldable pub list_add_between : ℕ → ℕ → ℕ → Heap → Heap
list_add_between newer prev next h = record {
  next = put (put h.next newer next) prev newer;
  prev = put (put h.prev next newer) newer prev;
}

unfoldable pub list_add : ℕ → ℕ → Heap → Heap
unfolding list_add_between
list_add newer head h = list_add_between newer head (h.next head) h

unfoldable pub list_add_tail : ℕ → ℕ → Heap → Heap
unfolding list_add_between
list_add_tail newer head h = list_add_between newer (h.prev head) head h

-- `__list_del`
unfoldable pub list_del_between : ℕ → ℕ → Heap → Heap
list_del_between prev next h = record { next = put h.next prev next; prev = put h.prev next prev }

unfoldable pub list_del : ℕ → Heap → Heap
unfolding list_del_between
list_del entry h = list_del_between (h.prev entry) (h.next entry) h

unfoldable pub list_del_init : ℕ → Heap → Heap
unfolding list_del_between init_list_head
list_del_init entry h = init_list_head entry (list_del_between (h.prev entry) (h.next entry) h)

unfoldable pub list_empty : ℕ → Heap → Bool
list_empty head h = h.next head == head

-- the entries that `list_for_each_entry` goes over from `pos` on, with a bound for their number
unfoldable pub list_for_each_entry : ℕ → ℕ → ℕ → Heap → List ℕ
list_for_each_entry zero pos head h = []
list_for_each_entry (suc fuel) pos head h =
    let rest = list_for_each_entry fuel (h.next pos) head h in
    if pos == head then [] else pos ∷ rest
