-- ===== src/Util/Shm/Alloc.antt =====
-- The allocator of src/util/shm.c, inside its lock. Numbers of 64 bits wrap around.
use cserv.Prelude.{
  ℕ, ◌+◌, ◌*◌, ◌/◌, ◌%◌, ◌<◌, ◌≤◌, ◌≡◌, refl, arith, Bool-cases, inl, inr, Option, none, some, List,
  [], ◌∷◌, ltb, if◌then◌else◌, Every, Every-map,
}

-- `struct shm`, less its lock
pub record Shm : Type 0 where
  pub addr : ℕ
  pub size : ℕ
  pub offset : ℕ

-- `ROUND_UP(size_bytes, MEM_ALIGN)`
unfoldable pub round_up : ℕ → ℕ
round_up n = (n + 7) % 18446744073709551616 / 8 * 8

unfoldable pub shm_alloc : ℕ → Shm → Option ℕ × Shm
unfolding round_up
shm_alloc size_bytes shm =
    let end = (shm.offset + round_up size_bytes) % 18446744073709551616 in
    if ltb shm.size end
    then (none, shm)
    else (some (shm.addr + shm.offset), record shm { offset = end })

-- `shm_init`, by the page that `mmap` gives, its size, and the size of the struct at its start
unfoldable pub shm_init : Option ℕ → ℕ → ℕ → Option Shm
unfolding round_up
shm_init none page_size struct_size = none
shm_init (some addr) page_size struct_size =
    some (record { addr = addr; size = page_size; offset = round_up struct_size })

-- what a call has given
pub record Block : Type 0 where
  pub address : ℕ
  pub bytes : ℕ

-- the blocks that calls one after the other give, and how the memory is in the end
unfoldable pub add_block : ℕ → Option ℕ → List Block → List Block
add_block n none bs = bs
add_block n (some a) bs = (record { address = a; bytes = n }) ∷ bs

unfoldable pub blocks : List ℕ → Shm → List Block
unfolding shm_alloc add_block
blocks [] shm = []
blocks (n ∷ sizes) shm =
    let (given, after) = shm_alloc n shm in add_block n given (blocks sizes after)

-- The blocks do not overlap, and stand in order.
abbrev pub Apart : List Block → Type 0
Apart [] = Unit
Apart (b ∷ bs) = Every (λ c. b.address + b.bytes ≤ c.address) bs × Apart bs

-- Each block is aligned, and inside the memory behind the offset.
pub record Inside (shm : Shm) (b : Block) : Type 0 where
  pub aligned : b.address % 8 ≡ 0
  pub behind : shm.addr + shm.offset ≤ b.address
  pub ends : b.address + b.bytes ≤ shm.addr + shm.size

pub record IsValid (shm : Shm) : Type 0 where
  pub room : shm.offset ≤ shm.size
  pub small : shm.size < 4611686018427387904
  pub page : shm.addr % 8 ≡ 0
  pub step : shm.offset % 8 ≡ 0

-- `ROUND_UP` rounds up, and the sum does not wrap.
round_up-le : (n : ℕ) → n < 4611686018427387904 → (n ≤ round_up n) × (round_up n ≤ n + 7)
unfolding round_up
round_up-le n s = ground (arith, s)

round_up-aligned : (n : ℕ) → round_up n % 8 ≡ 0
unfolding round_up
round_up-aligned n = omega arith

end-same :
    (n : ℕ) (shm : Shm)
    → IsValid shm
    → n < 4611686018427387904
    → (shm.offset + round_up n) % 18446744073709551616 ≡ shm.offset + round_up n
end-same n shm v s = omega (arith, v.room, v.small, round_up-le n s, s)

data Given (n : ℕ) (shm : Shm) : Type 0 where
  no_room : shm_alloc n shm ≡ (none, shm) → Given n shm
  given :
      shm_alloc n shm
        ≡ (some (shm.addr + shm.offset), record shm { offset = shm.offset + round_up n })
      → shm.offset + round_up n ≤ shm.size
      → Given n shm

shm_alloc-Given : (n : ℕ) (shm : Shm) → IsValid shm → n < 4611686018427387904 → Given n shm
shm_alloc-Given n shm v s =
    let e = end-same n shm v s in
    elim (Bool-cases (ltb shm.size (shm.offset + round_up n))) [
      | inl b ↦ no_room (unfold shm_alloc in rw (e, b) refl)
      | inr b ↦ given (unfold shm_alloc in rw (e, b) refl) (ground (arith, b))
    ]

-- Blocks given one after the other by a valid memory, for sizes below 2 ^ 62, lie inside it, are
-- aligned, and do not overlap.
pub blocks-Apart :
    (sizes : List ℕ) (shm : Shm)
    → IsValid shm
    → Every (λ n. n < 4611686018427387904) sizes
    → Every (Inside shm) (blocks sizes shm) × Apart (blocks sizes shm)
unfolding blocks add_block
blocks-Apart [] shm v s = (tt, tt)
blocks-Apart (n ∷ sizes) shm v s = elim (shm_alloc-Given n shm v s.0) [
  | no_room e ↦ rw (blocks, e) (blocks-Apart sizes shm v s.1)
  | given e r ↦
      let after : Shm = record shm { offset = shm.offset + round_up n } in
      let w : IsValid after = record {
        room = r;
        small = v.small;
        page = v.page;
        step = omega (arith, v.step, round_up-aligned n);
      } in
      let up = (round_up-le n s.0).0 in
      let (i, a) = blocks-Apart sizes after w s.1 in
      rw (blocks, e)
        (
          (
            record {
              aligned = omega (arith, v.page, v.step);
              behind = omega arith;
              ends = omega (arith, r, up);
            },
            Every-map _ _ (blocks sizes after)
                (λ b h. record {
                  aligned = h.aligned;
                  behind = omega (arith, h.behind);
                  ends = h.ends;
                })
                i,
          ),
          (Every-map _ _ (blocks sizes after) (λ b h. omega (arith, h.behind, up)) i, a),
        )
]
