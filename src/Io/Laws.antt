-- ===== src/Io/Laws.antt =====
-- What one call of `add_fd_event` or `del_fd_event` of src/event.c does to the masks of the table.
use cserv.Prelude.{
  ℕ, ◌<◌, ◌≡◌, refl, sym, ap, ◌∙◌, arith, Bool, true, false, leb, ◌≢◌, Bool-cases, inl, inr,
}
use cserv.Io.Event.{
  EventType, readable, writable, Mask, merge, clear, is_none, Proc, FdEvent, EventLoop, added,
  refused, set_event, add_fd_event, del_fd_event,
}

-- the mask lacks the event
abbrev pub Lacks : EventType → Mask → Type 0
Lacks readable mask = mask.can_read ≡ false
Lacks writable mask = mask.can_write ≡ false

-- the masks of all descriptors are the same, and so is the size of the table
pub record SameMasks (before after : EventLoop) : Type 0 where
  pub size : after.max_conn ≡ before.max_conn
  pub masks : (k : ℕ) → (after.array k).mask ≡ (before.array k).mask

clear-merge :
    (what : EventType) (mask : Mask) → Lacks what mask → clear what (merge what mask) ≡ mask
clear-merge readable mask h = ap (λ b. record mask { can_read = b }) (sym h)
clear-merge writable mask h = ap (λ b. record mask { can_write = b }) (sym h)

is_none_write : (b : Bool) → is_none (record { can_read = b; can_write = true }) ≡ false
is_none_write true = refl
is_none_write false = refl

is_none-merge : (what : EventType) (mask : Mask) → is_none (merge what mask) ≡ false
is_none-merge readable mask = refl
is_none-merge writable mask = is_none_write mask.can_read

leb_of_lt : (a b : ℕ) → a < b → leb b a ≡ false
leb_of_lt a b h = ground (arith, h)

-- the table and its calls once an event has been added
pub add_fd_event-added :
    (fd : ℕ) (what : EventType) (proc : Proc) (self : ℕ) (evloop : EventLoop)
    → fd < evloop.max_conn
    → (add_fd_event true fd what proc self evloop).0 ≡ added
unfolding add_fd_event
add_fd_event-added fd what proc self evloop r =
    rw (add_fd_event, leb_of_lt fd evloop.max_conn r) refl

add_fd_event-array :
    (fd : ℕ) (what : EventType) (proc : Proc) (self : ℕ) (evloop : EventLoop)
    → fd < evloop.max_conn
    → ((add_fd_event true fd what proc self evloop).1.max_conn ≡ evloop.max_conn)
      × ((add_fd_event true fd what proc self evloop).1.array
          ≡ set_event evloop.array fd
              (record { mask = merge what (evloop.array fd).mask; proc = proc; args = self }))
unfolding add_fd_event
add_fd_event-array fd what proc self evloop r = (
  rw (add_fd_event, leb_of_lt fd evloop.max_conn r) refl,
  rw (add_fd_event, leb_of_lt fd evloop.max_conn r) refl,
)

del_fd_event-array :
    (fd : ℕ) (what : EventType) (evloop : EventLoop)
    → fd < evloop.max_conn
    → is_none (evloop.array fd).mask ≡ false
    → ((del_fd_event fd what evloop).max_conn ≡ evloop.max_conn)
      × ((del_fd_event fd what evloop).array
          ≡ set_event evloop.array fd
              (record (evloop.array fd) { mask = clear what (evloop.array fd).mask }))
unfolding del_fd_event
del_fd_event-array fd what evloop r n = (
  rw (del_fd_event, leb_of_lt fd evloop.max_conn r, n) refl,
  rw (del_fd_event, leb_of_lt fd evloop.max_conn r, n) refl,
)

set_event_self : (array : ℕ → FdEvent) (fd : ℕ) (fe : FdEvent) → set_event array fd fe fd ≡ fe
unfolding set_event
set_event_self array fd fe = ground arith

-- the mask of a descriptor after its event has been added, and after it has been deleted
pub add_fd_event-mask :
    (fd : ℕ) (what : EventType) (proc : Proc) (self : ℕ) (evloop : EventLoop)
    → fd < evloop.max_conn
    → ((add_fd_event true fd what proc self evloop).1.array fd).mask
      ≡ merge what (evloop.array fd).mask
add_fd_event-mask fd what proc self evloop r =
    ap (λ a. (a fd).mask) (add_fd_event-array fd what proc self evloop r).1
    ∙ ap FdEvent.mask (set_event_self evloop.array fd _)

pub del_fd_event-mask :
    (fd : ℕ) (what : EventType) (evloop : EventLoop) (mask : Mask)
    → fd < evloop.max_conn
    → (evloop.array fd).mask ≡ merge what mask
    → Lacks what mask
    → ((del_fd_event fd what evloop).array fd).mask ≡ mask
del_fd_event-mask fd what evloop mask r e l =
    ap (λ a. (a fd).mask)
      (del_fd_event-array fd what evloop r (ap is_none e ∙ is_none-merge what mask)).1
    ∙ ap FdEvent.mask (set_event_self evloop.array fd _)
    ∙ ap (clear what) e
    ∙ clear-merge what mask l

-- sizes, and the masks of the other descriptors
pub add_fd_event-size :
    (ok : Bool) (fd : ℕ) (what : EventType) (proc : Proc) (self : ℕ) (evloop : EventLoop)
    → (add_fd_event ok fd what proc self evloop).1.max_conn ≡ evloop.max_conn
unfolding add_fd_event
add_fd_event-size ok fd what proc self evloop = ground arith

pub del_fd_event-size :
    (fd : ℕ) (what : EventType) (evloop : EventLoop)
    → (del_fd_event fd what evloop).max_conn ≡ evloop.max_conn
unfolding del_fd_event
del_fd_event-size fd what evloop = ground arith

pub add_fd_event-far :
    (ok : Bool) (fd : ℕ) (what : EventType) (proc : Proc) (self : ℕ) (evloop : EventLoop) (k : ℕ)
    → k ≢ fd
    → ((add_fd_event ok fd what proc self evloop).1.array k).mask ≡ (evloop.array k).mask
unfolding add_fd_event set_event
add_fd_event-far ok fd what proc self evloop k h = ground arith

pub del_fd_event-far :
    (fd : ℕ) (what : EventType) (evloop : EventLoop) (k : ℕ)
    → k ≢ fd
    → ((del_fd_event fd what evloop).array k).mask ≡ (evloop.array k).mask
unfolding del_fd_event set_event
del_fd_event-far fd what evloop k h = ground arith

-- the mask of the descriptor is a function of what it was
pub add_fd_event-near :
    (ok : Bool) (fd : ℕ) (what : EventType) (proc : Proc) (self : ℕ) (x y : EventLoop)
    → y.max_conn ≡ x.max_conn
    → (y.array fd).mask ≡ (x.array fd).mask
    → ((add_fd_event ok fd what proc self y).1.array fd).mask
      ≡ ((add_fd_event ok fd what proc self x).1.array fd).mask
unfolding add_fd_event set_event
add_fd_event-near ok fd what proc self x y s e = ground arith

pub del_fd_event-near :
    (fd : ℕ) (what : EventType) (x y : EventLoop)
    → y.max_conn ≡ x.max_conn
    → (y.array fd).mask ≡ (x.array fd).mask
    → ((del_fd_event fd what y).array fd).mask ≡ ((del_fd_event fd what x).array fd).mask
unfolding del_fd_event set_event
del_fd_event-near fd what x y s e = ground arith

pub add_fd_event-refused :
    (fd : ℕ) (what : EventType) (proc : Proc) (self : ℕ) (evloop : EventLoop)
    → fd < evloop.max_conn
    → (add_fd_event false fd what proc self evloop).0 ≡ refused
unfolding add_fd_event
add_fd_event-refused fd what proc self evloop r =
    rw (add_fd_event, leb_of_lt fd evloop.max_conn r) refl

pub add_fd_event-refused_masks :
    (fd : ℕ) (what : EventType) (proc : Proc) (self : ℕ) (evloop : EventLoop)
    → SameMasks evloop (add_fd_event false fd what proc self evloop).1
unfolding add_fd_event
add_fd_event-refused_masks fd what proc self evloop = elim (Bool-cases (leb evloop.max_conn fd)) [
  | inl e ↦ rw (add_fd_event, e) (record { size = refl; masks = (λ k. refl) })
  | inr e ↦ rw (add_fd_event, e) (record { size = refl; masks = (λ k. refl) })
]
