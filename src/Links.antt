-- ===== src/Links.antt =====
-- The doubly linked lists of src/session.c, src/include/session.h, src/include/resmgr.h and
-- src/resmgr.c: `prev` and `next` members in nodes on the heap, and a root pointer.
pub mod Nodes
pub mod Segment
pub mod Laws
pub mod Unlink
use dev_can_linux.Base.{ℕ, zero, suc, Bool, ◌&&◌, not, Option, none, some, ◌==◌, if◌then◌else◌}

-- Pointers are numbers, and NULL is zero.
pub record Links : Type 0 where
  pub root : ℕ
  pub prev : ℕ → ℕ
  pub next : ℕ → ℕ

-- `p->member = v`
abbrev pub write {ℓ} : {A : Type ℓ} → (ℕ → A) → (p : ℕ) (v : A) → ℕ → A
write f p v q = if q == p then v else f q

-- `while (last->next != NULL) last = last->next`, in at most `fuel` rounds.
unfoldable pub last_from : (fuel : ℕ) → Links → ℕ → Option ℕ
last_from zero l p = none
last_from (suc fuel) l p =
    let rest = last_from fuel l (l.next p) in if l.next p == 0 then some p else rest

-- `get_last_device_session`, and the same for client sessions.
unfoldable pub get_last : (fuel : ℕ) → Links → Option ℕ
get_last fuel l = if l.root == 0 then some 0 else last_from fuel l l.root

-- The node `n` behind `last`, or as the only one: in `create_device_session`,
-- `create_client_session`, `store_resmgr` and `store_blocked_client`.
unfoldable pub link_behind : (last n : ℕ) → Links → Links
link_behind last n l =
    if last == 0
    then record { root = n; prev = write l.prev n 0; next = write l.next n 0 }
    else record l { prev = write l.prev n last; next = write (write l.next last n) n 0 }

unfoldable pub store : (fuel n : ℕ) → Links → Option Links
store fuel n l = elim (get_last fuel l) [ none ↦ none | some last ↦ some (link_behind last n l) ]

-- The node `n` out of the list: in `destroy_device_session`, `destroy_client_session` and
-- `unregister_netdev`.
unfoldable pub unlink : ℕ → Links → Links
unlink n l =
    let p = l.prev n in
    let q = l.next n in
    if not (p == 0) && not (q == 0)
    then record l { next = write l.next p q; prev = write l.prev q p }
    else if not (p == 0)
    then record l { next = write l.next p 0 }
    else if not (q == 0)
    then record { root = q; prev = write l.prev q 0; next = l.next }
    else record l { root = 0 }
