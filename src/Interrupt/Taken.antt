-- ===== src/Interrupt/Taken.antt =====
-- A request succeeds where there is room for it.
use dev_can_linux.Base.{
  ℕ, suc, ◌+◌, ◌<◌, ◌≤◌, ◌≡◌, refl, ◌⊎◌, inl, inr, Bool-cases, Bool, true, false, Option, some,
  List, [], ◌∷◌, ◌++◌, length, length-append, arith, ◌==◌, ltb,
}
use dev_can_linux.Groups.{Group}
use dev_can_linux.Interrupt.{Handler, Attach, Masking, max_irq_attach_count, max_handlers_per_irq}
use dev_can_linux.Interrupt.Request.{
  not_attached, found, add_handler, add_to_attached, new_entry, attach_new, attach_irq, attach_all,
  masking_of, request_threaded_irq,
}

-- Each entry of the table has room for `n` handlers more.
abbrev pub AllRoom : (n : ℕ) → List Attach → Type 0
AllRoom n [] = Unit {0}
AllRoom n (a ∷ t) = (a.num_handlers + n < 256) × AllRoom n t

AllRoom-less : (n : ℕ) (t : List Attach) → AllRoom (suc n) t → AllRoom n t
AllRoom-less n [] h = tt
AllRoom-less n (a ∷ t) (h, hs) = (omega (arith, h), AllRoom-less n t hs)

AllRoom-append :
    (n : ℕ) (t : List Attach) (a : Attach)
    → AllRoom n t
    → a.num_handlers + n < 256
    → AllRoom n (t ++ (a ∷ []))
AllRoom-append n [] a h l = (l, tt)
AllRoom-append n (b ∷ t) a (h, hs) l = (h, AllRoom-append n t a hs l)

-- The table after one round.
record Takes (n : ℕ) (t u : List Attach) : Type 0 where
  size : length u ≤ length t + 1
  room : AllRoom n u

module _ (h : Handler) where
  add_handler-room :
      (a : Attach)
      → a.num_handlers + 1 < 256
      → add_handler h a
        ≡ (true, record a { num_handlers = a.num_handlers + 1; handlers = a.handlers ++ (h ∷ []) })
  unfolding add_handler
  add_handler-room a l =
      let fits : ltb (a.num_handlers + 1) max_handlers_per_irq ≡ true = ground arith in rw fits refl

  add_to_attached-room :
      (n irq : ℕ) (t : List Attach)
      → AllRoom (suc n) t
      → (add_to_attached irq h t ≡ not_attached)
        ⊎ ((u : List Attach) × (add_to_attached irq h t ≡ found true u) × Takes n t u)
  unfolding add_to_attached
  add_to_attached-room n irq [] r = inl refl
  add_to_attached-room n irq (a ∷ t) (r, rs) = elim (Bool-cases (a.irq == irq)) [
    | inl same ↦ inr (
      record a { num_handlers = a.num_handlers + 1; handlers = a.handlers ++ (h ∷ []) } ∷ t,
      rw (add_to_attached, add_handler-room a (omega (arith, r)), same) refl,
      record { size = omega arith; room = (omega (arith, r), AllRoom-less n t rs) },
    )
    | inr other ↦ elim (add_to_attached-room n irq t rs) [
      | inl absent ↦ inl (rw (add_to_attached, other, absent) refl)
      | inr (u, e, k) ↦
          let size = k.size in
          inr (
            a ∷ u,
            rw (add_to_attached, other, e) refl,
            record { size = omega (arith, size); room = (omega (arith, r), k.room) },
          )
    ]
  ]

  module _ (attach : ℕ → Option ℕ) (g : Group) (m : Masking) where
    attach_irq-goes :
        (n i irq id : ℕ) (t : List Attach)
        → attach irq ≡ some id
        → length t < 127
        → n < 255
        → AllRoom (suc n) t
        → ((attach_irq attach g m h i irq t).goes ≡ true)
          × Takes n t (attach_irq attach g m h i irq t).table
    unfolding attach_irq attach_new new_entry
    attach_irq-goes n i irq id t gives free few r =
        let not_full : (length t == max_irq_attach_count) ≡ false = ground arith in
        elim (add_to_attached-room n irq t r) [
          | inl absent ↦
              let more = length-append t (new_entry g m h i irq id ∷ []) in
              rw (attach_irq, not_full, absent)
                (rw gives (
                  refl,
                  record {
                    size = omega (arith, more);
                    room = AllRoom-append n t _ (AllRoom-less n t r) (omega (arith, few));
                  },
                ))
          | inr (u, e, k) ↦ rw (attach_irq, not_full, e) (refl, k)
        ]

    attach_all-goes :
        (i : ℕ) (irqs : List ℕ) (t : List Attach)
        → ((q : ℕ) → (id : ℕ) × (attach q ≡ some id))
        → length t + length irqs ≤ 127
        → AllRoom (length irqs) t
        → (attach_all attach g m h i irqs t).goes ≡ true
    unfolding attach_all
    attach_all-goes i [] t gives free r = refl
    attach_all-goes i (irq ∷ irqs) t gives free r =
        let (id, e) = gives irq in
        let (goes, k) =
          attach_irq-goes (length irqs) i irq id t e (omega (arith, free)) (omega (arith, free))
            r in
        let size = k.size in
        rw goes (attach_all-goes (suc i) irqs _ gives (omega (arith, size, free)) k.room)

-- Where the attributes of the thread can be read, no interrupt fails to be attached, and the table
-- and each of its entries have room for one handler more for each interrupt of the group: the
-- request returns 0.
pub request_threaded_irq-goes :
    (enabled : Bool) (attach : ℕ → Option ℕ) (g : Group) (h : Handler) (t : List Attach)
    → ((q : ℕ) → (id : ℕ) × (attach q ≡ some id))
    → length t + length g.irqs ≤ 127
    → AllRoom (length g.irqs) t
    → (request_threaded_irq true enabled attach g h t).goes ≡ true
unfolding request_threaded_irq
request_threaded_irq-goes enabled attach g h t gives free r =
    attach_all-goes h attach g (masking_of enabled g) 0 g.irqs t gives free r
