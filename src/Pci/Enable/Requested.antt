-- ===== src/Pci/Enable/Requested.antt =====
-- A driver enables its device with `pci_enable_device` and requests its interrupt with `request_irq`.
use dev_can_linux.Base.{
  ℕ, inl, inr, ◌+◌, ◌≤◌, ◌≡◌, ◌≢◌, sym, ap, ◌∙◌, subst, Bool, true, Option, some, List, ◌∷◌, arith,
  length, if◌then◌else◌,
}
use dev_can_linux.Groups.{Group}
use dev_can_linux.Groups.Lookup.{member}
use dev_can_linux.Groups.Add.{IsLive, group_of}
use dev_can_linux.Interrupt.{Handler, Attach}
use dev_can_linux.Interrupt.Request.{Request, request_irq}
use dev_can_linux.Interrupt.Table.{Grows, HasAll, AllFilled}
use dev_can_linux.Interrupt.Attached.{request_threaded_irq-HasAll}
use dev_can_linux.Interrupt.Taken.{AllRoom, request_threaded_irq-goes}
use dev_can_linux.Pci.Capability.{Disabled}
use dev_can_linux.Pci.Capability.Setup.{pci_ok}
use dev_can_linux.Pci.Enable.{Answers, PciDev, group_for, pci_enable_device}
use dev_can_linux.Pci.Enable.Enabled.{HasGroup, Taken, pci_enable_device-Enabled}

-- What the request has come to: it returns 0, and the handler is attached to the interrupts.
pub record Requested (irqs : List ℕ) (h : Handler) (t : List Attach) (r : Request) : Type 0 where
  pub goes : r.goes ≡ true
  pub has_all : HasAll irqs h r.table
  pub grows : Grows t r.table
  pub all_filled : AllFilled r.table

request_irq-Requested :
    (enabled : Bool) (attach : ℕ → Option ℕ) (g : Group) (function dev : ℕ) (t : List Attach)
    → function ≢ 0
    → ((q : ℕ) → (id : ℕ) × (attach q ≡ some id))
    → length t + length g.irqs ≤ 127
    → AllRoom (length g.irqs) t
    → AllFilled t
    → Requested g.irqs
        (record { function = function; reset_interrupt = 0; dev = dev })
        t
        (request_irq true enabled attach g function dev t)
unfolding request_irq
request_irq-Requested enabled attach g function dev t ne gives free room filled =
    let h : Handler = record { function = function; reset_interrupt = 0; dev = dev } in
    let goes = request_threaded_irq-goes enabled attach g h t gives free room in
    let (grows, has_all, all_filled) =
      request_threaded_irq-HasAll true enabled attach g h t ne filled goes in
    record { goes = goes; has_all = has_all; grows = grows; all_filled = all_filled }

member-first : (q : ℕ) (qs : List ℕ) → member q (q ∷ qs) ≡ true
member-first q qs = ground arith

was_read :
    (a : Answers) (s : Disabled) (new irq : ℕ) (irqs : List ℕ) (d e : PciDev)
    → a.read_irq ≡ (pci_ok, irq ∷ irqs)
    → Taken a s new d e
    → (qs : List ℕ) × (a.read_irq ≡ (pci_ok, e.irq ∷ qs)) × HasGroup a s new (e.irq ∷ qs) d e
was_read a s new irq irqs d e reads (inl x) = x
was_read a s new irq irqs d e reads (inr (_, _, _, unread)) = absurd (unread irq irqs reads)

-- A device that is there, whose interrupts can be read, and whose handle is NULL only with an error:
-- where `pci_enable_device` succeeds, and then the attributes of the thread can be read, no
-- interrupt fails to be attached, and the table and each of its entries have room for one handler
-- more for each interrupt of the device, the map leads from the device's interrupt to a group with
-- its handle, and `request_irq` of it returns 0 and attaches the handler to every interrupt that has been
-- read for the device.
pub request_irq-pci_enable_device :
    (a : Answers) (s : Disabled) (new bdf irq : ℕ) (irqs : List ℕ) (d e : PciDev) (enabled : Bool)
    (attach : ℕ → Option ℕ) (function dev : ℕ) (t : List Attach)
    → a.find 0 ≡ some bdf
    → (a.attach.1 ≡ 0 → a.attach.0 ≢ pci_ok)
    → a.read_irq ≡ (pci_ok, irq ∷ irqs)
    → IsLive d.groups
    → pci_enable_device a s new d ≡ (pci_ok, e)
    → function ≢ 0
    → ((q : ℕ) → (id : ℕ) × (attach q ≡ some id))
    → length t + length a.read_irq.1 ≤ 127
    → AllRoom (length a.read_irq.1) t
    → AllFilled t
    → (g : Group) × (group_of e.irq e.groups ≡ some g)
      × (g.hdl ≡ a.attach.1)
      × Requested a.read_irq.1
          (record { function = function; reset_interrupt = 0; dev = dev })
          t
          (request_irq true enabled attach g function dev t)
unfolding group_for
request_irq-pci_enable_device a s new bdf irq irqs d e enabled attach function dev t found fails
      reads live ok ne gives free room filled =
    let x = pci_enable_device-Enabled a s new bdf d e found fails live ok in
    let (qs, read, has) = was_read a s new irq irqs d e reads x.irqs in
    let all : a.read_irq.1 ≡ e.irq ∷ qs = ap (λ y. y.1) read in
    let g = group_for (e.irq ∷ qs) e in
    let first : member e.irq (e.irq ∷ qs) ≡ true = member-first e.irq qs in
    (
      g,
      has.groups e.irq ∙ ap (λ b. if b then some g else group_of e.irq d.groups) first,
      x.attached,
      subst
          (λ l.
            Requested l (record { function = function; reset_interrupt = 0; dev = dev }) t
              (request_irq true enabled attach g function dev t))
          (sym all)
          (request_irq-Requested enabled attach g function dev t ne gives
            (subst (λ l. length t + length l ≤ 127) all free)
            (subst (λ l. AllRoom (length l) t) all room) filled),
    )
