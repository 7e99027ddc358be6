-- ===== src/Interrupt/Table.antt =====
-- Tables of src/interrupt.c that grow, and tables all of whose entries are filled in.
use dev_can_linux.Base.{
  ℕ, zero, suc, ◌≡◌, ◌≢◌, refl, sym, ap, ◌∙◌, subst, some, List, [], ◌∷◌, ◌++◌, append_assoc,
  append-nil, get_elem?,
}
use dev_can_linux.Interrupt.{Handler, Attach}
use dev_can_linux.Interrupt.Rounds.{IsFilled}

-- Every entry of the first table is in the second with the same interrupt, in the same place, and
-- with its handlers before any others.
pub data Grows : List Attach → List Attach → Type 0 where
  more : (u : List Attach) → Grows [] u
  keeps :
      {a b : Attach} {t u : List Attach} (hs : List Handler)
      → b.irq ≡ a.irq
      → b.handlers ≡ a.handlers ++ hs
      → Grows t u
      → Grows (a ∷ t) (b ∷ u)

-- The handler is attached to the interrupt.
pub data Has (irq : ℕ) (h : Handler) : List Attach → Type 0 where
  here :
      {a : Attach} {t : List Attach} (before after : List Handler)
      → a.irq ≡ irq
      → a.handlers ≡ before ++ (h ∷ after)
      → Has irq h (a ∷ t)
  there : {a : Attach} {t : List Attach} → Has irq h t → Has irq h (a ∷ t)

abbrev pub HasAll : List ℕ → Handler → List Attach → Type 0
HasAll [] h t = Unit
HasAll (irq ∷ irqs) h t = Has irq h t × HasAll irqs h t

abbrev pub AllFilled : List Attach → Type 0
AllFilled [] = Unit
AllFilled (a ∷ t) = IsFilled a × AllFilled t

pub Grows-refl : (t : List Attach) → Grows t t
Grows-refl [] = more []
Grows-refl (a ∷ t) = keeps [] refl (sym (append-nil a.handlers)) (Grows-refl t)

pub Grows-trans : {t u v : List Attach} → Grows t u → Grows u v → Grows t v
Grows-trans (more u) q = more _
Grows-trans (keeps {a = a} hs i e p) (keeps ks j f q) =
    keeps (hs ++ ks) (j ∙ i) (f ∙ ap (λ xs. xs ++ ks) e ∙ append_assoc a.handlers hs ks)
      (Grows-trans p q)

pub Grows-append : (t u : List Attach) → Grows t (t ++ u)
Grows-append [] u = more u
Grows-append (a ∷ t) u = keeps [] refl (sym (append-nil a.handlers)) (Grows-append t u)

pub Has-Grows : {irq : ℕ} {h : Handler} {t u : List Attach} → Has irq h t → Grows t u → Has irq h u
Has-Grows (here before after i e) (keeps hs j f p) =
    here before (after ++ hs) (j ∙ i) (f ∙ rw (e, append_assoc) refl)
Has-Grows (there p) (keeps hs j f q) = there (Has-Grows p q)

pub Has-end :
    (t : List Attach) (a : Attach) (h : Handler) → a.handlers ≡ h ∷ [] → Has a.irq h (t ++ (a ∷ []))
Has-end [] a h e = here [] [] refl e
Has-end (b ∷ t) a h e = there (Has-end t a h e)

pub AllFilled-append :
    (t : List Attach) (a : Attach) → AllFilled t → IsFilled a → AllFilled (t ++ (a ∷ []))
AllFilled-append [] a all p = (p, tt)
AllFilled-append (b ∷ t) a (q, all) p = (q, AllFilled-append t a all p)

-- Every entry of a table that is filled is filled.
pub AllFilled-get_elem? :
    (t : List Attach) (k : ℕ) (a : Attach) → AllFilled t → get_elem? t k ≡ some a → IsFilled a
AllFilled-get_elem? [] k a all e = cc
AllFilled-get_elem? (b ∷ t) zero a (p, all) e = let same : b ≡ a = cc in subst IsFilled same p
AllFilled-get_elem? (b ∷ t) (suc k) a (p, all) e = AllFilled-get_elem? t k a all e

pub one_more :
    (hs : List Handler) (h : Handler)
    → h.function ≢ 0
    → ((i : ℕ) (k : Handler) → get_elem? hs i ≡ some k → k.function ≢ 0)
    → (i : ℕ) (k : Handler) → get_elem? (hs ++ (h ∷ [])) i ≡ some k
    → k.function ≢ 0
one_more [] h ne all zero k e =
    let same : h ≡ k = cc in λ null. ne (ap (λ x. x.function) same ∙ null)
one_more [] h ne all (suc i) k e = cc
one_more (x ∷ hs) h ne all zero k e = all zero k e
one_more (x ∷ hs) h ne all (suc i) k e = one_more hs h ne (λ j. all (suc j)) i k e
