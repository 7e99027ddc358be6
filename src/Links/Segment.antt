-- ===== src/Links/Segment.antt =====
-- Stretches of a doubly linked list.
use dev_can_linux.Base.{ℕ, ◌≡◌, ◌≢◌, refl, sym, ◌∙◌, subst, subst₂, List, [], ◌∷◌, ◌++◌, arith}
use dev_can_linux.Links.{Links, write}
use dev_can_linux.Links.Nodes.{Away}

-- From the node `q`, whose predecessor is `p`, the nodes `xs` lead to `q'`, with `p'` before it.
abbrev pub Segment : Links → (p q : ℕ) → List ℕ → (p' q' : ℕ) → Type 0
Segment l p q [] p' q' = (p' ≡ p) × (q' ≡ q)
Segment l p q (x ∷ xs) p' q' = (q ≡ x) × (x ≢ 0) × (l.prev x ≡ p) × Segment l x (l.next x) xs p' q'

pub write-ne {ℓ} : {A : Type ℓ} (f : ℕ → A) {p q : ℕ} (v : A) → p ≢ q → write f p v q ≡ f q
write-ne f {p} {q} v h = ground arith

pub write_self {ℓ} : {A : Type ℓ} (f : ℕ → A) (p : ℕ) (v : A) → write f p v p ≡ v
write_self f p v = ground arith

module _ (l : Links) where
  pub Segment-append :
      (xs ys : List ℕ) (p q m n p' q' : ℕ)
      → Segment l p q xs m n
      → Segment l m n ys p' q'
      → Segment l p q (xs ++ ys) p' q'
  Segment-append [] ys p q m n p' q' (a, b) t = subst₂ (λ u v. Segment l u v ys p' q') a b t
  Segment-append (x ∷ xs) ys p q m n p' q' (a, b, c, s) t =
      (a, b, c, Segment-append xs ys x (l.next x) m n p' q' s t)

  -- Where a list is cut, two nodes meet.
  pub Segment-split :
      (xs ys : List ℕ) (p q p' q' : ℕ)
      → Segment l p q (xs ++ ys) p' q'
      → (m : ℕ) × (n : ℕ) × Segment l p q xs m n × Segment l m n ys p' q'
  Segment-split [] ys p q p' q' s = (p, q, (refl, refl), s)
  Segment-split (x ∷ xs) ys p q p' q' (a, b, c, s) =
      let (m, n, t, u) = Segment-split xs ys x (l.next x) p' q' s in (m, n, (a, b, c, t), u)

  module _ (y v : ℕ) where
    -- A write to the links of another node changes nothing.
    pub Segment-next-Away :
        (xs : List ℕ) (p q p' q' : ℕ)
        → Away y xs
        → Segment l p q xs p' q'
        → Segment (record l { next = write l.next y v }) p q xs p' q'
    Segment-next-Away [] p q p' q' h s = s
    Segment-next-Away (x ∷ xs) p q p' q' (h, hs) (a, b, c, s) = (
      a,
      b,
      c,
      subst (λ u. Segment (record l { next = write l.next y v }) x u xs p' q')
          (sym (write-ne l.next v h)) (Segment-next-Away xs x (l.next x) p' q' hs s),
    )

    pub Segment-prev-Away :
        (xs : List ℕ) (p q p' q' : ℕ)
        → Away y xs
        → Segment l p q xs p' q'
        → Segment (record l { prev = write l.prev y v }) p q xs p' q'
    Segment-prev-Away [] p q p' q' h s = s
    Segment-prev-Away (x ∷ xs) p q p' q' (h, hs) (a, b, c, s) =
        (a, b, write-ne l.prev v h ∙ c, Segment-prev-Away xs x (l.next x) p' q' hs s)

    -- Links behind the last node, and before the first one.
    pub Segment-next_last :
        (xs : List ℕ) (p q p' q' : ℕ)
        → Away y xs
        → Segment l p q (xs ++ (y ∷ [])) p' q'
        → Segment (record l { next = write l.next y v }) p q (xs ++ (y ∷ [])) p' v
    Segment-next_last [] p q p' q' h (a, b, c, (d, e)) = (a, b, c, (d, sym (write_self l.next y v)))
    Segment-next_last (x ∷ xs) p q p' q' (h, hs) (a, b, c, s) = (
      a,
      b,
      c,
      subst (λ u. Segment (record l { next = write l.next y v }) x u (xs ++ (y ∷ [])) p' v)
          (sym (write-ne l.next v h)) (Segment-next_last xs x (l.next x) p' q' hs s),
    )

    pub Segment-prev_first :
        (xs : List ℕ) (p q p' q' : ℕ)
        → Away y xs
        → Segment l p q (y ∷ xs) p' q'
        → Segment (record l { prev = write l.prev y v }) v q (y ∷ xs) p' q'
    Segment-prev_first xs p q p' q' h (a, b, c, s) =
        (a, b, write_self l.prev y v, Segment-prev-Away xs y (l.next y) p' q' h s)

  pub Segment-root :
      (r : ℕ) (xs : List ℕ) (p q p' q' : ℕ)
      → Segment l p q xs p' q'
      → Segment (record l { root = r }) p q xs p' q'
  Segment-root r [] p q p' q' s = s
  Segment-root r (x ∷ xs) p q p' q' (a, b, c, s) = (a, b, c, Segment-root r xs x (l.next x) p' q' s)
