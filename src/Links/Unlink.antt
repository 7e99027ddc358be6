-- ===== src/Links/Unlink.antt =====
-- A node is taken out of a list.
use dev_can_linux.Base.{
  ℕ, ◌≡◌, ◌≢◌, refl, sym, ◌∙◌, subst, List, [], ◌∷◌, ◌++◌, arith, ◌==◌, false, append_assoc,
  append-nil, inl, inr,
}
use dev_can_linux.Links.{Links, write, unlink}
use dev_can_linux.Links.Nodes.{Distinct, Snoc-cases, Away-left, Away-right, Distinct-at}
use dev_can_linux.Links.Segment.{
  Segment, Segment-root, Segment-append, Segment-split, Segment-next-Away, Segment-prev-Away,
  Segment-next_last, Segment-prev_first,
}
use dev_can_linux.Links.Laws.{IsList}

-- The branches of `unlink`.
unlink-middle :
    (l : Links) (n p q : ℕ)
    → l.prev n ≡ p
    → l.next n ≡ q
    → p ≢ 0
    → q ≢ 0
    → unlink n l ≡ record l { next = write l.next p q; prev = write l.prev q p }
unfolding unlink
unlink-middle l n p q e f a b =
    let there : (p == 0) ≡ false = ground arith in
    let goes : (q == 0) ≡ false = ground arith in rw (e, f) (rw (there, goes) refl)

unlink-last :
    (l : Links) (n p : ℕ)
    → l.prev n ≡ p
    → l.next n ≡ 0
    → p ≢ 0
    → unlink n l ≡ record l { next = write l.next p 0 }
unfolding unlink
unlink-last l n p e f a = let there : (p == 0) ≡ false = ground arith in rw (e, f) (rw there refl)

unlink-first :
    (l : Links) (n q : ℕ)
    → l.prev n ≡ 0
    → l.next n ≡ q
    → q ≢ 0
    → unlink n l ≡ record { root = q; prev = write l.prev q 0; next = l.next }
unfolding unlink
unlink-first l n q e f a = let there : (q == 0) ≡ false = ground arith in rw (e, f) (rw there refl)

unlink-only : (l : Links) (n : ℕ) → l.prev n ≡ 0 → l.next n ≡ 0 → unlink n l ≡ record l { root = 0 }
unfolding unlink
unlink-only l n e f = rw (e, f) refl

snoc-Segment :
    (l : Links) (xs : List ℕ) (x p q m o : ℕ)
    → Segment l p q (xs ++ (x ∷ [])) m o
    → (m ≡ x) × (x ≢ 0)
snoc-Segment l xs x p q m o s =
    let (_, _, _, (_, there, _, (d, _))) = Segment-split l xs (x ∷ []) p q m o s in (d, there)

module _ {l : Links} (n : ℕ) where
  only-IsList : IsList l (n ∷ []) → IsList (unlink n l) []
  only-IsList h =
      let (_, _, c, (_, e)) = h.linked in
      subst (λ u. IsList u []) (sym (unlink-only l n c (sym e)))
        (record { distinct = tt; tail = 0; linked = (refl, refl) })

  first-IsList : (y : ℕ) (ys : List ℕ) → IsList l (n ∷ y ∷ ys) → IsList (unlink n l) (y ∷ ys)
  first-IsList y ys h =
      let (_, _, c, (d, e, f, s)) = h.linked in
      let (_, (apart, others)) = h.distinct in
      let kept = Segment-prev_first l y 0 ys n y h.tail 0 apart (refl, e, f, s) in
      subst (λ u. IsList u (y ∷ ys)) (sym (unlink-first l n y c d e))
        (record {
          distinct = (apart, others);
          tail = h.tail;
          linked = Segment-root (record l { prev = write l.prev y 0 }) y (y ∷ ys) 0 y h.tail 0 kept;
        })

  module _ (xs : List ℕ) (x : ℕ) where
    last-IsList :
        IsList l ((xs ++ (x ∷ [])) ++ (n ∷ [])) → IsList (unlink n l) ((xs ++ (x ∷ [])) ++ [])
    last-IsList h =
        let before = xs ++ (x ∷ []) in
        let (m, o, s, (a, _, c, (_, e))) =
          Segment-split l before (n ∷ []) 0 l.root h.tail 0 h.linked in
        let (same, there) = snoc-Segment l xs x 0 l.root m o s in
        let (distinct, _) = Distinct-at before n [] h.distinct in
        let whole = subst Distinct (append-nil before) distinct in
        let apart = Away-left x xs [] (Distinct-at xs x [] whole).1 in
        let kept = Segment-next_last l x 0 xs 0 l.root m o apart s in
        subst (λ u. IsList u (before ++ [])) (sym (unlink-last l n x (c ∙ same) (sym e) there))
          (subst (IsList (record l { next = write l.next x 0 })) (sym (append-nil before))
            (record { distinct = whole; tail = m; linked = kept }))

    middle-IsList :
        (y : ℕ) (ys : List ℕ)
        → IsList l ((xs ++ (x ∷ [])) ++ (n ∷ y ∷ ys))
        → IsList (unlink n l) ((xs ++ (x ∷ [])) ++ (y ∷ ys))
    middle-IsList y ys h =
        let before = xs ++ (x ∷ []) in
        let (m, o, s, (a, _, c, (d, e, f, t))) =
          Segment-split l before (n ∷ y ∷ ys) 0 l.root h.tail 0 h.linked in
        let (same, there) = snoc-Segment l xs x 0 l.root m o s in
        let (distinct, _) = Distinct-at before n (y ∷ ys) h.distinct in
        let (_, y_away) = Distinct-at before y ys distinct in
        let (_, x_away) =
          Distinct-at xs x (y ∷ ys) (subst Distinct (append_assoc xs (x ∷ []) (y ∷ ys)) distinct) in
        let one = record l { next = write l.next x y } in
        let two = record one { prev = write l.prev y x } in
        let left = Segment-next_last l x y xs 0 l.root m o (Away-left x xs (y ∷ ys) x_away) s in
        let left_two =
          Segment-prev-Away one y x before 0 l.root m y (Away-left y before ys y_away) left in
        let right =
          Segment-next-Away l x y (y ∷ ys) n y h.tail 0 (Away-right x xs (y ∷ ys) x_away)
            (refl, e, f, t) in
        let right_two =
          Segment-prev_first one y x ys n y h.tail 0 (Away-right y before ys y_away) right in
        subst (λ u. IsList u (before ++ (y ∷ ys)))
          (sym (unlink-middle l n x y (c ∙ same) d there e))
          (record {
            distinct = distinct;
            tail = h.tail;
            linked =
                Segment-append two before (y ∷ ys) 0 l.root x y h.tail 0
                  (subst (λ u. Segment two 0 l.root before u y) same left_two) right_two;
          })

  -- `unlink` takes the node out of the list, wherever it stands, and leaves the others in order.
  pub unlink-IsList : (xs ys : List ℕ) → IsList l (xs ++ (n ∷ ys)) → IsList (unlink n l) (xs ++ ys)
  unlink-IsList xs ys h = elim (Snoc-cases xs) [
    | inl e ↦
        subst (λ zs. IsList (unlink n l) (zs ++ ys)) (sym e)
          (front ys (subst (λ zs. IsList l (zs ++ (n ∷ ys))) e h))
    | inr (zs, z, e) ↦
        subst (λ us. IsList (unlink n l) (us ++ ys)) (sym e)
          (behind zs z ys (subst (λ us. IsList l (us ++ (n ∷ ys))) e h))
  ]
    where
      front : (ys : List ℕ) → IsList l (n ∷ ys) → IsList (unlink n l) ys
      front [] h = only-IsList h
      front (y ∷ ys) h = first-IsList y ys h

      behind :
          (zs : List ℕ) (z : ℕ) (ys : List ℕ)
          → IsList l ((zs ++ (z ∷ [])) ++ (n ∷ ys))
          → IsList (unlink n l) ((zs ++ (z ∷ [])) ++ ys)
      behind zs z [] h = last-IsList zs z h
      behind zs z (y ∷ ys) h = middle-IsList zs z y ys h
