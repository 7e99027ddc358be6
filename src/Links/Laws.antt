-- ===== src/Links/Laws.antt =====
-- The operations on the lists of nodes that the links stand for.
use dev_can_linux.Base.{
  ℕ, zero, suc, ◌<◌, ◌≡◌, ◌≢◌, refl, sym, ap, ◌∙◌, subst, List, [], ◌∷◌, ◌++◌, arith, ◌==◌, true,
  false, some, length, inl, inr,
}
use dev_can_linux.Links.{Links, write, last_from, get_last, link_behind, store}
use dev_can_linux.Links.Nodes.{
  Away, Distinct, last_or, Snoc-cases, last_or-snoc, Away-left, Distinct-at, Distinct-snoc,
}
use dev_can_linux.Links.Segment.{
  Segment, write_self, Segment-append, Segment-split, Segment-next-Away, Segment-prev-Away,
  Segment-next_last,
}

-- The links lead from the root through these nodes, each once, to NULL, and back.
pub record IsList (l : Links) (xs : List ℕ) : Type 0 where
  pub distinct : Distinct xs
  pub tail : ℕ
  pub linked : Segment l 0 l.root xs tail 0

pub Segment-last :
    (l : Links) (xs : List ℕ) (p q p' q' : ℕ) → Segment l p q xs p' q' → p' ≡ last_or p xs
Segment-last l [] p q p' q' (a, b) = a
Segment-last l (x ∷ xs) p q p' q' (a, b, c, s) = Segment-last l xs x (l.next x) p' q' s

last_from_lem :
    (fuel : ℕ) (l : Links) (x : ℕ) (xs : List ℕ) (p q p' : ℕ)
    → Segment l p q (x ∷ xs) p' 0
    → length xs < fuel
    → last_from fuel l q ≡ some (last_or x xs)
unfolding last_from
last_from_lem zero l x xs p q p' s f = elim f [ ]
last_from_lem (suc fuel) l x [] p q p' (a, b, c, (d, e)) f =
    let ends : (l.next q == 0) ≡ true = ground (arith, ap l.next a) in rw ends (ap some a)
last_from_lem (suc fuel) l x (y ∷ ys) p q p' (a, b, c, s) f =
    let goes : (l.next q == 0) ≡ false = ground (arith, ap l.next a, s.0) in
    let from_q = subst (λ u. Segment l x u (y ∷ ys) p' 0) (sym (ap l.next a)) s in
    rw goes (last_from_lem fuel l y ys x (l.next q) p' from_q (omega arith))

-- `get_last` finds the last node.
pub get_last_lem :
    (fuel : ℕ) {l : Links} (xs : List ℕ)
    → IsList l xs
    → length xs < fuel
    → get_last fuel l ≡ some (last_or 0 xs)
unfolding get_last
get_last_lem fuel {l} [] h f = let (_, e) = h.linked in rw (sym e) refl
get_last_lem fuel {l} (x ∷ xs) h f =
    let (a, b, _, _) = h.linked in
    let there : (l.root == 0) ≡ false = ground arith in
    rw there (last_from_lem fuel l x xs 0 l.root h.tail h.linked (omega arith))

link_behind-some :
    (l : Links) (y n : ℕ)
    → y ≢ 0
    → link_behind y n l ≡ record l { prev = write l.prev n y; next = write (write l.next y n) n 0 }
unfolding link_behind
link_behind-some l y n b = let there : (y == 0) ≡ false = ground arith in rw there refl

link_behind-snoc :
    {l : Links} (n : ℕ) (ys : List ℕ) (y : ℕ)
    → n ≢ 0
    → Away n (ys ++ (y ∷ []))
    → IsList l (ys ++ (y ∷ []))
    → IsList (link_behind y n l) ((ys ++ (y ∷ [])) ++ (n ∷ []))
link_behind-snoc {l} n ys y pos far k =
    let (m, o, _, (_, there, _, (d, _))) = Segment-split l ys (y ∷ []) 0 l.root k.tail 0 k.linked in
    let apart = Away-left y ys [] (Distinct-at ys y [] k.distinct).1 in
    let one = record l { next = write l.next y n } in
    let two = record one { prev = write l.prev n y } in
    let first = Segment-next_last l y n ys 0 l.root k.tail 0 apart k.linked in
    let second = Segment-prev-Away one n y (ys ++ (y ∷ [])) 0 l.root k.tail n far first in
    let third = Segment-next-Away two n 0 (ys ++ (y ∷ [])) 0 l.root k.tail n far second in
    let three = record two { next = write two.next n 0 } in
    subst (λ u. IsList u ((ys ++ (y ∷ [])) ++ (n ∷ []))) (sym (link_behind-some l y n there))
      (record {
        distinct = Distinct-snoc (ys ++ (y ∷ [])) n k.distinct far;
        tail = n;
        linked =
            Segment-append three (ys ++ (y ∷ [])) (n ∷ []) 0 l.root k.tail n n 0 third
              (refl, pos, write_self l.prev n y ∙ sym d, (refl, sym (write_self two.next n 0)));
      })

-- The node `n` behind the last of the nodes.
pub link_behind-IsList :
    {l : Links} (n : ℕ) (xs : List ℕ)
    → n ≢ 0
    → Away n xs
    → IsList l xs
    → IsList (link_behind (last_or 0 xs) n l) (xs ++ (n ∷ []))
unfolding link_behind
link_behind-IsList {l} n xs pos away h = elim (Snoc-cases xs) [
  | inl e ↦
      subst (λ ys. IsList (link_behind (last_or 0 ys) n l) (ys ++ (n ∷ []))) (sym e)
        (record {
          distinct = (tt, tt);
          tail = n;
          linked = (refl, pos, write_self l.prev n 0, (refl, sym (write_self l.next n 0)));
        })
  | inr (ys, y, e) ↦
      subst (λ zs. IsList (link_behind (last_or 0 zs) n l) (zs ++ (n ∷ []))) (sym e)
        (subst (λ u. IsList (link_behind u n l) ((ys ++ (y ∷ [])) ++ (n ∷ [])))
          (sym (last_or-snoc 0 y ys))
          (link_behind-snoc n ys y pos (subst (Away n) e away) (subst (IsList l) e h)))
]

-- `store` appends the node `n`.
pub store_lem :
    (fuel n : ℕ) {l : Links} (xs : List ℕ)
    → IsList l xs
    → length xs < fuel
    → n ≢ 0
    → Away n xs
    → (m : Links) × (store fuel n l ≡ some m) × IsList m (xs ++ (n ∷ []))
unfolding store
store_lem fuel n {l} xs h f pos away = (
  link_behind (last_or 0 xs) n l,
  rw (store, get_last_lem fuel xs h f) refl,
  link_behind-IsList n xs pos away h,
)
