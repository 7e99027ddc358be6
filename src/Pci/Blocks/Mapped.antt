-- ===== src/Pci/Blocks/Mapped.antt =====
-- Blocks are mapped.
use dev_can_linux.Base.{
  ℕ, suc, ◌<◌, ◌≡◌, ◌≢◌, refl, sym, ap, ◌∙◌, subst, Bool, true, false, some, List, [], ◌∷◌, ◌++◌,
  append-nil, arith, length, get_elem?, ◌==◌, length-append, Option,
}
use dev_can_linux.Links.{write}
use dev_can_linux.Links.Nodes.{Away}
use dev_can_linux.Links.Segment.{write_self, write-ne}
use dev_can_linux.Links.Laws.{IsList, store_lem}
use dev_can_linux.Pci.Spaces.{Region}
use dev_can_linux.Pci.Blocks.{
  Block, Blocks, maps_at, get_block, store_block, set_managed, map_device, map_block, pci_iomap,
  pcim_iomap, pci_iounmap, unmap_block, take_out,
}
use dev_can_linux.Pci.Blocks.Laws.{first, NoneOf, search_blocks-Segment, take_out-IsList}
use dev_can_linux.Pci.Blocks.Unmapped.{without, pci_iounmap_lem}

-- The block `b` is a new one at the end of the list.
pub record Mapped (s t : Blocks) (xs : List ℕ) (n : ℕ) (b : Block) : Type 0 where
  pub listed : IsList t.links (xs ++ (n ∷ []))
  pub here : t.block n ≡ b
  pub elsewhere : (m : ℕ) → n ≢ m → t.block m ≡ s.block m
  pub calls : t.unmaps ≡ s.unmaps

first-append :
    (test : Block → Bool) (f : ℕ → Block) (xs : List ℕ) (n : ℕ)
    → NoneOf test f xs
    → test (f n) ≡ true
    → first test f (xs ++ (n ∷ [])) ≡ n
first-append test f [] n h p = rw p refl
first-append test f (x ∷ xs) n (h, hs) p = rw h (first-append test f xs n hs p)

NoneOf-elsewhere :
    (test : Block → Bool) (f g : ℕ → Block) (n : ℕ) (xs : List ℕ)
    → ((m : ℕ) → n ≢ m → g m ≡ f m)
    → Away n xs
    → NoneOf test f xs
    → NoneOf test g xs
NoneOf-elsewhere test f g n [] e a h = tt
NoneOf-elsewhere test f g n (x ∷ xs) e (a, away) (h, hs) =
    (ap test (e x a) ∙ h, NoneOf-elsewhere test f g n xs e away hs)

module _ (fuel n p : ℕ) (s t : Blocks) (xs : List ℕ) where
  -- The flag that is set is the new block's, where no other block is mapped at its address.
  set_managed-Mapped :
      (b : Block) (v : Bool)
      → Mapped s t xs n b
      → b.addr ≡ p
      → n ≢ 0
      → Away n xs
      → NoneOf (maps_at p) s.block xs
      → suc (length xs) < fuel
      → (u : Blocks) × (set_managed fuel p v t ≡ some u)
        × Mapped s u xs n (record b { is_managed = v })
  unfolding set_managed get_block
  set_managed-Mapped b v k same there away fresh f =
      let test = maps_at p in
      let passes : test (t.block n) ≡ true = ap (λ c. c.addr == p) k.here ∙ ground arith in
      let size = length-append xs (n ∷ []) in
      let found : get_block fuel p t ≡ some n =
        search_blocks-Segment fuel test t (xs ++ (n ∷ [])) 0 t.links.root k.listed.tail
          k.listed.linked (omega (arith, size))
        ∙ ap some (
            first-append test t.block xs n
              (NoneOf-elsewhere test s.block t.block n xs k.elsewhere away fresh) passes) in
      let not_null : (n == 0) ≡ false = ground arith in
      let b_t = record (t.block n) { is_managed = v } in
      (
        record t { block = write t.block n b_t },
        rw (set_managed, found) (rw not_null refl),
        record {
          listed = k.listed;
          here =
              write_self t.block n b_t ∙ ap {B = Block} (λ c. record c { is_managed = v }) k.here;
          elsewhere = λ m h. write-ne t.block b_t h ∙ k.elsewhere m h;
          calls = k.calls;
        },
      )

module _ (mmap_device_memory mmap_device_io : (size addr : ℕ) → Option ℕ) (fuel n p : ℕ)
    (junk : Bool) where
  module _ (r : Region) (s : Blocks) (xs : List ℕ) where
    map_block-Mapped :
        (offset size : ℕ)
        → map_device mmap_device_memory mmap_device_io r.type size offset ≡ some p
        → n ≢ 0
        → Away n xs
        → IsList s.links xs
        → NoneOf (maps_at p) s.block xs
        → suc (length xs) < fuel
        → (t : Blocks) × (map_block mmap_device_memory mmap_device_io fuel n junk r offset size s
            ≡ some (p, t))
          × Mapped s t xs n (record { addr = p; size = size; region = r; is_managed = false })
    unfolding map_block store_block
    map_block-Mapped offset size m there away h fresh f =
        let b : Block = record { addr = p; size = size; region = r; is_managed = junk } in
        let (l, e, k) = store_lem fuel n xs h (omega arith) there away in
        let stored = record s { links = l; block = write s.block n b } in
        let mapped : Mapped s stored xs n b = record {
          listed = k;
          here = write_self s.block n b;
          elsewhere = λ x a. write-ne s.block b a;
          calls = refl;
        } in
        let (t, d, u) =
          set_managed-Mapped fuel n p s stored xs b false mapped refl there away fresh f in
        (t, rw (map_block, m) (rw (store_block, e) (rw d refl)), u)

  -- `pcim_iomap` of a region that the system maps at an address, where no block is mapped yet: the
  -- address is returned and a managed block for the whole region is added to the list; then
  -- `pci_iounmap` of the address undoes it, with the unmapping of the whole region and nothing else.
  pub pci_iounmap-pcim_iomap :
      (ba : List Region) (bar : ℕ) (r : Region) (s : Blocks) (xs : List ℕ)
      → get_elem? ba bar ≡ some r
      → map_device mmap_device_memory mmap_device_io r.type r.size r.addr ≡ some p
      → p ≢ 0
      → n ≢ 0
      → Away n xs
      → IsList s.links xs
      → NoneOf (maps_at p) s.block xs
      → suc (length xs) < fuel
      → (t : Blocks) × (u : Blocks) × (pcim_iomap mmap_device_memory mmap_device_io fuel n junk ba
            bar s
          ≡ some (p, t))
        × Mapped s t xs n (record { addr = p; size = r.size; region = r; is_managed = true })
        × (pci_iounmap fuel p t ≡ some u)
        × IsList u.links xs
        × (u.unmaps
            ≡ s.unmaps
              ++ unmap_block n (record { addr = p; size = r.size; region = r; is_managed = true }))
  unfolding pcim_iomap pci_iomap
  pci_iounmap-pcim_iomap ba bar r s xs at m not_null there away h fresh f =
      let b : Block = record { addr = p; size = r.size; region = r; is_managed = false } in
      let c : Block = record b { is_managed = true } in
      let size = length-append xs (n ∷ []) in
      let (t, e, k) = map_block-Mapped r s xs r.addr r.size m there away h fresh f in
      let (u, d, w) = set_managed-Mapped fuel n p s t xs b true k refl there away fresh f in
      let succeeds : (p == 0) ≡ false = ground arith in
      let test = maps_at p in
      let found : first (maps_at (u.block n).addr) u.block (xs ++ (n ∷ [])) ≡ n =
        subst (λ a. first (maps_at a) u.block (xs ++ (n ∷ [])) ≡ n) (sym (ap (λ x. x.addr) w.here))
          (first-append test u.block xs n
            (NoneOf-elsewhere test s.block u.block n xs w.elsewhere away fresh)
            (ap (λ x. x.addr == p) w.here ∙ ground arith)) in
      (
        u,
        without n u,
        rw (pcim_iomap, pci_iomap, at) (rw e (rw (succeeds, d) refl)),
        w,
        subst (λ a. pci_iounmap fuel a u ≡ some (without n u)) (ap (λ x. x.addr) w.here)
            (pci_iounmap_lem fuel n u xs [] w.listed found (omega (arith, size))),
        subst (IsList (take_out n u.links)) (append-nil xs) (take_out-IsList n xs [] w.listed),
        ap (◌++◌ u.unmaps) (ap (unmap_block n) w.here) ∙ ap (λ a. a ++ unmap_block n c) w.calls,
      )
