-- ===== src/Vcan/Loaded.antt =====
-- `vcan_init_one` of src/kernel/drivers/net/can/sja1000/vcan.c, channel by channel.
use dev_can_linux.Base.{
  ℕ, zero, suc, ◌+◌, ◌-◌, ◌≤◌, ◌<◌, ◌≡◌, ◌≢◌, refl, sym, ap, ◌∙◌, subst, subst₂, true, false, some,
  List, [], ◌∷◌, ◌++◌, append-nil, append_assoc, arith, length, ltb, set, replicate, ◌==◌,
  length-append, length-replicate,
}
use dev_can_linux.Links.{write}
use dev_can_linux.Vcan.{
  Priv, Board, Vcan, register_sja1000dev, channel_priv, vcan_add_chan, vcan_add_chans,
  vcan_init_one,
}
use dev_can_linux.Vcan.Devices.{devices, length-devices, registers_of, registers_of-append}

set-middle : (xs ys : List ℕ) (y v : ℕ) → set (xs ++ (y ∷ ys)) (length xs) v ≡ xs ++ (v ∷ ys)
set-middle [] ys y v = refl
set-middle (x ∷ xs) ys y v = ap (◌∷◌ x) (set-middle xs ys y v)

more_free :
    (n : ℕ) → n < 16 → ◌≡◌ {A = List ℕ} (replicate (16 - n) 0) (0 ∷ replicate (16 - suc n) 0)
unfolding replicate
more_free n h =
    let more : 16 - n ≡ suc (16 - suc n) = omega arith in ap (λ m. replicate {A = ℕ} m 0) more

-- The array of devices: those of the first channels, and NULL.
abbrev pub slots : (alloc : ℕ → ℕ) (n : ℕ) → List ℕ
slots alloc n = devices alloc n ++ replicate (16 - n) 0

slots-suc : (alloc : ℕ → ℕ) (n : ℕ) → n < 16 → set (slots alloc n) n (alloc n) ≡ slots alloc (suc n)
slots-suc alloc n h =
    let ds = devices alloc n in
    ap (λ r. set (ds ++ r) n (alloc n)) (more_free n h)
    ∙ subst
        (λ m.
          set (ds ++ (0 ∷ replicate (16 - suc n) 0)) m (alloc n)
          ≡ ds ++ (alloc n ∷ replicate (16 - suc n) 0))
        (length-devices alloc n) (set-middle ds (replicate (16 - suc n) 0) 0 (alloc n))
    ∙ sym (append_assoc ds (alloc n ∷ []) (replicate (16 - suc n) 0))

pub length-slots : (alloc : ℕ → ℕ) (n : ℕ) → n ≤ 16 → length (slots alloc n) ≡ 16
length-slots alloc n h = omega (
  arith,
  length-append (devices alloc n) (replicate (16 - n) 0),
  length-devices alloc n,
  length-replicate {A = ℕ} (16 - n) 0,
)

-- The parameters of a call of `vcan_init_one`.
module _ (irq : ℕ) (alloc register : ℕ → ℕ) (at reg_base channels : ℕ) (s : Vcan) where
  abbrev pub board_with : (n : ℕ) → Board
  board_with n = record {
    at = at;
    slave_dev = slots alloc n;
    no_channels = channels;
    reg_base = reg_base;
  }

  abbrev pub privs : (n : ℕ) → ℕ → Priv
  privs zero = s.priv
  privs (suc n) = write (privs n) (alloc n) (channel_priv irq n reg_base)

  -- The state with the first `n` channels.
  abbrev pub loaded : (n : ℕ) → Vcan
  loaded n = record s {
    board = some (board_with n);
    priv = privs n;
    calls = s.calls ++ registers_of (devices alloc n);
  }

  loaded-calls :
      (n : ℕ)
      → (s.calls ++ registers_of (devices alloc n)) ++ (register_sja1000dev (alloc n) ∷ [])
        ≡ s.calls ++ registers_of (devices alloc (suc n))
  loaded-calls n =
      append_assoc s.calls (registers_of (devices alloc n)) (register_sja1000dev (alloc n) ∷ [])
      ∙ ap (◌++◌ s.calls) (sym (registers_of-append (devices alloc n) (alloc n ∷ [])))

  -- Does the channel come up?
  abbrev pub ComesUp : ℕ → Type 0
  ComesUp c = (alloc c ≢ 0) × (register c ≡ 0)

  pub added :
      (n : ℕ)
      → n < 16
      → record (loaded n) {
        board = some (record (board_with n) { slave_dev = set (slots alloc n) n (alloc n) });
        priv = write (privs n) (alloc n) (channel_priv irq n reg_base);
        calls = (s.calls ++ registers_of (devices alloc n)) ++ (register_sja1000dev (alloc n) ∷ []);
      }
        ≡ loaded (suc n)
  added n h = λ i. record (loaded (suc n)) {
    board = some (record (board_with n) { slave_dev = slots-suc alloc n h i });
    calls = loaded-calls n i;
  }

  vcan_add_chan-loaded :
      (n : ℕ)
      → n < 16
      → alloc n ≢ 0
      → vcan_add_chan irq n (alloc n) 0 (loaded n) ≡ some (0, loaded (suc n))
  unfolding vcan_add_chan
  vcan_add_chan-loaded n h there =
      let not_null : (alloc n == 0) ≡ false = ground arith in
      let size = length-slots alloc n (omega arith) in
      let in_array : ltb n (length (slots alloc n)) ≡ true = ground (arith, size) in
      rw (vcan_add_chan, not_null, in_array) (ap (λ t. some (0, t)) (added n h))

  vcan_add_chans-step :
      (n i : ℕ)
      → i < 16
      → ComesUp i
      → vcan_add_chans irq alloc register (suc n) i (loaded i)
        ≡ vcan_add_chans irq alloc register n (suc i) (loaded (suc i))
  unfolding vcan_add_chans
  vcan_add_chans-step n i h (there, e) = rw (vcan_add_chans, e, vcan_add_chan-loaded i h there) refl

  -- The rounds in which the channels come up.
  pub vcan_add_chans-skip :
      (n i j : ℕ)
      → j ≤ n
      → i + j ≤ 16
      → ((c : ℕ) → c < i + j → ComesUp c)
      → vcan_add_chans irq alloc register n i (loaded i)
        ≡ vcan_add_chans irq alloc register (n - j) (i + j) (loaded (i + j))
  vcan_add_chans-skip n i zero l h ok =
      let left : n ≡ n - 0 = omega arith in
      let at_i : i ≡ i + 0 = omega arith in
      subst₂
        (λ m k.
          vcan_add_chans irq alloc register n i (loaded i)
          ≡ vcan_add_chans irq alloc register m k (loaded k))
        left at_i refl
  vcan_add_chans-skip zero i (suc j) l h ok = elim l [ ]
  vcan_add_chans-skip (suc n) i (suc j) l h ok =
      let left : n - j ≡ suc n - suc j = omega arith in
      let next : suc i + j ≡ i + suc j = omega arith in
      vcan_add_chans-step n i (omega arith) (ok i (omega arith))
      ∙ subst₂
          (λ m k.
            vcan_add_chans irq alloc register n (suc i) (loaded (suc i))
            ≡ vcan_add_chans irq alloc register m k (loaded k))
          left next
          (vcan_add_chans-skip n (suc i) j (omega arith) (omega arith) (λ c b. ok c (omega arith)))

  -- The call with the first `j` channels done.
  pub vcan_init_one-skip :
      (j : ℕ)
      → at ≢ 0
      → j ≤ channels
      → j ≤ 16
      → ((c : ℕ) → c < j → ComesUp c)
      → vcan_init_one irq alloc register channels at reg_base s
        ≡ vcan_add_chans irq alloc register (channels - j) j (loaded j)
  unfolding vcan_init_one
  vcan_init_one-skip j there l h ok =
      let not_null : (at == 0) ≡ false = ground arith in
      let start : record (loaded 0) { calls = s.calls } ≡ loaded 0 =
        λ i. record (loaded 0) { calls = sym (append-nil s.calls) i } in
      let from_zero : 0 + j ≡ j = omega arith in
      rw (vcan_init_one, not_null)
        (ap (vcan_add_chans irq alloc register channels 0) start
          ∙ subst
              (λ k.
                vcan_add_chans irq alloc register channels 0 (loaded 0)
                ≡ vcan_add_chans irq alloc register (channels - j) k (loaded k))
              from_zero
              (vcan_add_chans-skip channels 0 j l (omega arith) (λ c b. ok c (omega arith))))
