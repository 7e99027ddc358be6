-- ===== src/Tools/Sent.antt =====
-- From a message of tools/cansend to what tools/candump prints at another device of the bus.
use dev_can_linux.Base.{
  ℕ, zero, suc, ◌-◌, ◌*◌, ◌/◌, ◌^◌, ◌≤◌, ◌<◌, ◌≡◌, refl, ap, ap₂, ◌∙◌, Bool, false, not, none, some,
  List, [], ◌∷◌, ◌++◌, arith, length, length-append, replicate, take, get_elem?, ltb, ◌==◌,
  if◌then◌else◌, inl, inr, Bool-cases,
}
use dev_can_linux.Base.Word.{bit_at}
use dev_can_linux.Timestamp.{UserTime, timestamp}
use dev_can_linux.Netif.{CanFrame, tx_frame, rx_message, rx_extended, rx_mid, rtr_bit, err_bit}
use dev_can_linux.Netif.Mid.{IsSendable, tx_frame-sendable, zeros}
use dev_can_linux.Tools.{Shown, candump_line}
use dev_can_linux.Tools.Hex.{message_of}

get_elem?-ext : (xs ys : List ℕ) → ((j : ℕ) → get_elem? xs j ≡ get_elem? ys j) → xs ≡ ys
get_elem?-ext [] [] h = refl
get_elem?-ext [] (y ∷ ys) h = absurd (let e = h 0 in cc)
get_elem?-ext (x ∷ xs) [] h = absurd (let e = h 0 in cc)
get_elem?-ext (x ∷ xs) (y ∷ ys) h =
    let e = h 0 in let same : x ≡ y = cc in ap₂ (◌∷◌) same (get_elem?-ext xs ys (λ j. h (suc j)))

get_elem?-replicate : (n j : ℕ) → get_elem? (zeros n) j ≡ (if ltb j n then some 0 else none)
unfolding replicate
get_elem?-replicate zero j = ground arith
get_elem?-replicate (suc n) zero = ground arith
get_elem?-replicate (suc n) (suc j) = ground (arith, get_elem?-replicate n j)

get_elem?-append_right :
    (xs ys : List ℕ) (j : ℕ) → length xs ≤ j → get_elem? (xs ++ ys) j ≡ get_elem? ys (j - length xs)
get_elem?-append_right [] ys j h = ap (get_elem? ys) (omega arith)
get_elem?-append_right (x ∷ xs) ys zero h = elim h [ ]
get_elem?-append_right (x ∷ xs) ys (suc j) h =
    get_elem?-append_right xs ys j (omega arith) ∙ ap (get_elem? ys) (omega arith)

take_all : (n : ℕ) (xs : List ℕ) → length xs ≤ n → take n xs ≡ xs
take_all zero [] h = refl
take_all zero (x ∷ xs) h = elim h [ ]
take_all (suc n) [] h = refl
take_all (suc n) (x ∷ xs) h = ap (◌∷◌ x) (take_all n xs (omega arith))

-- Eight bytes, of which the first are given and the others are zero.
padded :
    (bs ds : List ℕ)
    → length bs ≤ 8
    → ((j : ℕ)
        → get_elem? ds j ≡ (
            if ltb j (length bs)
            then get_elem? (bs ++ zeros (8 - length bs)) j
            else get_elem? (zeros 8) j))
    → ds ≡ bs ++ zeros (8 - length bs)
padded bs ds l h = get_elem?-ext ds (bs ++ zeros (8 - length bs)) (λ j.
    elim (Bool-cases (ltb j (length bs))) [
      | inl low ↦ h j ∙ rw low refl
      | inr high ↦
          let above : length bs ≤ j = ground arith in
          h j
          ∙ rw high (
              ground (
                arith,
                get_elem?-replicate 8 j,
                get_elem?-append_right bs (zeros (8 - length bs)) j above,
                get_elem?-replicate (8 - length bs) (j - length bs),
              ))
    ])

-- An identifier of 11 bits in the standard format, of 29 in the extended one.
abbrev pub IsId : (mid mid_type : ℕ) → Type 0
IsId mid mid_type = (mid < 2 ^ 29) × (mid_type ≡ 0 → mid < 2 ^ 11)

module _ (junk : Bool) (mid mid_type : ℕ) (bs : List ℕ) (id : IsId mid mid_type)
    (l : length bs ≤ 8) where
  message_of-IsSendable : IsSendable (message_of junk mid mid_type bs)
  message_of-IsSendable = record {
    mid_in = ground (arith, id.0, id.1);
    len_in = l;
    dat_in = omega (arith, length-append bs (zeros (8 - length bs)));
  }

  abbrev pub printed : (timestamp : ℕ) → Shown
  printed ts = record {
    timestamp = ts;
    is_extended = not (mid_type == 0);
    id = mid;
    len = length bs;
    dat = bs ++ zeros (8 - length bs);
  }

  printed-id :
      (f : CanFrame)
      → rx_extended f ≡ not (mid_type == 0)
      → rx_mid f ≡ (
          if not (mid_type == 0)
          then (message_of junk mid mid_type bs).mid
          else (message_of junk mid mid_type bs).mid / 2 ^ 18 * 2 ^ 18)
      → (if rx_extended f then rx_mid f else rx_mid f / 2 ^ 18) ≡ mid
  printed-id f ext e = ground (arith, ext, e, id.0, id.1)

  -- The frame that such a message becomes, and what is printed of the message that is made of it
  -- where it is received.
  pub printed_lem :
      (f : CanFrame) × (tx_frame (message_of junk mid mid_type bs) ≡ some f)
      × (bit_at f.can_id rtr_bit ≡ false)
      × (bit_at f.can_id err_bit ≡ false)
      × (rx_mid f ≡ (message_of junk mid mid_type bs).mid)
      × ((u : UserTime) (clock : ℕ) (echo : Bool)
          → candump_line (rx_message u clock echo f) ≡ printed (timestamp u clock))
  unfolding candump_line rx_message
  printed_lem =
      let (f, made, no_rtr, no_err, ext, mid_e, len, size, gets) =
        tx_frame-sendable (message_of junk mid mid_type bs) message_of-IsSendable in
      let dat = padded bs f.dat l gets in
      let eight : take 8 (take 8 f.dat) ≡ bs ++ zeros (8 - length bs) =
        ap (take 8) (take_all 8 f.dat (omega (arith, size)))
        ∙ take_all 8 f.dat (omega (arith, size))
        ∙ dat in
      (
        f,
        made,
        no_rtr,
        no_err,
        mid_e ∙ ground (arith, id.0, id.1),
        λ u clock echo i. record {
          timestamp = timestamp u clock;
          is_extended = ext i;
          id = printed-id f ext mid_e i;
          len = len i;
          dat = eight i;
        },
      )
