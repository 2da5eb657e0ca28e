-- ===== src/Meter698/Frame/RoundTrip.antt =====
-- What the slices of `try_extract`, `confidence` and `decode` give on a frame that `build_frame`
-- has built.
use zzt_self.Base.{
  ℕ, ◌+◌, ◌-◌, ◌/◌, ◌%◌, ◌≤◌, ◌<◌, ◌≡◌, refl, sym, ap, ◌∙◌, true, some, [], ◌∷◌, ◌++◌, append-nil,
  append_assoc, arith, take_front, drop_front, Bytes, length, get_elem?, take, length-append,
  get_elem?-append,
}
use zzt_self.Gw10376.Frame.{le16}
use zzt_self.Meter698.Fcs.{fcs_bytes, check_fcs}
use zzt_self.Meter698.Fcs.Residue.{check_fcs-fcs_bytes}
use zzt_self.Meter698.Frame.{
  Link, size_of, head, checked, frame_of, slice, sa_length, hcs_ok, fcs_ok,
}

-- The first byte of the server address announces its length.
pub record IsLink (k : Link) : Type 0 where
  pub first : ℕ
  pub others : Bytes
  pub addr_is : k.addr_bytes ≡ first ∷ others
  pub announced : length others ≡ first % 16 + 1
  pub filled : 2 ≤ length k.apdu
  pub fits : size_of k ≤ 2000

pub slice-middle :
    (pre mid post : Bytes) (a b : ℕ)
    → length pre ≡ a
    → length mid + a ≡ b
    → slice a b (pre ++ (mid ++ post)) ≡ mid
slice-middle pre mid post a b p q =
    ap (take (b - a)) (drop_front pre (mid ++ post) p) ∙ take_front mid post (omega arith)

pub length-fcs_bytes : (bs : Bytes) → length (fcs_bytes bs) ≡ 2
unfolding fcs_bytes
length-fcs_bytes bs = refl

module _ (k : Link) where
  abbrev tail : Bytes
  tail = fcs_bytes (checked k) ++ (0x16 ∷ [])

  pub length-head : length (head k) ≡ length k.addr_bytes + 4
  length-head = omega (arith, length-append k.addr_bytes (k.ca ∷ []))

  pub length-checked : length (checked k) ≡ length k.addr_bytes + length k.apdu + 6
  length-checked = omega (
    arith,
    length-head,
    length-append (head k) (fcs_bytes (head k) ++ k.apdu),
    length-append (fcs_bytes (head k)) k.apdu,
    length-fcs_bytes (head k),
  )

  pub length-frame_of : length (frame_of k) ≡ size_of k + 2
  unfolding frame_of
  length-frame_of = omega (
    arith,
    length-checked,
    length-append (checked k) tail,
    length-append (fcs_bytes (checked k)) (0x16 ∷ []),
    length-fcs_bytes (checked k),
  )

  pub fcs_ok-frame_of : fcs_ok (frame_of k) ≡ true
  unfolding frame_of
  fcs_ok-frame_of =
      let raw = 0x68 ∷ (checked k ++ tail) in
      let at : length raw - 3 ≡ 1 + length (checked k) =
        omega (arith, length-build_frame_here, length-checked) in
      let body : slice 1 (length raw - 3) raw ≡ checked k =
        slice-middle (0x68 ∷ []) (checked k) tail 1 (length raw - 3) refl (omega (arith, at)) in
      let check : slice (length raw - 3) (length raw - 3 + 2) raw ≡ fcs_bytes (checked k) =
        slice-middle (0x68 ∷ checked k) (fcs_bytes (checked k)) (0x16 ∷ []) (length raw - 3)
          (length raw - 3 + 2) (omega (arith, at)) (omega (arith, length-fcs_bytes (checked k))) in
      rw (body, check) (check_fcs-fcs_bytes (checked k))
    where
      length-build_frame_here : length (checked k ++ tail) ≡ size_of k + 1
      length-build_frame_here = omega (arith, length-frame_of)

  pub le16-frame_of : (rest : Bytes) → size_of k < 65536 → le16 (frame_of k ++ rest) 1 ≡ size_of k
  unfolding frame_of
  le16-frame_of rest h = omega arith

  pub from_head : frame_of k ≡ (0x68 ∷ head k) ++ (fcs_bytes (head k) ++ (k.apdu ++ tail))
  unfolding frame_of
  from_head = ap (◌∷◌ 0x68) (
      append_assoc (head k) (fcs_bytes (head k) ++ k.apdu) tail
      ∙ ap (◌++◌ (head k)) (append_assoc (fcs_bytes (head k)) k.apdu tail))

  -- From the client address on.
  abbrev behind_sa : Bytes
  behind_sa = (k.ca ∷ []) ++ (fcs_bytes (head k) ++ (k.apdu ++ tail))

  abbrev lead : Bytes
  lead = 0x68 ∷ (size_of k % 256) ∷ (size_of k / 256 % 256) ∷ k.control ∷ []

  pub from_sa : frame_of k ≡ lead ++ (k.addr_bytes ++ behind_sa)
  from_sa =
      from_head
      ∙ ap (◌++◌ lead)
          (append_assoc k.addr_bytes (k.ca ∷ []) (fcs_bytes (head k) ++ (k.apdu ++ tail)))

  pub control-frame_of : get_elem? (frame_of k) 3 ≡ some k.control
  unfolding frame_of
  control-frame_of = refl

  split_end : frame_of k ≡ (0x68 ∷ (checked k ++ fcs_bytes (checked k))) ++ (0x16 ∷ [])
  unfolding frame_of
  split_end = ap (◌∷◌ 0x68) (sym (append_assoc (checked k) (fcs_bytes (checked k)) (0x16 ∷ [])))

  pub end-frame_of : (rest : Bytes) → get_elem? (frame_of k ++ rest) (size_of k + 1) ≡ some 0x16
  end-frame_of rest =
      let before = 0x68 ∷ (checked k ++ fcs_bytes (checked k)) in
      let size : length before ≡ size_of k + 1 = omega (
        arith,
        length-checked,
        length-append (checked k) (fcs_bytes (checked k)),
        length-fcs_bytes (checked k),
      ) in
      ap (λ bs. get_elem? (bs ++ rest) (size_of k + 1)) split_end
      ∙ ap (λ bs. get_elem? bs (size_of k + 1)) (append_assoc before (0x16 ∷ []) rest)
      ∙ ap (get_elem? (before ++ (0x16 ∷ rest))) (sym size)
      ∙ get_elem?-append before rest 0x16

  module _ (ok : IsLink k) where
    pub length-addr : length k.addr_bytes ≡ ok.first % 16 + 2
    length-addr = ap length ok.addr_is ∙ omega (arith, ok.announced)

    pub first-frame_of : (rest : Bytes) → get_elem? (frame_of k ++ rest) 4 ≡ some ok.first
    first-frame_of rest =
        ap (λ bs. get_elem? (bs ++ rest) 4) from_sa
        ∙ ap (λ a. get_elem? ((a ++ behind_sa) ++ rest) 0) ok.addr_is

    pub sa_length-frame_of : (rest : Bytes) → sa_length (frame_of k ++ rest) ≡ length k.addr_bytes
    sa_length-frame_of rest = rw (sa_length, first-frame_of rest) (sym length-addr)

    pub sa_length_alone : sa_length (frame_of k) ≡ ok.first % 16 + 2
    sa_length_alone =
        sym (ap sa_length (append-nil (frame_of k))) ∙ sa_length-frame_of [] ∙ length-addr

    pub ca-frame_of : get_elem? (frame_of k) (4 + (ok.first % 16 + 2)) ≡ some k.ca
    ca-frame_of =
        let at : 4 + (ok.first % 16 + 2) ≡ length (lead ++ k.addr_bytes) =
          omega (arith, length-addr) in
        ap (λ bs. get_elem? bs (4 + (ok.first % 16 + 2)))
          (from_sa ∙ sym (append_assoc lead k.addr_bytes behind_sa))
        ∙ ap (get_elem? ((lead ++ k.addr_bytes) ++ behind_sa)) at
        ∙ get_elem?-append (lead ++ k.addr_bytes) (fcs_bytes (head k) ++ (k.apdu ++ tail)) k.ca

    pub sa-frame_of : slice 4 (4 + (ok.first % 16 + 2)) (frame_of k) ≡ k.addr_bytes
    sa-frame_of =
        ap (slice 4 (4 + (ok.first % 16 + 2))) from_sa
        ∙ slice-middle lead k.addr_bytes behind_sa 4 (4 + (ok.first % 16 + 2)) refl
            (omega (arith, length-addr))

    pub hcs-frame_of :
        slice (ok.first % 16 + 2 + 5) (ok.first % 16 + 2 + 7) (frame_of k) ≡ fcs_bytes (head k)
    hcs-frame_of =
        ap (slice (ok.first % 16 + 2 + 5) (ok.first % 16 + 2 + 7)) from_head
        ∙ slice-middle (0x68 ∷ head k) (fcs_bytes (head k)) (k.apdu ++ tail) (ok.first % 16 + 2 + 5)
            (ok.first % 16 + 2 + 7) (omega (arith, length-addr, length-head))
            (omega (arith, length-fcs_bytes (head k)))

    pub hcs_ok-frame_of : hcs_ok (frame_of k) ≡ true
    hcs_ok-frame_of =
        let seven : ok.first % 16 + 2 + 5 + 2 ≡ ok.first % 16 + 2 + 7 = omega arith in
        let at : sa_length (frame_of k) + 5 ≡ ok.first % 16 + 2 + 5 =
          ap (λ n. n + 5) sa_length_alone in
        let body : slice 1 (ok.first % 16 + 2 + 5) (frame_of k) ≡ head k =
          ap (slice 1 (ok.first % 16 + 2 + 5)) from_head
          ∙ slice-middle (0x68 ∷ []) (head k) (fcs_bytes (head k) ++ (k.apdu ++ tail)) 1
              (ok.first % 16 + 2 + 5) refl (omega (arith, length-addr, length-head)) in
        ap (λ n. check_fcs (slice 1 n (frame_of k)) (slice n (n + 2) (frame_of k))) at
        ∙ ap
            (λ bs.
              check_fcs bs (slice (ok.first % 16 + 2 + 5) (ok.first % 16 + 2 + 5 + 2) (frame_of k)))
            body
        ∙ ap (λ n. check_fcs (head k) (slice (ok.first % 16 + 2 + 5) n (frame_of k))) seven
        ∙ ap (check_fcs (head k)) hcs-frame_of
        ∙ check_fcs-fcs_bytes (head k)

    pub apdu-frame_of :
        slice (ok.first % 16 + 2 + 7) (length (frame_of k) - 3) (frame_of k) ≡ k.apdu
    apdu-frame_of =
        let pre = (0x68 ∷ head k) ++ fcs_bytes (head k) in
        ap (slice (ok.first % 16 + 2 + 7) (length (frame_of k) - 3))
          (from_head ∙ sym (append_assoc (0x68 ∷ head k) (fcs_bytes (head k)) (k.apdu ++ tail)))
        ∙ slice-middle pre k.apdu tail (ok.first % 16 + 2 + 7) (length (frame_of k) - 3)
            (omega (
              arith,
              length-addr,
              length-head,
              length-fcs_bytes (head k),
              length-append (0x68 ∷ head k) (fcs_bytes (head k)),
            ))
            (omega (arith, length-addr, length-frame_of))
