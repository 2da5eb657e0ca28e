-- ===== src/Meter698/Frame/Laws.antt =====
-- Extraction, confidence and decoding of a frame that `build_frame` has built, and what
-- `try_extract` returns on any buffer.
use zzt_self.Base.{
  ℕ, ◌+◌, ◌-◌, ◌≤◌, ◌<◌, ◌≡◌, refl, sym, ap, ◌∙◌, ◌≢◌, Bool, true, false, not, ◌||◌, some, [], ◌++◌,
  append-nil, arith, leb, ◌==◌, if◌then◌else◌, take_front, Bytes, length, get_elem?, take,
  length-append, length-take,
}
use zzt_self.Gw10376.Frame.{is_byte, from_end, le16}
use zzt_self.Meter698.Frame.{
  Link, Header, size_of, frame_of, build_frame, sa_length, hcs_ok, fcs_ok, known_apdu, like_645,
  try_extract, confidence, decode_header, header_of,
}
use zzt_self.Meter698.Frame.RoundTrip.{
  IsLink, length-frame_of, le16-frame_of, end-frame_of, sa_length_alone, length-addr,
  first-frame_of, control-frame_of, ca-frame_of, sa-frame_of, hcs_ok-frame_of, fcs_ok-frame_of,
  apdu-frame_of,
}

-- The outcome of `try_extract` from its tests.
extracted :
    (buf : Bytes) (size : ℕ)
    → le16 buf 1 ≡ size
    → is_byte (get_elem? buf 0) 0x68 ≡ true
    → is_byte (get_elem? buf 3) 0x68 ≡ false
    → get_elem? buf (size + 1) ≡ some 0x16
    → 12 ≤ size
    → size ≤ 2000
    → size + 2 ≤ length buf
    → 12 + sa_length (take (size + 2) buf) ≤ size + 2
    → try_extract buf ≡ some (record { raw = take (size + 2) buf; consumed = size + 2 })
unfolding try_extract
extracted buf size e start control stop low high long room =
    rw e (ground (arith, length-take (size + 2) buf))

starts : (k : Link) (rest : Bytes) → is_byte (get_elem? (frame_of k ++ rest) 0) 0x68 ≡ true
unfolding frame_of
starts k rest = refl

controlled :
    (k : Link) (rest : Bytes)
    → k.control ≢ 0x68
    → is_byte (get_elem? (frame_of k ++ rest) 3) 0x68 ≡ false
unfolding frame_of
controlled k rest h = ground arith

try_extract-frame_of :
    (k : Link) (rest : Bytes)
    → IsLink k
    → k.control ≢ 0x68
    → try_extract (frame_of k ++ rest)
      ≡ some (record { raw = frame_of k; consumed = length (frame_of k) })
try_extract-frame_of k rest ok start =
    let size = length-frame_of k in
    let whole : take (size_of k + 2) (frame_of k ++ rest) ≡ frame_of k =
      take_front (frame_of k) rest size in
    extracted (frame_of k ++ rest) (size_of k) (le16-frame_of k rest (omega (arith, ok.fits)))
      (starts k rest) (controlled k rest start) (end-frame_of k rest)
      (omega (arith, ok.filled, length-addr k ok, ok.announced)) ok.fits
      (omega (arith, size, length-append (frame_of k) rest))
      (omega (arith, ap sa_length whole, sa_length_alone k ok, length-addr k ok, ok.filled))
    ∙ ap (λ r. some (record { raw = r; consumed = size_of k + 2 })) whole
    ∙ ap (λ n. some (record { raw = frame_of k; consumed = n })) (sym size)

-- A request whose control field and client address are bytes is built to a frame, and the frame is
-- extracted from the front of the buffer, whatever bytes follow it, where its address field announces
-- its own length, its APDU has two bytes or more, L is at most 2000 and the control field is not 68H.
pub try_extract-build_frame_prefix :
    (k : Link) (rest : Bytes)
    → IsLink k
    → k.control < 256
    → k.ca < 256
    → k.control ≢ 0x68
    → (raw : Bytes) × (build_frame k ≡ some raw)
      × (try_extract (raw ++ rest) ≡ some (record { raw = raw; consumed = length raw }))
unfolding build_frame
try_extract-build_frame_prefix k rest ok control ca start =
    let is_bytes : (leb 256 k.control || leb 256 k.ca) ≡ false = ground (arith, control, ca) in
    (frame_of k, rw is_bytes refl, try_extract-frame_of k rest ok start)

ladder :
    (a b c d e f g : Bool) (x : ℕ)
    → a ≡ false
    → b ≡ false
    → c ≡ false
    → d ≡ true
    → e ≡ false
    → f ≡ true
    → g ≡ true
    → (if a
        then 0
        else if b
        then 0
        else if c
        then 0
        else if not d
        then 0
        else if e
        then 0
        else if not f
        then 30
        else if not g
        then 50
        else x)
      ≡ x
ladder a b c d e f g x p q r s t u v = rw (p, q, r, s, t, u, v) refl

announced : (k : Link) → size_of k < 65536 → le16 (frame_of k) 1 ≡ size_of k
announced k h = sym (ap (λ bs. le16 bs 1) (append-nil (frame_of k))) ∙ le16-frame_of k [] h

first_alone : (k : Link) (ok : IsLink k) → get_elem? (frame_of k) 4 ≡ some ok.first
first_alone k ok =
    sym (ap (λ bs. get_elem? bs 4) (append-nil (frame_of k))) ∙ first-frame_of k ok []

starts_alone : (k : Link) → is_byte (get_elem? (frame_of k) 0) 0x68 ≡ true
unfolding frame_of
starts_alone k = refl

ends : (k : Link) → from_end (frame_of k) 1 ≡ some 0x16
ends k =
    let at : length (frame_of k) - 1 ≡ size_of k + 1 = omega (arith, length-frame_of k) in
    ap (get_elem? (frame_of k)) at
    ∙ sym (ap (λ bs. get_elem? bs (size_of k + 1)) (append-nil (frame_of k)))
    ∙ end-frame_of k []

-- A built frame gets the highest confidence, 1.0 where the first byte of its APDU is one of the
-- service tags and 0.85 otherwise, under the same conditions and where it does not look like a
-- 645 frame.
pub confidence-frame_of :
    (k : Link)
    → IsLink k
    → k.control ≢ 0x68
    → like_645 (frame_of k) ≡ false
    → confidence (frame_of k) ≡ (if known_apdu (frame_of k) then 100 else 85)
unfolding confidence
confidence-frame_of k ok start other =
    let size = length-frame_of k in
    let room = length-addr k ok in
    ladder _ _ (like_645 (frame_of k)) (length (frame_of k) == le16 (frame_of k) 1 + 2) _
      (hcs_ok (frame_of k)) (fcs_ok (frame_of k)) _
      (ground (arith, size, room, starts_alone k, ends k))
      (ap is_control (sym (append-nil (frame_of k))) ∙ controlled k [] start) other
      (ground (arith, size, announced k (omega (arith, ok.fits))))
      (ground (arith, size, room, sa_length_alone k ok, ok.filled)) (hcs_ok-frame_of k ok)
      (fcs_ok-frame_of k)
  where
    is_control : Bytes → Bool
    is_control bs = is_byte (get_elem? bs 3) 0x68

-- Decoding a built frame, its server address announcing its own length, gives back L, the control
-- field, both addresses and the APDU, with both check sequences valid.
pub decode_header-frame_of :
    (k : Link)
    → IsLink k
    → (h : Header) × (decode_header (frame_of k) ≡ some h)
      × (h.size ≡ size_of k)
      × (h.control ≡ k.control)
      × (h.sa ≡ k.addr_bytes)
      × (h.ca ≡ k.ca)
      × (h.apdu ≡ k.apdu)
      × (h.hcs_passes ≡ true)
      × (h.fcs_passes ≡ true)
unfolding decode_header
decode_header-frame_of k ok = (
  header_of (frame_of k) k.control ok.first k.ca,
  rw (control-frame_of k, first_alone k ok, ca-frame_of k ok) refl,
  announced k (omega (arith, ok.fits)),
  refl,
  sa-frame_of k ok,
  refl,
  apdu-frame_of k ok,
  hcs_ok-frame_of k ok,
  fcs_ok-frame_of k,
)
