-- ===== src/Xmodem/Packet.antt =====
-- `crc16_xmodem` and `build_xmodem_packet`.
use zzt_self.Base.{
  ℕ, zero, suc, ◌+◌, ◌-◌, ◌*◌, ◌/◌, ◌%◌, ◌^◌, ◌≡◌, refl, Bool, true, false, not, ◌&&◌, Option, none,
  some, [], ◌∷◌, ◌++◌, arith, leb, ◌==◌, if◌then◌else◌, le→leb, ==_refl, take_front, drop_front,
  Bytes, length, take, drop, length-append, sum, when, same, same_refl,
}
use Prim.Native.Nat.{bit_xor}

abbrev pub soh : ℕ
soh = 0x01

abbrev pub stx : ℕ
stx = 0x02

abbrev pub pad : ℕ
pad = 0x1A

-- One round of the inner loop; `crc & 0x8000` is the top bit of sixteen.
unfoldable pub crc_bit : ℕ → ℕ
crc_bit crc = if crc / 2 ^ 15 % 2 == 1 then bit_xor (crc * 2) 0x1021 % 2 ^ 16 else crc * 2 % 2 ^ 16

unfoldable pub rounds : ℕ → ℕ → ℕ
unfolding crc_bit
rounds zero crc = crc
rounds (suc n) crc = rounds n (crc_bit crc)

unfoldable pub crc_from : ℕ → Bytes → ℕ
unfolding rounds
crc_from crc [] = crc
crc_from crc (b ∷ bs) = crc_from (rounds 8 (bit_xor crc (b % 256 * 256))) bs

-- `crc16_xmodem` over the whole of its argument.
unfoldable pub crc16_xmodem : Bytes → ℕ
unfolding crc_from
crc16_xmodem bs = crc_from 0 bs % 2 ^ 16

-- What stands behind the block: the CRC, high byte first, or the sum.
abbrev pub trailer : Bool → Bytes → Bytes
trailer use_crc block =
    if use_crc
    then (crc16_xmodem block / 256 % 256) ∷ (crc16_xmodem block % 256) ∷ []
    else (sum block % 256) ∷ []

abbrev pub packet : Bytes → ℕ → Bool → ℕ → Bytes
packet block number use_crc block_size =
    (if block_size == 128 then soh else stx)
    ∷ (number % 256)
    ∷ ((255 - number % 256) % 256)
    ∷ (block ++ trailer use_crc block)

-- `none` is the `ValueError` of a block of another size.
unfoldable pub build_xmodem_packet : Bytes → ℕ → Bool → ℕ → Option Bytes
build_xmodem_packet block number use_crc block_size =
    if not (length block == block_size) then none else some (packet block number use_crc block_size)

-- What a receiver does with a packet: it checks header, number and trailer, and takes the block.
abbrev pub take_packet : Bool → ℕ → Bytes → Option (ℕ × Bytes)
take_packet use_crc block_size (header ∷ number ∷ inverse ∷ rest) =
    when
      (header == (if block_size == 128 then soh else stx)
        && number + inverse == 255
        && leb block_size (length rest))
      (let block = take block_size rest in
        when (same (drop block_size rest) (trailer use_crc block)) (some (number, block)))
take_packet use_crc block_size _ = none

length-trailer :
    (use_crc : Bool) (block : Bytes)
    → 3 + length (trailer use_crc block) ≡ (if use_crc then 5 else 4)
length-trailer true block = refl
length-trailer false block = refl

pub build_xmodem_packet-eq :
    (block : Bytes) (number block_size : ℕ) (use_crc : Bool)
    → length block ≡ block_size
    → build_xmodem_packet block number use_crc block_size
      ≡ some (packet block number use_crc block_size)
unfolding build_xmodem_packet
build_xmodem_packet-eq block number block_size use_crc size = ground (arith, size)

pub take_packet-packet :
    (block : Bytes) (number block_size : ℕ) (use_crc : Bool)
    → length block ≡ block_size
    → take_packet use_crc block_size (packet block number use_crc block_size)
      ≡ some (number % 256, block)
take_packet-packet block number block_size use_crc size =
    let tail = trailer use_crc block in
    let header = if block_size == 128 then soh else stx in
    let inverse : (number % 256 + (255 - number % 256) % 256 == 255) ≡ true = ground arith in
    let fits : leb block_size (length (block ++ tail)) ≡ true =
      le→leb _ _ (omega (arith, length-append block tail)) in
    rw (==_refl header, inverse, fits)
      (rw (take_front block tail size, drop_front block tail size) (rw (same_refl tail)))

-- A receiver takes back number and block from every packet that is built, whatever the mode.
pub take_packet-build_xmodem_packet :
    (block : Bytes) (number block_size : ℕ) (use_crc : Bool)
    → length block ≡ block_size
    → (w : Bytes) × (build_xmodem_packet block number use_crc block_size ≡ some w)
      × (take_packet use_crc block_size w ≡ some (number % 256, block))
      × (length w ≡ block_size + (if use_crc then 5 else 4))
take_packet-build_xmodem_packet block number block_size use_crc size = (
  packet block number use_crc block_size,
  build_xmodem_packet-eq block number block_size use_crc size,
  take_packet-packet block number block_size use_crc size,
  omega (arith, length-append block (trailer use_crc block), length-trailer use_crc block),
)
