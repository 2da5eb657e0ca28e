-- ===== src/Xmodem/Send/Delivery.antt =====
-- What a receiver has at the end of a transfer, from the packets that it acknowledged.
use mathlib.Core.Option.{some-injective}
use native.Mathlib.Decide.{dec_lt}
use zzt_self.Base.{
  ℕ, zero, suc, ◌+◌, ◌-◌, ◌%◌, ◌≤◌, ◌<◌, min, ◌≡◌, refl, sym, ap, ◌∙◌, inl, inr, false, Option,
  none, some, List, [], ◌∷◌, ◌++◌, append-nil, append_assoc, arith, ltb, ◌==◌, if◌then◌else◌,
  ==_refl, Option-cases, Bytes, length, take, drop, replicate, length-append, take-append-drop,
  length-take, length-drop, length-replicate, take_all, drop-drop, drop-length, when, and_then,
  drop-length, same,
}
use zzt_self.Xmodem.Packet.{pad, packet, take_packet, take_packet-packet, build_xmodem_packet-eq}
use zzt_self.Xmodem.Line.{Window, acked, refused, cancelled, timed_out, next_window}
use zzt_self.Xmodem.Send.{
  Exchange, sent, try_send, Job, block_at, Run, eot, report, eot_loop, attempts, data_loop,
  send_xmodem,
}

abbrev pub next_number : ℕ → ℕ
next_number number = (number + 1) % 256

-- A receiver that expects packet `number`: it takes the blocks of the packets that it acknowledges,
-- each under the number expected, up to the EOT that it acknowledges. It is `none` if a number is
-- wrong, a packet is damaged, or no EOT is acknowledged.
pub received : Job → ℕ → List Exchange → Option Bytes
received job number [] = none
received job number (x ∷ xs) =
    let later = received job (next_number number) xs in
    let again = received job number xs in
    elim x.response [
      | acked ↦
          if same x.written eot
          then some []
          else and_then (take_packet job.use_crc job.block_size x.written)
              (λ got. when (got.0 == number) (and_then later (λ bytes. some (got.1 ++ bytes))))
      | refused ↦ again
      | cancelled ↦ again
      | timed_out ↦ again
    ]

-- Refused and lost copies of a packet are passed over.
received-try_send :
    (job : Job) (number n : ℕ) (w : Bytes) (line : List Window) (rest : List Exchange)
    → (try_send n w line).0 ≡ sent
    → received job number ((try_send n w line).1 ++ rest)
      ≡ received job number (record { written = w; response = acked } ∷ rest)
unfolding received try_send
received-try_send job number zero w line rest h = cc
received-try_send job number (suc n) w line rest h =
    ground (arith, received-try_send job number n w (next_window line).1 rest)

-- The number of writes is bounded by the retries.
pub length-try_send : (n : ℕ) (w : Bytes) (line : List Window) → length (try_send n w line).1 ≤ n
unfolding try_send
length-try_send zero w line = omega arith
length-try_send (suc n) w line = ground (arith, length-try_send n w (next_window line).1)

pub length-block_at : (job : Job) (offset : ℕ) → length (block_at job offset) ≡ job.block_size
unfolding block_at
length-block_at job offset =
    let part = take job.block_size (drop offset job.image) in
    omega (
      arith,
      length-append part (replicate (job.block_size - length part) pad),
      length-replicate (job.block_size - length part) pad,
      length-take job.block_size (drop offset job.image),
    )

same-eot : (h n i : ℕ) (rest : Bytes) → same (h ∷ n ∷ i ∷ rest) eot ≡ false
same-eot h n i rest = ground arith

received-packet :
    (job : Job) (number : ℕ) (block : Bytes) (xs : List Exchange)
    → length block ≡ job.block_size
    → number < 256
    → received job number
        (record { written = packet block number job.use_crc job.block_size; response = acked } ∷ xs)
      ≡ and_then (received job (next_number number) xs) (λ bytes. some (block ++ bytes))
unfolding received
received-packet job number block xs size small =
    let low : number % 256 ≡ number = omega arith in
    rw (same-eot _ _ _ _) (
      rw (take_packet-packet block number job.block_size job.use_crc size, and_then)
        (rw (low, ==_refl number)))

pub attempts-eq :
    (job : Job) (offset number : ℕ) (line : List Window)
    → attempts job offset number line
      ≡ try_send job.max_retries
          (packet (block_at job offset) number job.use_crc job.block_size)
          line
unfolding attempts
attempts-eq job offset number line = rw (
  build_xmodem_packet-eq (block_at job offset) number job.block_size job.use_crc
      (length-block_at job offset),
  attempts,
)

-- The exchanges of one packet that is acknowledged, and what follows them.
received-attempts :
    (job : Job) (offset number : ℕ) (line : List Window) (xs : List Exchange)
    → number < 256
    → (attempts job offset number line).0 ≡ sent
    → received job number ((attempts job offset number line).1 ++ xs)
      ≡ and_then
          (received job (next_number number) xs)
          (λ bytes. some (block_at job offset ++ bytes))
received-attempts job offset number line xs small h =
    let e = attempts-eq job offset number line in
    let w = packet (block_at job offset) number job.use_crc job.block_size in
    rw e (
      received-try_send job number job.max_retries w line xs (rw e at h)
      ∙ received-packet job number (block_at job offset) xs (length-block_at job offset) small)

received-eot_loop :
    (job : Job) (number : ℕ) (line : List Window)
    → (eot_loop job line).outcome ≡ none
    → received job number (eot_loop job line).exchanges ≡ some []
unfolding eot_loop
received-eot_loop job number line h =
    let done : (try_send job.max_retries eot line).0 ≡ sent = ground arith in
    ap (received job number) (sym (append-nil (try_send job.max_retries eot line).1))
    ∙ received-try_send job number job.max_retries eot line [] done
    ∙ (unfold received in refl)

abbrev pub offset_after : Job → ℕ → ℕ
offset_after job offset = offset + min job.block_size (length job.image - offset)

-- A round of the loop that is part of a successful run.
data_loop-round :
    (fuel : ℕ) (job : Job) (offset number last : ℕ) (line : List Window) (run : Run)
    → data_loop (suc fuel) job offset number last line ≡ some run
    → run.outcome ≡ none
    → offset < length job.image
    → ((attempts job offset number line).0 ≡ sent)
      × (last' : ℕ) × (rest : Run) × (data_loop fuel job
            (offset_after job offset)
            (next_number number)
            last'
            (attempts job offset number line).2
          ≡ some rest)
      × (rest.outcome ≡ none)
      × (run.exchanges ≡ (attempts job offset number line).1 ++ rest.exchanges)
unfolding data_loop
data_loop-round fuel job offset number last line run h ok more =
    let offset' = offset_after job offset in
    let last' = (report job last offset').1 in
    let left = (attempts job offset number line).2 in
    elim (Option-cases (data_loop fuel job offset' (next_number number) last' left)) [
      | inl e ↦ absurd (ground (arith, e))
      | inr (rest, e) ↦ (ground arith, last', rest, e, ground (arith, e), ground (arith, e))
    ]

-- The padded block and what is still to come make up the rest of the image, padded.
padded :
    (n k : ℕ) (d : Bytes)
    → 0 < length d
    → (length d ≤ n → k ≡ 0)
    → k < n
    → (k' : ℕ) × (k' < n)
      × ((take n d ++ replicate (n - length (take n d)) pad)
            ++ (drop (min n (length d)) d ++ replicate k pad)
          ≡ d ++ replicate k' pad)
padded n k d pos last small = elim (dec_lt n (length d)) [
  | yes long ↦
      let full : length (take n d) ≡ n = omega (arith, length-take n d) in
      let none_left : n - length (take n d) ≡ 0 = omega arith in
      let whole : min n (length d) ≡ n = omega arith in
      (
        k,
        small,
        rw (none_left, whole)
            (rw append-nil
              (rw (← append_assoc) (ap (λ s. s ++ replicate k pad) (take-append-drop n d)))),
      )
  | no short ↦
      let fits : length d ≤ n = omega arith in
      let whole : min n (length d) ≡ length d = omega arith in
      (
        n - length d,
        omega arith,
        rw (take_all n d fits, whole, last fits) (rw (drop-length d) (rw append-nil)),
      )
]

-- What a receiver has once everything from `offset` on has been sent.
abbrev Delivered : Job → ℕ → Option Bytes → Type 0
Delivered job offset got =
    (k : ℕ) × (k < job.block_size)
    × (length job.image ≤ offset → k ≡ 0)
    × (got ≡ some (drop offset job.image ++ replicate k pad))

data_loop-end :
    (fuel : ℕ) (job : Job) (offset number last : ℕ) (line : List Window) (run : Run)
    → length job.image ≤ offset
    → data_loop (suc fuel) job offset number last line ≡ some run
    → eot_loop job line ≡ run
unfolding data_loop
data_loop-end fuel job offset number last line run past h =
    let over : ltb offset (length job.image) ≡ false = ground arith in
    some-injective _ _ (rw (over, data_loop) at h)

-- One packet in front of what was delivered behind it.
Delivered-attempts :
    (job : Job) (offset number : ℕ) (line : List Window) (rest all : List Exchange)
    → number < 256
    → offset < length job.image
    → (attempts job offset number line).0 ≡ sent
    → all ≡ (attempts job offset number line).1 ++ rest
    → Delivered job (offset_after job offset) (received job (next_number number) rest)
    → Delivered job offset (received job number all)
Delivered-attempts job offset number line rest all small more ended joined (k, few, last, got) =
    let d = drop offset job.image in
    let size = length-drop offset job.image in
    let (k', few', eq) =
      padded job.block_size k d (omega (arith, size)) (λ h. last (omega (arith, size))) few in
    let split : drop (offset_after job offset) job.image ≡ drop (min job.block_size (length d)) d =
      ap (λ n. drop (offset + min job.block_size n) job.image) (sym size)
      ∙ drop-drop offset (min job.block_size (length d)) job.image in
    (
      k',
      few',
      (λ h. absurd (omega arith)),
      ap (received job number) joined
          ∙ received-attempts job offset number line rest small ended
          ∙ rw got (ap some (rw split (unfold block_at in eq))),
    )

data_loop-Delivered :
    (fuel : ℕ) (job : Job) (offset number last : ℕ) (line : List Window) (run : Run)
    → 0 < job.block_size
    → number < 256
    → offset ≤ length job.image
    → data_loop fuel job offset number last line ≡ some run
    → run.outcome ≡ none
    → Delivered job offset (received job number run.exchanges)
data_loop-Delivered zero job offset number last line run pos small within h ok =
    absurd (unfold data_loop in cc)
data_loop-Delivered (suc fuel) job offset number last line run pos small within h ok =
    elim (dec_lt offset (length job.image)) [
      | yes more ↦
          let (ended, last', rest, e, ok', joined) =
            data_loop-round fuel job offset number last line run h ok more in
          Delivered-attempts job offset number line rest.exchanges run.exchanges small more ended
            joined
            (data_loop-Delivered fuel job (offset_after job offset) (next_number number) last'
              (attempts job offset number line).2 rest pos (omega arith) (omega arith) e ok')
      | no done ↦
          let past : length job.image ≤ offset = omega arith in
          let e = data_loop-end fuel job offset number last line run past h in
          let sent_eot = received-eot_loop job number line (ap (λ (r : Run). r.outcome) e ∙ ok) in
          let whole : offset ≡ length job.image = omega arith in
          (0, pos, (λ _. refl), rw (← e) (sent_eot ∙ rw whole (rw (drop-length job.image))))
    ]

-- If `send_xmodem` returns without an error, the receiver has exactly the image, padded to a whole
-- number of blocks, each packet taken once under its number, and it has acknowledged the EOT;
-- whatever was refused, lost or repeated on the way.
pub send_xmodem-Delivered :
    (job : Job) (line : List Window) (run : Run)
    → 0 < job.block_size
    → send_xmodem job line ≡ some run
    → run.outcome ≡ none
    → (k : ℕ) × (k < job.block_size)
      × (received job 1 run.exchanges ≡ some (job.image ++ replicate k pad))
unfolding send_xmodem
send_xmodem-Delivered job line run pos h ok =
    let (k, few, _, got) =
      data_loop-Delivered (suc (length job.image)) job 0 1 0 line run pos (omega arith)
        (omega arith) h ok in
    (k, few, got)
