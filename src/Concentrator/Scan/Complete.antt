-- ===== src/Concentrator/Scan/Complete.antt =====
-- `scan_frame` on noise followed by a frame that the concentrator's `build_frame` has built.
use zzt_self.Base.{
  ℕ, suc, ◌+◌, ◌-◌, ◌%◌, ◌^◌, ◌≤◌, ◌<◌, ◌≡◌, refl, sym, ap, ◌∙◌, ◌≢◌, Bool, true, false, not, ◌&&◌,
  some, [], ◌∷◌, ◌++◌, arith, ltb, ◌==◌, if◌then◌else◌, ==_refl, Bytes, length, take, drop, All,
  length-append, take-length-append, sum,
}
use zzt_self.Gw10376.Fields.{pack_control}
use zzt_self.Gw10376.Frame.{Request, is_byte, from_end, le16, build_frame, envelope, userdata}
use zzt_self.Gw10376.Frame.RoundTrip.{length-envelope, take-envelope, end-envelope, cs, cs-envelope}
use zzt_self.Gw10376.Frame.Laws.{build_frame-eq-some, length-userdata}
use zzt_self.Concentrator.Scan.{Scan, is_frame, at_start, scan_from, scan_frame}

scan_from-noise :
    (i : ℕ) (noise buf : Bytes)
    → All (λ b. b ≢ 0x68) noise
    → scan_from i (noise ++ buf) ≡ scan_from (i + length noise) buf
unfolding scan_from
scan_from-noise i [] buf h = ap (λ k. scan_from k buf) (omega arith)
scan_from-noise i (b ∷ noise) buf (other, rest) =
    let not_start : (b == 0x68) ≡ false = ground arith in
    ap
      (λ c.
        if c
        then at_start i (b ∷ (noise ++ buf)) (scan_from (suc i) (noise ++ buf))
        else scan_from (suc i) (noise ++ buf))
      not_start
    ∙ scan_from-noise (suc i) noise buf rest
    ∙ ap (λ k. scan_from k buf) (omega arith)

-- The length bytes and the checksum of an enveloped frame, whatever stands behind it.
module _ (c : ℕ) (user : Bytes) where
  pub le16-more :
      (rest : Bytes) → length user + 6 < 2 ^ 16 → le16 (envelope c user ++ rest) 1 ≡ length user + 6
  le16-more rest h = omega arith

  pub is_frame-envelope : c ≢ 0x68 → is_frame (envelope c user) ≡ true
  is_frame-envelope start =
      let raw = envelope c user in
      let other : not (c == 0x68) ≡ true = ground arith in
      let end : is_byte (from_end raw 1) 0x16 ≡ true =
        ap (λ o. is_byte o 0x16) (end-envelope c user) in
      let check : is_byte (from_end raw 2) (sum (drop 3 (take (length raw - 2) raw)) % 256) ≡ true =
        ap (λ o. is_byte o (sum (drop 3 (take (length raw - 2) raw)) % 256)) (cs-envelope c user)
        ∙ ap (λ front. is_byte (some (cs c user)) (sum (drop 3 front) % 256)) (take-envelope c user)
        ∙ ==_refl (cs c user) in
      all_three _ _ _ other end check
    where
      all_three : (p q r : Bool) → p ≡ true → q ≡ true → r ≡ true → (p && q && r) ≡ true
      all_three p q r h k l = rw (h, k, l) refl

  at_start-envelope :
      (i : ℕ) (rest : Bytes) (next : Scan)
      → c ≢ 0x68
      → 4 ≤ length user
      → length user + 6 < 2 ^ 16
      → at_start i (envelope c user ++ rest) next
        ≡ record { frame = some (envelope c user); consumed = i + length (envelope c user) }
  at_start-envelope i rest next start long small =
      let raw = envelope c user in
      let size = length-envelope c user in
      let announced : le16 (raw ++ rest) 1 ≡ length raw = le16-more rest small ∙ sym size in
      let whole : take (length raw) (raw ++ rest) ≡ raw = take-length-append raw rest in
      let good : is_frame (take (length raw) (raw ++ rest)) ≡ true =
        ap is_frame whole ∙ is_frame-envelope start in
      steps (raw ++ rest) (length raw) announced (ground (arith, size, length-append raw rest))
        (ground (arith, size)) (ground (arith, size, length-append raw rest)) good
      ∙ ap (λ r. record { frame = some r; consumed = i + length raw }) whole
    where
      steps :
          (buf : Bytes) (n : ℕ)
          → le16 buf 1 ≡ n
          → ltb (length buf) 4 ≡ false
          → ltb n 10 ≡ false
          → ltb (length buf) n ≡ false
          → is_frame (take n buf) ≡ true
          → at_start i buf next ≡ record { frame = some (take n buf); consumed = i + n }
      steps buf n e p q r good = rw (e, p, q, r, good) refl

-- Noise without a byte 68H, however long, does not hide the frame behind it: the built frame is
-- returned whole, whatever follows it, and noise and frame are consumed. The frame's control field
-- is not 68H and its length fits the two length bytes.
pub scan_frame-build_frame :
    (noise rest : Bytes) (q : Request) (raw : Bytes)
    → All (λ b. b ≢ 0x68) noise
    → build_frame q ≡ some raw
    → pack_control q.direction q.prm q.comm_mode ≢ 0x68
    → length raw < 2 ^ 16
    → scan_frame (noise ++ (raw ++ rest))
      ≡ record { frame = some raw; consumed = length noise + length raw }
unfolding scan_from
scan_frame-build_frame noise rest q raw quiet built start small =
    let (addr, e) = build_frame-eq-some q raw built in
    let c = pack_control q.direction q.prm q.comm_mode in
    let user = userdata q addr in
    let size : length raw ≡ length user + 6 = sym (ap length e) ∙ length-envelope c user in
    let at : 0 + length noise ≡ length noise = omega arith in
    scan_from-noise 0 noise (raw ++ rest) quiet
    ∙ ap (λ k. scan_from k (raw ++ rest)) at
    ∙ ap (λ bs. scan_from (length noise) (bs ++ rest)) (sym e)
    ∙ at_start-envelope c user (length noise) rest _ start (omega (arith, length-userdata q addr))
        (omega (arith, size))
    ∙ ap (λ bs. record { frame = some bs; consumed = length noise + length bs }) e
