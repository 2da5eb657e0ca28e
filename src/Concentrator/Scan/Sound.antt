-- ===== src/Concentrator/Scan/Sound.antt =====
-- What `scan_frame` returns, on any buffer.
use zzt_self.Base.{
  ℕ, suc, ◌+◌, ◌-◌, ◌%◌, ◌^◌, ◌≤◌, ◌<◌, ◌≡◌, refl, sym, ap, ◌∙◌, ◌≢◌, ◌⊎◌, inl, inr, true, false,
  not, ◌&&◌, Option, none, some, [], ◌∷◌, ◌++◌, arith, ltb, ◌==◌, ==_iff, &&_true, Bytes, length,
  get_elem?, take, drop, length-append, take-length-append, sum, both_ways, if-holds,
}
use zzt_self.Gw10376.Frame.{le16, is_byte, from_end, envelope}
use zzt_self.Concentrator.Scan.{Scan, pending, is_frame, at_start, scan_from, scan_frame}
use zzt_self.Concentrator.Scan.Complete.{le16-more, is_frame-envelope}
use mathlib.Core.Option.{some-injective}
use zzt_self.Gw10376.Frame.RoundTrip.{length-envelope}

-- The frame found in `buf` after `before` bytes, where the scan had skipped `i` bytes before `buf`:
-- where it starts and ends, its control field, its end byte and its checksum.
pub record Hit (i : ℕ) (buf raw : Bytes) (res : Scan) : Type 0 where
  pub before : ℕ
  pub raw_is : raw ≡ take (le16 (drop before buf) 1) (drop before buf)
  pub starts : get_elem? (drop before buf) 0 ≡ some 0x68
  pub long : 10 ≤ le16 (drop before buf) 1
  pub inside : before + le16 (drop before buf) 1 ≤ length buf
  pub control : get_elem? raw 3 ≢ some 0x68
  pub ends : from_end raw 1 ≡ some 0x16
  pub sums : from_end raw 2 ≡ some (sum (drop 3 (take (length raw - 2) raw)) % 256)
  pub consumed_is : res.consumed ≡ i + before + le16 (drop before buf) 1

-- A byte 68H that holds the scan up: its four bytes, or the bytes that it announces, are not all
-- there yet.
abbrev pub HoldsUp : Bytes → Type 0
HoldsUp buf =
    (get_elem? buf 0 ≡ some 0x68)
    × ((length buf < 4) ⊎ ((10 ≤ le16 buf 1) × (length buf < le16 buf 1)))

-- A whole frame with the user data `user` in `buf` behind `noise`.
pub record FrameBehind (noise buf : Bytes) : Type 0 where
  pub control : ℕ
  pub user : Bytes
  pub rest : Bytes
  pub buf_is : buf ≡ noise ++ (envelope control user ++ rest)
  pub no_start : control ≢ 0x68
  pub long : 4 ≤ length user
  pub small : length user + 6 < 2 ^ 16

-- A hit, with no whole frame that starts earlier; or nothing with nothing to drop, and any whole
-- frame stands behind a byte that holds the scan up.
pub data Outcome (i : ℕ) (buf : Bytes) (res : Scan) : Type 0 where
  found :
      (raw : Bytes)
      → res.frame ≡ some raw
      → (h : Hit i buf raw res)
      → ((noise : Bytes) → FrameBehind noise buf → h.before ≤ length noise)
      → Outcome i buf res
  waits :
      res ≡ pending
      → ((noise : Bytes)
          → FrameBehind noise buf
          → (j : ℕ) × (j < length noise) × HoldsUp (drop j buf))
      → Outcome i buf res

is_byte-eq : (o : Option ℕ) (b : ℕ) → is_byte o b ≡ true → o ≡ some b
is_byte-eq none b h = absurd (both_ways refl h)
is_byte-eq (some a) b h = ap some ((==_iff a b).0 h)

is_byte-other : (o : Option ℕ) (b : ℕ) → is_byte o b ≡ false → o ≢ some b
is_byte-other none b h e = absurd (apart e)
  where
    apart : none ≢ some b
    apart k = cc
is_byte-other (some a) b h e = both_ways h ((==_iff a b).1 (some-injective a b e))

-- The three tests of `is_frame`.
is_frame-tests :
    (raw : Bytes)
    → is_frame raw ≡ true
    → (get_elem? raw 3 ≢ some 0x68)
      × (from_end raw 1 ≡ some 0x16)
      × (from_end raw 2 ≡ some (sum (drop 3 (take (length raw - 2) raw)) % 256))
is_frame-tests raw h =
    let third = is_byte (get_elem? raw 3) 0x68 in
    let end = is_byte (from_end raw 1) 0x16 in
    let check = is_byte (from_end raw 2) (sum (drop 3 (take (length raw - 2) raw)) % 256) in
    let (both, checked) = &&_true (not third && end) check h in
    let (other, ended) = &&_true (not third) end both in
    (
      is_byte-other (get_elem? raw 3) 0x68 (ground (arith, other)),
      is_byte-eq (from_end raw 1) 0x16 ended,
      is_byte-eq (from_end raw 2) _ checked,
    )

-- What a whole frame at the front of the buffer means for the tests of the scan.
front_tests :
    (buf : Bytes)
    → FrameBehind [] buf
    → (10 ≤ le16 buf 1)
      × (le16 buf 1 ≤ length buf)
      × (get_elem? buf 0 ≡ some 0x68)
      × (is_frame (take (le16 buf 1) buf) ≡ true)
front_tests buf f =
    let raw = envelope f.control f.user in
    let size = length-envelope f.control f.user in
    let announced : le16 buf 1 ≡ length raw =
      ap (λ b. le16 b 1) f.buf_is ∙ le16-more f.control f.user f.rest f.small ∙ sym size in
    let whole : take (le16 buf 1) buf ≡ raw =
      ap (λ n. take n buf) announced
      ∙ ap (take (length raw)) f.buf_is
      ∙ take-length-append raw f.rest in
    (
      omega (arith, announced, size, f.long),
      omega (arith, announced, ap length f.buf_is, length-append raw f.rest),
      ap (λ b. get_elem? b 0) f.buf_is,
      ap is_frame whole ∙ is_frame-envelope f.control f.user f.no_start,
    )

behind_tail :
    (x b : ℕ) (noise rest : Bytes) → FrameBehind (x ∷ noise) (b ∷ rest) → FrameBehind noise rest
behind_tail x b noise rest f = record {
  control = f.control;
  user = f.user;
  rest = f.rest;
  buf_is = ap (drop 1) f.buf_is;
  no_start = f.no_start;
  long = f.long;
  small = f.small;
}

module _ (b : ℕ) (rest : Bytes) (none_here : FrameBehind [] (b ∷ rest) → ⊥) where
  held_later :
      ((noise : Bytes)
        → FrameBehind noise rest
        → (j : ℕ) × (j < length noise) × HoldsUp (drop j rest))
      → (noise : Bytes) → FrameBehind noise (b ∷ rest)
      → (j : ℕ) × (j < length noise) × HoldsUp (drop j (b ∷ rest))
  held_later later [] f = absurd (none_here f)
  held_later later (x ∷ noise) f =
      let (j, lt, holds) = later noise (behind_tail x b noise rest f) in
      (suc j, omega (arith, lt), holds)

  no_earlier :
      (before : ℕ)
      → ((noise : Bytes) → FrameBehind noise rest → before ≤ length noise)
      → (noise : Bytes) → FrameBehind noise (b ∷ rest)
      → suc before ≤ length noise
  no_earlier before first [] f = absurd (none_here f)
  no_earlier before first (x ∷ noise) f = omega (arith, first noise (behind_tail x b noise rest f))

  one_later : (i : ℕ) (res : Scan) → Outcome (suc i) rest res → Outcome i (b ∷ rest) res
  one_later i res (waits e later) = waits e (held_later later)
  one_later i res (found raw e h first) =
      let here : Hit i (b ∷ rest) raw res = record {
        before = suc h.before;
        raw_is = h.raw_is;
        starts = h.starts;
        long = h.long;
        inside = omega (arith, h.inside);
        control = h.control;
        ends = h.ends;
        sums = h.sums;
        consumed_is = omega (arith, h.consumed_is);
      } in
      found raw e here (no_earlier h.before first)

  -- The scan is held up at the front.
  held_here : (i : ℕ) (res : Scan) → HoldsUp (b ∷ rest) → res ≡ pending → Outcome i (b ∷ rest) res
  held_here i res holds e = waits e front
    where
      front :
          (noise : Bytes)
          → FrameBehind noise (b ∷ rest)
          → (j : ℕ) × (j < length noise) × HoldsUp (drop j (b ∷ rest))
      front [] f = absurd (none_here f)
      front (x ∷ noise) f = (0, omega arith, holds)

at_start-Outcome :
    (i b : ℕ) (rest : Bytes) (next : Scan)
    → b ≡ 0x68
    → Outcome (suc i) rest next
    → Outcome i (b ∷ rest) (at_start i (b ∷ rest) next)
at_start-Outcome i b rest next e h =
    let buf = b ∷ rest in
    let start : get_elem? buf 0 ≡ some 0x68 = ap some e in
    if-holds (Outcome i buf) (ltb (length buf) 4) _ _
      (λ few.
        held_here b rest
          (λ f. absurd (ground (arith, few, (front_tests buf f).0, (front_tests buf f).1))) i
          pending (start, inl (ground (arith, few))) refl)
      (λ _.
        if-holds (Outcome i buf) (ltb (le16 buf 1) 10) _ _
          (λ short.
            one_later b rest (λ f. absurd (ground (arith, short, (front_tests buf f).0))) i next h)
          (λ enough.
            if-holds (Outcome i buf) (ltb (length buf) (le16 buf 1)) _ _
              (λ over.
                held_here b rest (λ f. absurd (ground (arith, over, (front_tests buf f).1))) i
                  pending (start, inr (ground (arith, enough), ground (arith, over))) refl)
              (λ fits.
                if-holds (Outcome i buf) (is_frame (take (le16 buf 1) buf)) _ _
                  (λ good.
                    let (control, ends, sums) = is_frame-tests (take (le16 buf 1) buf) good in
                    let here : Hit i buf (take (le16 buf 1) buf) (record {
                      frame = some (take (le16 buf 1) buf);
                      consumed = i + le16 buf 1;
                    }) =
                      record {
                        before = 0;
                        raw_is = refl;
                        starts = start;
                        long = ground (arith, enough);
                        inside = ground (arith, fits);
                        control = control;
                        ends = ends;
                        sums = sums;
                        consumed_is = omega arith;
                      } in
                    found (take (le16 buf 1) buf) refl here (λ noise f. omega arith))
                  (λ bad. one_later b rest (λ f. both_ways bad (front_tests buf f).3) i next h))))

scan_from-Outcome : (i : ℕ) (buf : Bytes) → Outcome i buf (scan_from i buf)
unfolding scan_from
scan_from-Outcome i [] = waits refl (λ noise f. absurd (
    omega (
      arith,
      ap length f.buf_is,
      length-append noise (envelope f.control f.user ++ f.rest),
      length-append (envelope f.control f.user) f.rest,
      length-envelope f.control f.user,
    )))
scan_from-Outcome i (b ∷ rest) =
    let later = scan_from-Outcome (suc i) rest in
    if-holds (Outcome i (b ∷ rest)) (b == 0x68) _ _
      (λ e. at_start-Outcome i b rest (scan_from (suc i) rest) ((==_iff b 0x68).0 e) later)
      (λ other.
        one_later b rest
          (λ f.
            both_ways other
              ((==_iff b 0x68).1 (some-injective b 0x68 (front_tests (b ∷ rest) f).2)))
          i (scan_from (suc i) rest) later)

-- `scan_frame` returns a frame or waits. A frame starts with 68H, is as long as it announces, all
-- there, with no second 68H at position 3, ends with 16H, and its checksum is the sum of the bytes
-- from the control field on; the bytes up to its end are consumed, and no whole frame of the buffer
-- starts earlier. It waits, with nothing consumed, only where each whole frame of the buffer stands
-- behind a byte 68H for which bytes are missing.
pub scan_frame-Outcome : (buf : Bytes) → Outcome 0 buf (scan_frame buf)
scan_frame-Outcome buf = scan_from-Outcome 0 buf
