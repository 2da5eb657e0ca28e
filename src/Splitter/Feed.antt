-- ===== src/Splitter/Feed.antt =====
-- The properties of `feed`: it ends, it loses and invents nothing but what it skips, and what it
-- keeps back is bounded and cannot be cut any more.
use zzt_self.Base.{
  ℕ, zero, suc, ◌≤◌, ◌<◌, ◌≡◌, ap, ◌∙◌, inl, inr, none, some, List, [], ◌∷◌, ◌++◌, append-nil,
  arith, Option-cases, Bytes, length, take, drop, All, length-drop,
}
use Prim.Native.String.{String}
use mathlib.Core.Path.{subst}
use zzt_self.Extract.{Extract, IsSlice}
use zzt_self.Splitter.Resync.{resync-IsCut, resync-none}
use zzt_self.Splitter.{max_frame, Adapter, Frame, resync, first_hit, feed_loop, feed}

-- What `feed` relies on: an adapter that accepts returns a nonempty prefix of the buffer.
abbrev pub IsLawful : Adapter → Type 0
IsLawful a = (buf : Bytes) (res : Extract) → a.try_extract buf ≡ some res → IsSlice buf res

first_hit-IsSlice :
    (adapters : List Adapter) (buf : Bytes) (protocol : String) (res : Extract)
    → All IsLawful adapters
    → first_hit adapters buf ≡ some (protocol, res)
    → IsSlice buf res
unfolding first_hit
first_hit-IsSlice [] buf protocol res lawful h = cc
first_hit-IsSlice (a ∷ adapters) buf protocol res lawful h =
    elim (Option-cases (a.try_extract buf)) [
      | inl e ↦ first_hit-IsSlice adapters buf protocol res lawful.1 (rw (e, first_hit) at h)
      | inr (r, e) ↦
          let same : some (a.protocol, r) ≡ some (protocol, res) = rw (e, first_hit) at h in
          subst (IsSlice buf) (cc) (lawful.0 buf r e)
    ]

-- How a stream splits: frames in order, with skipped bytes between them, and a tail that neither an
-- adapter nor a resynchronisation takes anything off.
pub data Splits (adapters : List Adapter) : Bytes → List Frame → Bytes → Type 0 where
  stop :
      {buf : Bytes} → first_hit adapters buf ≡ none → resync buf ≡ none → Splits adapters buf [] buf
  cut :
      {buf rest : Bytes} {frames : List Frame} {f : Frame} (res : Extract)
      → first_hit adapters buf ≡ some (f.protocol, res)
      → 1 ≤ res.consumed
      → f.raw ≡ take res.consumed buf
      → Splits adapters (drop res.consumed buf) frames rest
      → Splits adapters buf (f ∷ frames) rest
  skip :
      {buf rest : Bytes} {frames : List Frame} (size : ℕ)
      → first_hit adapters buf ≡ none
      → resync buf ≡ some (drop size buf)
      → 1 ≤ size
      → Splits adapters (drop size buf) frames rest
      → Splits adapters buf frames rest

resync_nonempty : (buf buf' : Bytes) → resync buf ≡ some buf' → 1 ≤ length buf
unfolding resync
resync_nonempty [] buf' e = cc
resync_nonempty (x ∷ xs) buf' e = omega arith

module _ (adapters : List Adapter) (lawful : All IsLawful adapters) where
  feed_loop-Splits :
      (fuel : ℕ) (buf : Bytes)
      → length buf < fuel
      → (frames : List Frame) × (rest : Bytes) × (feed_loop adapters fuel buf ≡ some (frames, rest))
        × Splits adapters buf frames rest
  unfolding feed_loop
  feed_loop-Splits zero buf h = absurd (omega arith)
  feed_loop-Splits (suc fuel) buf h = elim (Option-cases (first_hit adapters buf)) [
    | inr ((protocol, res), hit) ↦
        let slice = first_hit-IsSlice adapters buf protocol res lawful hit in
        let (frames, rest, run, splits) =
          feed_loop-Splits fuel (drop res.consumed buf)
            (omega (arith, slice.nonempty, slice.within, length-drop res.consumed buf)) in
        (
          record { raw = res.raw; protocol = protocol } ∷ frames,
          rest,
          rw (hit, feed_loop) (rw run),
          cut res hit slice.nonempty slice.raw_is splits,
        )
    | inl miss ↦ elim (Option-cases (resync buf)) [
      | inl stuck ↦ ([], buf, rw (miss, feed_loop) (rw stuck), stop miss stuck)
      | inr (buf', moved) ↦
          let c = resync-IsCut buf buf' moved in
          let (frames, rest, run, splits) =
            feed_loop-Splits fuel (drop c.size buf)
              (omega (arith, c.progress, length-drop c.size buf, resync_nonempty buf buf' moved)) in
          (
            frames,
            rest,
            rw (miss, feed_loop) (rw (moved, c.rest_is) run),
            skip c.size miss (moved ∙ ap some c.rest_is) c.progress splits,
          )
    ]
  ]

  -- With lawful adapters `feed` always ends, and the buffer with the chunk splits into the frames
  -- that it returns, in order, what resynchronisation skips, and what it keeps.
  pub feed-Splits :
      (buf chunk : Bytes)
      → (frames : List Frame) × (rest : Bytes) × (feed adapters buf chunk ≡ some (frames, rest))
        × Splits adapters (buf ++ chunk) frames rest
  unfolding feed
  feed-Splits buf chunk =
      feed_loop-Splits (suc (length (buf ++ chunk))) (buf ++ chunk) (omega arith)

module _ (adapters : List Adapter) where
  Splits-tail :
      {buf rest : Bytes} {frames : List Frame}
      → Splits adapters buf frames rest
      → (first_hit adapters rest ≡ none) × (resync rest ≡ none)
  Splits-tail (stop miss stuck) = (miss, stuck)
  Splits-tail (cut res hit n e s) = Splits-tail s
  Splits-tail (skip size miss moved n s) = Splits-tail s

  feed_loop_stuck :
      (fuel : ℕ) (buf : Bytes)
      → first_hit adapters buf ≡ none
      → resync buf ≡ none
      → feed_loop adapters (suc fuel) buf ≡ some ([], buf)
  unfolding feed_loop
  feed_loop_stuck fuel buf miss stuck = rw (miss, feed_loop) (rw stuck)

-- Of a stream of any length, `feed` keeps at most `MAX_FRAME` bytes back.
pub feed_pending :
    (adapters : List Adapter)
    → All IsLawful adapters
    → (buf chunk : Bytes) {frames : List Frame} {rest : Bytes}
    → feed adapters buf chunk ≡ some (frames, rest)
    → length rest ≤ max_frame
feed_pending adapters lawful buf chunk h =
    let (frames', rest', run, splits) = feed-Splits adapters lawful buf chunk in
    resync-none _ (subst (λ r. resync r ≡ none) (cc) (Splits-tail adapters splits).1)

-- What is kept back holds nothing more: feeding nothing again cuts nothing and changes nothing.
pub feed_again :
    (adapters : List Adapter)
    → All IsLawful adapters
    → (buf chunk : Bytes) {frames : List Frame} {rest : Bytes}
    → feed adapters buf chunk ≡ some (frames, rest)
    → feed adapters rest [] ≡ some ([], rest)
unfolding feed
feed_again adapters lawful buf chunk {frames} {rest} h =
    let (frames', rest', run, splits) = feed-Splits adapters lawful buf chunk in
    let same : rest' ≡ rest = cc in
    let (miss, stuck) =
      Splits-tail adapters (subst (λ r. Splits adapters (buf ++ chunk) frames' r) same splits) in
    rw (append-nil rest) (feed_loop_stuck adapters (length rest) rest miss stuck)
