-- ===== src/Splitter/Adjacent.antt =====
-- Two 1376.2 frames in one chunk, as `QGDW103762Adapter.try_extract` and `_resync` treat them.
use zzt_self.Base.{
  ℕ, suc, ◌+◌, ◌-◌, ◌≤◌, ◌≡◌, refl, sym, ap, ◌∙◌, ◌≢◌, inl, inr, true, Option, none, some, List, [],
  ◌∷◌, ◌++◌, arith, le→leb, Option-cases, Bytes, length, get_elem?, drop, length-append,
  drop-length-append, drop-length, drop-length,
}
use Prim.Native.String.{String}
use zzt_self.Extract.{Extract}
use zzt_self.Gw10376.Fields.{pack_control}
use zzt_self.Gw10376.Frame
use zzt_self.Gw10376.Frame.{Request, userdata, envelope, build_frame, from_end}
use zzt_self.Gw10376.Frame.RoundTrip.{length-envelope, le16-envelope, end-envelope, get_elem?-front}
use zzt_self.Gw10376.Frame.Laws.{
  build_frame-eq-some, length-userdata, try_extract-build_frame, try_extract-build_frame_more,
}
use zzt_self.Splitter.{
  max_frame, Adapter, Frame, byte_or_zero, total, ends_at, skip_dualmode, skip_envelope, resync,
  drop_noise, first_hit, feed_loop, feed,
}

-- `QGDW103762Adapter`
abbrev pub gw_adapter : Adapter
gw_adapter = record { protocol = "1376.2"; try_extract = Frame.try_extract }

first_hit-append :
    (others : List Adapter) (buf : Bytes)
    → first_hit others buf ≡ none
    → first_hit (others ++ (gw_adapter ∷ [])) buf ≡ first_hit (gw_adapter ∷ []) buf
unfolding first_hit
first_hit-append [] buf h = refl
first_hit-append (a ∷ others) buf h = elim (Option-cases (a.try_extract buf)) [
  | inl e ↦ rw (e, first_hit) (first_hit-append others buf (rw (e, first_hit) at h))
  | inr (res, e) ↦ cc (rw (e, first_hit) at h)
]

first_hit_gw :
    (buf : Bytes) (o : Option Extract)
    → Frame.try_extract buf ≡ o
    → first_hit (gw_adapter ∷ []) buf ≡ elim o [ none ↦ none | some res ↦ some ("1376.2", res) ]
unfolding first_hit
first_hit_gw buf none e = rw (e, first_hit)
first_hit_gw buf (some res) e = rw (e, first_hit)

ends_at-some : (bs : Bytes) (i : ℕ) → get_elem? bs i ≡ some 0x16 → ends_at bs i ≡ true
ends_at-some bs i e = ground arith

skip_envelope-applies :
    (buf : Bytes) (n : ℕ)
    → byte_or_zero buf 0 ≡ 0x68
    → total buf ≡ n
    → 12 ≤ n
    → n ≤ max_frame
    → n ≤ length buf
    → ends_at buf (n - 1) ≡ true
    → skip_envelope buf ≡ some (drop n buf)
unfolding skip_envelope
skip_envelope-applies buf n start size lo hi within ending = rw size (
    rw (
      start,
      ending,
      le→leb 3 (length buf) (omega arith),
      le→leb 12 n lo,
      le→leb n max_frame hi,
      le→leb n (length buf) within,
    ))

resync_start :
    (bs buf' : Bytes) → skip_envelope (0x68 ∷ bs) ≡ some buf' → resync (0x68 ∷ bs) ≡ some buf'
unfolding resync skip_dualmode drop_noise
resync_start bs buf' e = rw e

-- The envelope rule takes a whole frame off the front of what follows it.
resync-envelope :
    (c : ℕ) (user rest : Bytes)
    → 6 ≤ length user
    → length user + 6 ≤ max_frame
    → resync (envelope c user ++ rest) ≡ some rest
resync-envelope c user rest long small =
    let frame = envelope c user in
    let n = length frame in
    let size : total (frame ++ rest) ≡ n =
      omega (arith, length-envelope c user, le16-envelope c user (omega arith)) in
    let last = get_elem?-front frame rest (n - 1) (omega arith) ∙ end-envelope c user in
    resync_start _ _ (
      skip_envelope-applies (frame ++ rest) n refl size (omega (arith, length-envelope c user))
        (omega (arith, length-envelope c user)) (omega (arith, length-append frame rest))
        (ends_at-some (frame ++ rest) (n - 1) last)
      ∙ ap some (drop-length-append frame rest))

resync-build_frame :
    (q : Request) (raw rest : Bytes)
    → build_frame q ≡ some raw
    → length raw ≤ max_frame
    → resync (raw ++ rest) ≡ some rest
resync-build_frame q raw rest built small =
    let (addr, e) = build_frame-eq-some q raw built in
    let c = pack_control q.direction q.prm q.comm_mode in
    let user = userdata q addr in
    let size = rw (length-envelope c user) at (ap length e) in
    rw (← e)
      (resync-envelope c user rest (omega (arith, length-userdata q addr)) (omega (arith, size)))

build_frame_nonempty :
    (q : Request) (raw : Bytes) → build_frame q ≡ some raw → (b : ℕ) × (bs : Bytes) × (raw ≡ b ∷ bs)
build_frame_nonempty q raw built =
    let (addr, e) = build_frame-eq-some q raw built in (0x68, _, sym e)

module _ (adapters : List Adapter) where
  feed_loop-resync :
      (fuel : ℕ) (buf buf' : Bytes)
      → first_hit adapters buf ≡ none
      → resync buf ≡ some buf'
      → feed_loop adapters (suc fuel) buf ≡ feed_loop adapters fuel buf'
  unfolding feed_loop
  feed_loop-resync fuel buf buf' miss moved = rw (miss, feed_loop) (rw moved)

  feed_loop_cut :
      (fuel : ℕ) (buf : Bytes) {protocol : String} {res : Extract} {frames : List Frame}
      {rest : Bytes}
      → first_hit adapters buf ≡ some (protocol, res)
      → feed_loop adapters fuel (drop res.consumed buf) ≡ some (frames, rest)
      → feed_loop adapters (suc fuel) buf
        ≡ some (record { raw = res.raw; protocol = protocol } ∷ frames, rest)
  unfolding feed_loop
  feed_loop_cut fuel buf hit run = rw (hit, feed_loop) (rw run)

  feed_loop_empty :
      (fuel : ℕ) → first_hit adapters [] ≡ none → feed_loop adapters (suc fuel) [] ≡ some ([], [])
  unfolding feed_loop resync
  feed_loop_empty fuel miss = rw (miss, feed_loop)

  feed_loop_whole :
      (fuel : ℕ) (buf : Bytes) (protocol : String)
      → first_hit adapters buf ≡ some (protocol, record { raw = buf; consumed = length buf })
      → first_hit adapters [] ≡ none
      → feed_loop adapters (suc (suc fuel)) buf
        ≡ some (record { raw = buf; protocol = protocol } ∷ [], [])
  feed_loop_whole fuel buf protocol hit miss =
      feed_loop_cut (suc fuel) buf hit
        (ap (feed_loop adapters (suc fuel)) (drop-length buf) ∙ feed_loop_empty fuel miss)

gw_empty : Frame.try_extract [] ≡ none
unfolding Frame.try_extract
gw_empty = refl

length-build_frame : (q : Request) (raw : Bytes) → build_frame q ≡ some raw → 15 ≤ length raw
length-build_frame q raw built =
    let (addr, e) = build_frame-eq-some q raw built in
    let c = pack_control q.direction q.prm q.comm_mode in
    let size = rw (length-envelope c (userdata q addr)) at (ap length e) in
    omega (arith, length-userdata q addr, size)

-- Of two 1376.2 frames in one chunk only the second is returned; the first is skipped as an outer
-- envelope. The other adapters, which are asked first, accept nothing here.
pub feed_adjacent :
    (others : List Adapter) (q1 q2 : Request) (raw1 raw2 : Bytes)
    → build_frame q1 ≡ some raw1
    → build_frame q2 ≡ some raw2
    → length raw1 ≤ max_frame
    → length raw2 ≤ max_frame
    → pack_control q2.direction q2.prm q2.comm_mode ≢ 0x68
    → first_hit others (raw1 ++ raw2) ≡ none
    → first_hit others raw2 ≡ none
    → first_hit others [] ≡ none
    → feed (others ++ (gw_adapter ∷ [])) [] (raw1 ++ raw2)
      ≡ some (record { raw = raw2; protocol = "1376.2" } ∷ [], [])
unfolding feed
feed_adjacent others q1 q2 raw1 raw2 built1 built2 small1 small2 start miss miss2 miss0 =
    let (b, bs, shape) = build_frame_nonempty q2 raw2 built2 in
    let adapters = others ++ (gw_adapter ∷ []) in
    let refused : Frame.try_extract (raw1 ++ raw2) ≡ none =
      rw shape (try_extract-build_frame_more q1 raw1 b bs built1 (omega arith)) in
    let no_hit =
      first_hit-append others (raw1 ++ raw2) miss ∙ first_hit_gw (raw1 ++ raw2) none refused in
    let hit =
      first_hit-append others raw2 miss2
      ∙ first_hit_gw raw2 _ (try_extract-build_frame q2 raw2 built2 start (omega arith)) in
    let empty = first_hit-append others [] miss0 ∙ first_hit_gw [] none gw_empty in
    let fuel = length (raw1 ++ raw2) - 2 in
    let enough : length (raw1 ++ raw2) ≡ suc (suc fuel) =
      omega (arith, length-append raw1 raw2, length-build_frame q1 raw1 built1) in
    ap (λ n. feed_loop adapters (suc n) (raw1 ++ raw2)) enough
    ∙ feed_loop-resync adapters (suc (suc fuel)) (raw1 ++ raw2) raw2 no_hit
        (resync-build_frame q1 raw1 raw2 built1 small1)
    ∙ feed_loop_whole adapters fuel raw2 "1376.2" hit empty
