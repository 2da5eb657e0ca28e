-- ===== src/Meter645/Extract/Complete.antt =====
-- A frame in any wire form is extracted, with nothing of what follows it.
use mathlib.Core.Path.{subst, ap₂}
use zzt_self.Base.{
  ℕ, suc, ◌+◌, ◌-◌, ◌%◌, ◌≤◌, ◌≡◌, refl, sym, ap, ◌∙◌, true, some, [], ◌∷◌, ◌++◌, append_assoc,
  arith, lt→ltb, le→leb, Bytes, length, take, drop, length-append, take-length-append,
  drop-length-append, sum,
}
use zzt_self.Base.Reader.{◌>>=◌}
use zzt_self.Meter645.Escape.{NoMark, escape, unescape}
use zzt_self.Meter645.Build.{
  body, frame, build_frame, build_frame-eq, escape_frame, build_frame_escaped,
}
use zzt_self.Meter645.Extract.Sound.{find_start-starts}
use zzt_self.Meter645.Extract.Wire.{
  Wire, nil, bare, NoMark-append-Wire, escape-Wire, Wire-read_byte, Wire-repeat, read_byte-bare,
  unescape-Wire,
}
use zzt_self.Meter645.Extract.{read_after_start, read_frame, starts, extract_escaped, try_extract}

-- The logical bytes of a frame behind its start byte, with any checksum.
abbrev pub behind_start : Bytes → ℕ → Bytes → ℕ → Bytes
behind_start addr control domain cs =
    addr ++ (0x68 ∷ control ∷ length domain ∷ (domain ++ (cs ∷ 0x16 ∷ [])))

Wire-nil : {w : Bytes} → Wire w [] → w ≡ []
Wire-nil nil = refl

-- What an attempt returns once the frame has been read.
extract_escaped-read :
    (s rest : Bytes)
    → starts s ≡ true
    → read_frame s ≡ some (tt, rest)
    → extract_escaped s
      ≡ some (record { raw = take (length s - length rest) s; consumed = length s - length rest })
unfolding extract_escaped
extract_escaped-read s rest h e = rw (h, find_start-starts s h, e)

module _ (addr : Bytes) (control : ℕ) (domain : Bytes) (cs : ℕ) where
  read_after_start-Wire :
      {w : Bytes}
      → length addr ≡ 6
      → length domain ≤ 200
      → Wire w (behind_start addr control domain cs)
      → (r : Bytes) → read_after_start (w ++ r) ≡ some (tt, r)
  unfolding read_after_start
  read_after_start-Wire six small h r =
      let (w1, r1, h1) = Wire-repeat addr _ h in
      let (w2, r2, h2) = Wire-read_byte 0x68 _ h1 in
      let (w3, r3, h3) = Wire-read_byte control _ h2 in
      let (w4, r4, h4) = Wire-read_byte (length domain) _ h3 in
      let (w5, r5, h5) = Wire-repeat domain _ h4 in
      let (w6, r6, h6) = Wire-read_byte cs _ h5 in
      let (w7, r7, h7) = Wire-read_byte 0x16 _ h6 in
      rw (rw six at (r1 r), ◌>>=◌)
        (rw (r2 r, ◌>>=◌)
          (rw (r3 r, ◌>>=◌)
            (rw (r4 r, ◌>>=◌)
              (rw (le→leb _ _ small, ◌>>=◌)
                (rw (r5 r, ◌>>=◌) (rw (r6 r, ◌>>=◌) (rw (r7 r, ◌>>=◌) (rw (Wire-nil h7)))))))))

  read_frame-Wire :
      {w : Bytes}
      → length addr ≡ 6
      → length domain ≤ 200
      → Wire w (behind_start addr control domain cs)
      → (r : Bytes) → read_frame (0x68 ∷ (w ++ r)) ≡ some (tt, r)
  unfolding read_frame
  read_frame-Wire {w} six small h r =
      rw (read_byte-bare 0x68 (w ++ r) (omega arith), ◌>>=◌) (read_after_start-Wire six small h r)

  -- Any wire form of a frame with a six-byte address and at most 200 data bytes is extracted, to
  -- its last byte, whatever checksum it carries and whatever follows it.
  pub try_extract-Wire :
      {w : Bytes} (rest : Bytes)
      → length addr ≡ 6
      → length domain ≤ 200
      → Wire w (behind_start addr control domain cs)
      → try_extract (0x68 ∷ (w ++ rest))
        ≡ some (record { raw = 0x68 ∷ w; consumed = suc (length w) })
  unfolding try_extract
  try_extract-Wire {w} rest six small h =
      let s = 0x68 ∷ (w ++ rest) in
      let size : length s - length rest ≡ suc (length w) = omega (arith, length-append w rest) in
      rw (extract_escaped-read s rest refl (read_frame-Wire six small h rest), try_extract)
        (rw (size, take-length-append w rest))

-- `build_frame_escaped` returns the wire form that escapes control code, length, data and checksum.
abbrev checksum : Bytes → ℕ → Bytes → ℕ
checksum addr control domain = sum (body addr control domain) % 256

abbrev pub escaped_tail : Bytes → ℕ → Bytes → Bytes
escaped_tail addr control domain =
    addr
    ++ (0x68
        ∷ (escape (control ∷ length domain ∷ (domain ++ (checksum addr control domain ∷ [])))
            ++ (0x16 ∷ [])))

-- A frame whose first eight bytes are `hd` and whose last one is `last`.
escape_frame-append :
    (hd mid : Bytes) (last : ℕ)
    → length hd ≡ 8
    → escape_frame (hd ++ (mid ++ (last ∷ []))) ≡ some (hd ++ (escape mid ++ (last ∷ [])))
unfolding escape_frame
escape_frame-append hd mid last eight =
    let s = hd ++ (mid ++ (last ∷ [])) in
    let regroup : s ≡ (hd ++ mid) ++ (last ∷ []) = sym (append_assoc hd mid (last ∷ [])) in
    let size : length s ≡ 8 + length mid + 1 =
      omega (arith, length-append hd (mid ++ (last ∷ [])), length-append mid (last ∷ [])) in
    let short : length s - 1 ≡ length (hd ++ mid) = omega (arith, length-append hd mid) in
    let whole : take (length s - 1) s ≡ hd ++ mid =
      ap₂ take short regroup ∙ take-length-append (hd ++ mid) (last ∷ []) in
    let ending : drop (length s - 1) s ≡ last ∷ [] =
      ap₂ drop short regroup ∙ drop-length-append (hd ++ mid) (last ∷ []) in
    let front : take 8 s ≡ hd =
      ap (λ n. take n s) (sym eight) ∙ take-length-append hd (mid ++ (last ∷ [])) in
    let middle : drop 8 (hd ++ mid) ≡ mid =
      ap (λ n. drop n (hd ++ mid)) (sym eight) ∙ drop-length-append hd mid in
    rw (lt→ltb 7 (length s) (omega arith), whole, ending, front, middle)

module _ (addr : Bytes) (control : ℕ) (domain : Bytes) where
  frame_tail-Wire :
      NoMark addr
      → Wire
          (escaped_tail addr control domain)
          (behind_start addr control domain (checksum addr control domain))
  frame_tail-Wire h = NoMark-append-Wire addr h (
      bare (omega arith) (
        subst
          (λ bs.
            Wire
              (escape (control ∷ length domain ∷ (domain ++ (checksum addr control domain ∷ [])))
                ++ (0x16 ∷ []))
              bs)
          (ap (λ bs. control ∷ length domain ∷ bs) (append_assoc domain _ _))
          (escape-Wire (control ∷ length domain ∷ (domain ++ (checksum addr control domain ∷ [])))
            (bare (omega arith) nil))))

  pub build_frame_escaped-eq :
      length addr ≡ 6
      → control ≤ 255
      → length domain ≤ 255
      → build_frame_escaped addr control domain ≡ some (0x68 ∷ escaped_tail addr control domain)
  unfolding build_frame_escaped
  build_frame_escaped-eq six small fits =
      let cs = checksum addr control domain in
      let mid = control ∷ length domain ∷ (domain ++ (cs ∷ [])) in
      let hd = 0x68 ∷ (addr ++ (0x68 ∷ [])) in
      let shape : frame addr control domain ≡ hd ++ (mid ++ (0x16 ∷ [])) = simp append_assoc in
      rw (build_frame-eq addr control domain small fits, build_frame_escaped)
        (ap escape_frame shape
          ∙ escape_frame-append hd mid 0x16 (omega (arith, length-append addr (0x68 ∷ [])))
          ∙ rw (append_assoc addr (0x68 ∷ []) (escape mid ++ (0x16 ∷ []))))

  -- A frame built with escapes is cut off a stream exactly, whatever follows it.
  pub try_extract-build_frame_escaped :
      (rest : Bytes)
      → length addr ≡ 6
      → NoMark addr
      → control ≤ 255
      → length domain ≤ 200
      → (w : Bytes) × (build_frame_escaped addr control domain ≡ some w)
        × (try_extract (w ++ rest) ≡ some (record { raw = w; consumed = length w }))
  try_extract-build_frame_escaped rest six bare_addr small fits = (
    0x68 ∷ escaped_tail addr control domain,
    build_frame_escaped-eq six small (omega arith),
    try_extract-Wire addr control domain _ rest six fits (frame_tail-Wire bare_addr),
  )

  -- Undoing the escapes gives back the frame that `build_frame` builds.
  pub unescape-build_frame_escaped :
      length addr ≡ 6
      → NoMark addr
      → control ≤ 255
      → length domain ≤ 255
      → (w : Bytes) × (build_frame_escaped addr control domain ≡ some w)
        × (build_frame addr control domain ≡ some (unescape w))
  unescape-build_frame_escaped six bare_addr small fits =
      let plain = unescape-Wire (bare {b = 0x68} (omega arith) (frame_tail-Wire bare_addr)) in
      (
        0x68 ∷ escaped_tail addr control domain,
        build_frame_escaped-eq six small fits,
        build_frame-eq addr control domain small fits ∙ ap some (sym (plain ∙ simp append_assoc)),
      )
