-- ===== src/Meter645/Extract/Sound.antt =====
-- Whatever `try_extract` returns is a prefix of the buffer, cut where the read position stood.
use zzt_self.Base.{
  ℕ, ◌+◌, ◌≤◌, ◌<◌, ◌≡◌, refl, ◌∙◌, inl, inr, true, Option, none, some, [], ◌∷◌, arith, leb, ◌==◌,
  Option-cases, Bytes, length, get_elem?, when-eq-some, and_then-eq-some, get_elem?-lt,
}
use mathlib.Core.Path.{subst}
use mathlib.Core.Option.{some-injective}
use zzt_self.Base.Reader.{
  require, repeat, >>=-eq-some, Keeps, Keeps-bind, Keeps-require, Keeps-repeat,
}
use zzt_self.Extract.{Extract, IsSlice}
use zzt_self.Meter645.Extract.{
  read_byte, find_start, read_after_start, read_frame, plain_frame, slice_read, starts,
  extract_escaped, extract_plain, try_extract,
}

read_byte-lt : (s r : Bytes) (b : ℕ) → read_byte s ≡ some (b, r) → length r < length s
unfolding read_byte
read_byte-lt [] r b h = cc
read_byte-lt (x ∷ []) r b h = ground arith
read_byte-lt (x ∷ y ∷ s) r b h = ground arith

read_byte-Keeps : Keeps read_byte
read_byte-Keeps s r b h = omega (arith, read_byte-lt s r b h)

read_after_start-Keeps : Keeps read_after_start
unfolding read_after_start
read_after_start-Keeps =
    Keeps-bind (repeat read_byte 6) _ (Keeps-repeat read_byte 6 read_byte-Keeps) λ _.
      Keeps-bind read_byte _ read_byte-Keeps λ second.
        Keeps-bind (require (second == 0x68)) _ (Keeps-require (second == 0x68)) λ _.
          Keeps-bind read_byte _ read_byte-Keeps λ _. Keeps-bind read_byte _ read_byte-Keeps λ size.
            Keeps-bind (require (leb size 200)) _ (Keeps-require (leb size 200)) λ _.
              Keeps-bind (repeat read_byte size) _ (Keeps-repeat read_byte size read_byte-Keeps)
                λ _.
                  Keeps-bind read_byte _ read_byte-Keeps
                    λ _. Keeps-bind read_byte _ read_byte-Keeps λ last. Keeps-require (last == 0x16)

read_frame-lt : (s r : Bytes) (a : Unit {0}) → read_frame s ≡ some (a, r) → length r < length s
unfolding read_frame
read_frame-lt s r a h =
    let (first, s1, e, later) = >>=-eq-some read_byte _ s r a h in
    omega (
      arith,
      read_byte-lt s s1 first e,
      Keeps-bind (require (first == 0x68)) _ (Keeps-require (first == 0x68))
          (λ _. read_after_start-Keeps) s1 r a later,
    )

pub find_start-starts : (s : Bytes) → starts s ≡ true → find_start s ≡ some s
unfolding find_start
find_start-starts [] h = cc
find_start-starts (b ∷ []) h = ground arith
find_start-starts (b ∷ c ∷ r) h = ground arith

slice_read-IsSlice :
    (s : Bytes) (o : Option (Unit {0} × Bytes)) (res : Extract)
    → ((r : Bytes) (a : Unit {0}) → o ≡ some (a, r) → length r < length s)
    → slice_read s o ≡ some res
    → IsSlice s res
slice_read-IsSlice s none res lt h = cc
slice_read-IsSlice s (some (a, r)) res lt h = ground (arith, lt r a refl)

extract_escaped-IsSlice :
    (buf : Bytes) (res : Extract) → extract_escaped buf ≡ some res → IsSlice buf res
unfolding extract_escaped
extract_escaped-IsSlice buf res h =
    let (s, found) = when-eq-some (starts buf) _ h in
    slice_read-IsSlice buf (read_frame buf) res (read_frame-lt buf)
      (rw (find_start-starts buf s) at found)

plain_frame-IsSlice :
    (buf : Bytes) (size : ℕ) → 12 + size ≤ length buf → IsSlice buf (plain_frame buf size)
plain_frame-IsSlice buf size h = record { nonempty = omega arith; within = h; raw_is = refl }

extract_plain-IsSlice :
    (buf : Bytes) (res : Extract) → extract_plain buf ≡ some res → IsSlice buf res
unfolding extract_plain
extract_plain-IsSlice buf res h =
    let (_, h1) = when-eq-some (starts buf) _ h in
    let (second, _, h2) = and_then-eq-some (get_elem? buf 7) _ h1 in
    let (_, h3) = when-eq-some (second == 0x68) _ h2 in
    let (size, _, h4) = and_then-eq-some (get_elem? buf 9) _ h3 in
    let (_, h5) = when-eq-some (leb size 200) _ h4 in
    let (last, e, h6) = and_then-eq-some (get_elem? buf (11 + size)) _ h5 in
    let (_, h7) = when-eq-some (last == 0x16) _ h6 in
    subst (IsSlice buf) (some-injective _ _ h7)
      (plain_frame-IsSlice buf size (omega (arith, get_elem?-lt buf (11 + size) e)))

-- A frame that `try_extract` cuts off is a nonempty prefix of the buffer, as long as `consumed`.
pub try_extract-IsSlice :
    (buf : Bytes) (res : Extract) → try_extract buf ≡ some res → IsSlice buf res
unfolding try_extract
try_extract-IsSlice buf res h = elim (Option-cases (extract_escaped buf)) [
  | inl e ↦ extract_plain-IsSlice buf res (rw (e, try_extract) at h)
  | inr (found, e) ↦ extract_escaped-IsSlice buf res (e ∙ (rw (e, try_extract) at h))
]
