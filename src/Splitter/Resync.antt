-- ===== src/Splitter/Resync.antt =====
-- Every resynchronisation step takes at least one byte off the front, and a buffer that none applies
-- to is short.
use zzt_self.Base.{
  ℕ, ◌-◌, ◌≤◌, ◌≡◌, refl, sym, ◌≢◌, Bool, true, false, not, ◌&&◌, Option, none, some, List, [], ◌∷◌,
  arith, ltb, leb, ◌==◌, not-eq-true, Bytes, length, drop, All, mem, when, drop-length,
}
use zzt_self.Splitter.{
  max_frame, frame_start_bytes, find, find_later, positions, smallest, first_start, next_start,
  cut_or_clear, cut_if_found, byte_or_zero, total, ends_at, drop_noise, skip_dualmode,
  skip_envelope, skip_truncated, skip_oversized, ◌or_else◌, resync,
}

-- `buf'` is `buf` with its first `size` bytes taken off, one at least.
pub record IsCut (buf buf' : Bytes) : Type 0 where
  pub size : ℕ
  pub progress : 1 ≤ size
  pub rest_is : buf' ≡ drop size buf

abbrev Cuts : Bytes → Option Bytes → Type 0
Cuts buf none = Unit
Cuts buf (some buf') = IsCut buf buf'

-- A position that is found is past the front.
abbrev IsLate : Option ℕ → Type 0
IsLate none = Unit
IsLate (some p) = 1 ≤ p

smallest-IsLate : (ps : List ℕ) → All (λ p. 1 ≤ p) ps → IsLate (smallest ps)
unfolding smallest
smallest-IsLate [] h = tt
smallest-IsLate (p ∷ ps) h = ground (arith, smallest-IsLate ps h.1)

add_late :
    (o : Option ℕ) (ps : List ℕ)
    → IsLate o
    → All (λ p. 1 ≤ p) ps
    → All (λ p. 1 ≤ p) (elim o [ none ↦ ps | some p ↦ p ∷ ps ])
add_late none ps h k = k
add_late (some p) ps h k = (h, k)

positions-late :
    (at : ℕ → Option ℕ) (bs : Bytes)
    → All (λ b. IsLate (at b)) bs
    → All (λ p. 1 ≤ p) (positions at bs)
positions-late at [] h = tt
positions-late at (b ∷ bs) h = add_late (at b) (positions at bs) h.0 (positions-late at bs h.1)

find_later-IsLate : (b : ℕ) (buf : Bytes) → IsLate (find_later b buf)
find_later-IsLate b [] = tt
find_later-IsLate b (x ∷ xs) = ground arith

find-IsLate : (b x : ℕ) (xs : Bytes) → x ≢ b → IsLate (find b (x ∷ xs))
unfolding find
find-IsLate b x xs h = ground arith

next_start-IsLate : (buf : Bytes) → IsLate (next_start buf)
next_start-IsLate buf = smallest-IsLate (positions (λ b. find_later b buf) frame_start_bytes) (
    positions-late (λ b. find_later b buf) frame_start_bytes
      (
        find_later-IsLate 0x68 buf,
        (
          find_later-IsLate 0x11 buf,
          (find_later-IsLate 0x12 buf, (find_later-IsLate 0x1A buf, tt)),
        ),
      ))

first_start-IsLate :
    (x : ℕ) (xs : Bytes) → mem x frame_start_bytes ≡ false → IsLate (first_start (x ∷ xs))
first_start-IsLate x xs h = smallest-IsLate (positions (λ b. find b (x ∷ xs)) frame_start_bytes) (
    positions-late (λ b. find b (x ∷ xs)) frame_start_bytes
      (
        find-IsLate 0x68 x xs (ground arith),
        (
          find-IsLate 0x11 x xs (ground arith),
          (find-IsLate 0x12 x xs (ground arith), (find-IsLate 0x1A x xs (ground arith), tt)),
        ),
      ))

cut_or_clear-IsCut :
    (o : Option ℕ) (x : ℕ) (xs : Bytes) → IsLate o → IsCut (x ∷ xs) (cut_or_clear o (x ∷ xs))
cut_or_clear-IsCut none x xs h = record {
  size = length (x ∷ xs);
  progress = omega arith;
  rest_is = sym (drop-length (x ∷ xs));
}
cut_or_clear-IsCut (some p) x xs h = record { size = p; progress = h; rest_is = refl }

cut_if_found-Cuts : (o : Option ℕ) (buf : Bytes) → IsLate o → Cuts buf (cut_if_found o buf)
cut_if_found-Cuts none buf h = tt
cut_if_found-Cuts (some p) buf h = record { size = p; progress = h; rest_is = refl }

when-Cuts :
    (c : Bool) (o : Option Bytes) (buf : Bytes) → (c ≡ true → Cuts buf o) → Cuts buf (when c o)
when-Cuts true o buf h = h refl
when-Cuts false o buf h = tt

or_else-Cuts : (o p : Option Bytes) (buf : Bytes) → Cuts buf o → Cuts buf p → Cuts buf (o or_else p)
or_else-Cuts none p buf h k = k
or_else-Cuts (some b) p buf h k = h

module _ (x : ℕ) (xs : Bytes) where
  drop_noise-Cuts : Cuts (x ∷ xs) (drop_noise (x ∷ xs))
  unfolding drop_noise
  drop_noise-Cuts = when-Cuts (not (mem x frame_start_bytes)) _ (x ∷ xs) (λ h.
      cut_or_clear-IsCut (first_start (x ∷ xs)) x xs
        (first_start-IsLate x xs (not-eq-true (mem x frame_start_bytes) h)))

  skip_dualmode-Cuts : Cuts (x ∷ xs) (skip_dualmode (x ∷ xs))
  unfolding skip_dualmode
  skip_dualmode-Cuts =
      when-Cuts _ _ (x ∷ xs)
        (λ h. cut_if_found-Cuts (next_start (x ∷ xs)) (x ∷ xs) (next_start-IsLate (x ∷ xs)))

  skip_truncated-Cuts : Cuts (x ∷ xs) (skip_truncated (x ∷ xs))
  unfolding skip_truncated
  skip_truncated-Cuts =
      when-Cuts _ _ (x ∷ xs)
        (λ h. cut_if_found-Cuts (next_start (x ∷ xs)) (x ∷ xs) (next_start-IsLate (x ∷ xs)))

  skip_oversized-Cuts : Cuts (x ∷ xs) (skip_oversized (x ∷ xs))
  unfolding skip_oversized
  skip_oversized-Cuts =
      when-Cuts (ltb max_frame (length (x ∷ xs)))
        (some (cut_or_clear (next_start (x ∷ xs)) (x ∷ xs))) (x ∷ xs)
        (λ h. cut_or_clear-IsCut (next_start (x ∷ xs)) x xs (next_start-IsLate (x ∷ xs)))

total_pos : (a b c d e : Bool) (n : ℕ) → (a && b && leb 12 n && c && d && e) ≡ true → 1 ≤ n
total_pos a b c d e n h = ground arith

skip_envelope-Cuts : (buf : Bytes) → Cuts buf (skip_envelope buf)
unfolding skip_envelope
skip_envelope-Cuts buf = when-Cuts _ (some (drop (total buf) buf)) buf (λ h. record {
  size = total buf;
  progress =
      total_pos (byte_or_zero buf 0 == 0x68) (leb 3 (length buf)) (leb (total buf) max_frame)
        (leb (total buf) (length buf)) (ends_at buf (total buf - 1)) (total buf) h;
  rest_is = refl;
})

resync-Cuts : (buf : Bytes) → Cuts buf (resync buf)
unfolding resync
resync-Cuts [] = tt
resync-Cuts (x ∷ xs) = or_else-Cuts (drop_noise (x ∷ xs)) _ (x ∷ xs) (drop_noise-Cuts x xs) (
    or_else-Cuts (skip_dualmode (x ∷ xs)) _ (x ∷ xs) (skip_dualmode-Cuts x xs) (
      or_else-Cuts (skip_envelope (x ∷ xs)) _ (x ∷ xs) (skip_envelope-Cuts (x ∷ xs)) (
        or_else-Cuts (skip_truncated (x ∷ xs)) _ (x ∷ xs) (skip_truncated-Cuts x xs)
          (skip_oversized-Cuts x xs))))

-- A step that applies leaves a proper suffix of the buffer.
pub resync-IsCut : (buf buf' : Bytes) → resync buf ≡ some buf' → IsCut buf buf'
resync-IsCut buf buf' e = rw e at (resync-Cuts buf)

-- A buffer that no step applies to holds at most `MAX_FRAME` bytes.
pub resync-none : (buf : Bytes) → resync buf ≡ none → length buf ≤ max_frame
unfolding resync skip_oversized
resync-none [] h = omega arith
resync-none (x ∷ xs) h = ground (arith)
