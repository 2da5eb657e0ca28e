-- ===== src/Sequence/Progress.antt =====
-- How the machine of a line's own bucket moves.
use zzt_self.Base.{
  ℕ, suc, ◌+◌, ◌≤◌, ◌≡◌, refl, ap, ◌∙◌, inl, inr, true, false, Option, none, some, List, [], ◌∷◌,
  ◌++◌, arith, ltb, leb, if◌then◌else◌, lt→ltb, le→leb, Bool-cases, length, All, length-append,
  same_text, same_text_iff,
}
use Prim.Native.String.{String}
use zzt_self.Base.Dict.{lookup, text_key, lookup-insert, lookup-erase}
use zzt_self.Sequence.{
  Captures, Line, SequenceDef, Tracker, expire, expiry_events, feed, cleanup, take_step, drain,
  current_step_for, find_step, machine_for, reset_before, advance, new_machine, complete_event,
}
use zzt_self.Sequence.Machines.{Machines}

-- Steps before the current one are not tried.
find_step-passed :
    (current i : ℕ) (front rest : List (Line → Option Captures)) (line : Line)
    → i + length front ≤ current
    → find_step current i (front ++ rest) line ≡ find_step current (i + length front) rest line
unfolding find_step
find_step-passed current i [] rest line l = ap (λ n. find_step current n rest line) (omega arith)
find_step-passed current i (s ∷ front) rest line l =
    let passed : ltb i current ≡ true = lt→ltb _ _ (omega (arith, l)) in
    let shift : suc i + length front ≡ i + suc (length front) = omega arith in
    rw passed (
      find_step-passed current (suc i) front rest line (omega (arith, l))
      ∙ ap (λ n. find_step current n rest line) shift)

-- Steps that do not match are passed over.
find_step-unmatched :
    (current i : ℕ) (front rest : List (Line → Option Captures)) (line : Line)
    → All (λ s. s line ≡ none) front
    → find_step current i (front ++ rest) line ≡ find_step current (i + length front) rest line
unfolding find_step
find_step-unmatched current i [] rest line h = ap (λ n. find_step current n rest line) (omega arith)
find_step-unmatched current i (s ∷ front) rest line h =
    let shift : suc i + length front ≡ i + suc (length front) = omega arith in
    let later =
      find_step-unmatched current (suc i) front rest line h.1
      ∙ ap (λ n. find_step current n rest line) shift in
    elim (Bool-cases (ltb i current)) [ inl p ↦ rw p later | inr p ↦ rw (p, h.0) later ]

find_step-here :
    (current i : ℕ) (step : Line → Option Captures) (rest : List (Line → Option Captures))
    (line : Line) (caps : Captures)
    → current ≤ i
    → step line ≡ some caps
    → find_step current i (step ∷ rest) line ≡ some (i, caps)
unfolding find_step
find_step-here current i step rest line caps l h =
    let reached : ltb i current ≡ false = ground (arith, l) in rw (reached, h) refl

feed-found :
    (seq : SequenceDef) (line : Line) (t : Tracker) (i : ℕ) (caps : Captures)
    → let t' = cleanup seq line.stamp t in
      let b = seq.bucket_for line in
      find_step (current_step_for b t'.machines) 0 seq.steps line ≡ some (i, caps)
      → feed seq line t ≡ drain (take_step seq b i caps line t')
unfolding feed
feed-found seq line t i caps h = rw (h, feed) refl

current-take_step :
    (seq : SequenceDef) (b : String) (i : ℕ) (caps : Captures) (line : Line) (t : Tracker)
    → current_step_for b (take_step seq b i caps line t).machines
      ≡ (if leb (length seq.steps) (suc i) then 0 else suc i)
unfolding take_step text_key
current-take_step seq b i caps line t =
    let m = advance i line caps (machine_for seq b i line t.machines) in
    let self : same_text b b ≡ true = (same_text_iff b b).1 refl in
    elim (Bool-cases (leb (length seq.steps) (suc i))) [
      | inl e ↦ rw (e, take_step) (ground (arith, self, lookup-erase b b t.machines))
      | inr e ↦
          rw (e, take_step)
            (ground (arith, self, lookup-insert b b m (reset_before i b t.machines)))
    ]

machine_for-fresh :
    (seq : SequenceDef) (b : String) (i : ℕ) (line : Line) (ms : Machines)
    → lookup b ms ≡ none
    → machine_for seq b i line ms ≡ new_machine seq line
machine_for-fresh seq b i line ms h = elim (Bool-cases (ltb (current_step_for b ms) i)) [
  | inl e ↦ rw e refl
  | inr e ↦ rw (e, h) refl
]

-- The events of a last step in a bucket with no machine.
events-take_step :
    (seq : SequenceDef) (b : String) (i : ℕ) (caps : Captures) (line : Line) (t : Tracker)
    → length seq.steps ≤ suc i
    → lookup b t.machines ≡ none
    → (take_step seq b i caps line t).events
      ≡ t.events ++ complete_event seq b (advance i line caps (new_machine seq line))
unfolding take_step
events-take_step seq b i caps line t l h =
    rw (le→leb (length seq.steps) (suc i) l, take_step)
      (ap (λ m. t.events ++ complete_event seq b (advance i line caps m))
        (machine_for-fresh seq b i line t.machines h))

-- A line that matches the step its bucket waits for moves the bucket to the next step, whatever
-- else it matches, and after the last step the bucket starts afresh.
pub feed-next :
    (seq : SequenceDef) (line : Line) (t : Tracker) (front back : List (Line → Option Captures))
    (step : Line → Option Captures) (caps : Captures)
    → seq.steps ≡ front ++ (step ∷ back)
    → current_step_for (seq.bucket_for line) (expire seq line.stamp t.machines) ≡ length front
    → step line ≡ some caps
    → current_step_for (seq.bucket_for line) (feed seq line t).1.machines
      ≡ (if leb (length seq.steps) (suc (length front)) then 0 else suc (length front))
feed-next seq line t front back step caps steps now hit =
    let b = seq.bucket_for line in
    let t' = cleanup seq line.stamp t in
    let found : find_step (length front) 0 (front ++ (step ∷ back)) line
        ≡ some (length front, caps) =
      find_step-passed (length front) 0 front (step ∷ back) line (omega arith)
      ∙ ap (λ n. find_step (length front) n (step ∷ back) line) (omega arith)
      ∙ find_step-here (length front) (length front) step back line caps (omega arith) hit in
    ap (λ r. current_step_for b r.1.machines)
      (feed-found seq line t (length front) caps (rw (now, steps) found))
    ∙ current-take_step seq b (length front) caps line t'

-- A line that matches only the last step, in a bucket with no machine, completes the sequence at
-- once: the event is returned although no other step was seen.
pub feed-last_step :
    (seq : SequenceDef) (line : Line) (t : Tracker) (front : List (Line → Option Captures))
    (step : Line → Option Captures) (caps : Captures)
    → seq.steps ≡ front ++ (step ∷ [])
    → lookup (seq.bucket_for line) (expire seq line.stamp t.machines) ≡ none
    → All (λ s. s line ≡ none) front
    → step line ≡ some caps
    → (feed seq line t).0
      ≡ (t.events ++ expiry_events seq line.stamp t.machines)
        ++ complete_event seq
            (seq.bucket_for line)
            (advance (length front) line caps (new_machine seq line))
feed-last_step seq line t front step caps steps fresh misses hit =
    let b = seq.bucket_for line in
    let t' = cleanup seq line.stamp t in
    let found : find_step 0 0 (front ++ (step ∷ [])) line ≡ some (length front, caps) =
      find_step-unmatched 0 0 front (step ∷ []) line misses
      ∙ ap (λ n. find_step 0 n (step ∷ []) line) (omega arith)
      ∙ find_step-here 0 (length front) step [] line caps (omega arith) hit in
    let current : current_step_for b (expire seq line.stamp t.machines) ≡ 0 =
      rw (fresh, current_step_for) refl in
    let whole : length seq.steps ≡ suc (length front) =
      ap length steps ∙ omega (arith, length-append front (step ∷ [])) in
    ap (λ r. r.0) (feed-found seq line t (length front) caps (rw (current, steps) found))
    ∙ events-take_step seq b (length front) caps line t' (omega (arith, whole)) fresh
