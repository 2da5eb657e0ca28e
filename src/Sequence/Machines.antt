-- ===== src/Sequence/Machines.antt =====
-- The machines that a tracker holds, whatever lines it was fed.
use zzt_self.Base.{
  ℕ, zero, suc, ◌≤◌, ◌<◌, ◌≡◌, refl, sym, ap, ◌∙◌, ◌⊎◌, inl, inr, Bool, false, not, Option, none,
  some, List, [], ◌∷◌, arith, ltb, leb, Bool-cases, Option-cases, length, length-replicate,
  same_text,
}
use Prim.Native.String.{String}
use mathlib.Core.Path.{subst}
use mathlib.Core.Option.{some-injective}
use zzt_self.Base.Dict.{
  lookup, insert, erase, retain, kept-some, text_key, lookup-insert, lookup-erase, lookup-retain,
  Distinct, Distinct-insert, Distinct-retain, Distinct-erase,
}
use zzt_self.Sequence.{
  Captures, Line, SequenceDef, SequenceMachine, Tracker, set_at, advance, is_expired, expire,
  current_step_for, find_step, machine_for, reset_before, take_step, feed, cleanup, drain,
}

abbrev pub Machines : Type 0
Machines = List (String × SequenceMachine)

-- Started, not finished, with one time for each step.
abbrev pub Open : SequenceDef → SequenceMachine → Type 0
Open seq m =
    (1 ≤ m.current_step)
    × (m.current_step < length seq.steps)
    × (length m.step_times ≡ length seq.steps)

pub record Waiting (seq : SequenceDef) (t : Tracker) : Type 0 where
  pub distinct : Distinct t.machines
  pub opened : (b : String) (m : SequenceMachine) → lookup b t.machines ≡ some m → Open seq m
  pub drained : t.events ≡ []

pub expire-retain :
    (seq : SequenceDef) (now : Option ℕ) (ms : Machines)
    → expire seq now ms ≡ retain (λ m. not (is_expired seq now m)) ms
unfolding expire
expire-retain seq now [] = refl
expire-retain seq now ((b, m) ∷ ms) = ground (arith, expire-retain seq now ms)

length-set_at :
    (i : ℕ) (a : Option String) (xs : List (Option String)) → length (set_at i a xs) ≡ length xs
length-set_at i a [] = refl
length-set_at zero a (x ∷ xs) = refl
length-set_at (suc i) a (x ∷ xs) = omega (arith, length-set_at i a xs)

length-machine_for :
    (seq : SequenceDef) (b : String) (i : ℕ) (line : Line) (ms : Machines)
    → ((m : SequenceMachine) → lookup b ms ≡ some m → Open seq m)
    → length (machine_for seq b i line ms).step_times ≡ length seq.steps
length-machine_for seq b i line ms h = elim (Bool-cases (ltb (current_step_for b ms) i)) [
  | inl e ↦ rw e (length-replicate (length seq.steps) none)
  | inr e ↦ elim (Option-cases (lookup b ms)) [
    | inl n ↦ rw (e, n) (length-replicate (length seq.steps) none)
    | inr (m, n) ↦ rw (e, n) (h m n).2
  ]
]

-- What a step leaves in the dictionary: without the bucket, or with an open machine there.
take_step-cases :
    (seq : SequenceDef) (b : String) (i : ℕ) (caps : Captures) (line : Line) (t : Tracker)
    → let m = advance i line caps (machine_for seq b i line t.machines) in
      let ms = (take_step seq b i caps line t).machines in
      (ms ≡ erase b t.machines)
      ⊎ ((suc i < length seq.steps) × (ms ≡ insert b m (reset_before i b t.machines)))
unfolding take_step
take_step-cases seq b i caps line t = elim (Bool-cases (leb (length seq.steps) (suc i))) [
  | inl e ↦ inl (rw (e, take_step) refl)
  | inr e ↦ inr (ground (arith, e), rw (e, take_step) refl)
]

lookup-reset_before :
    (i : ℕ) (b c : String) (ms : Machines)
    → same_text b c ≡ false
    → lookup c (reset_before i b ms) ≡ lookup c ms
unfolding text_key
lookup-reset_before i b c ms d = ground (arith, d, lookup-erase b c ms)

Distinct-reset_before :
    (i : ℕ) (b : String) (ms : Machines) → Distinct ms → Distinct (reset_before i b ms)
Distinct-reset_before i b ms h = elim (Bool-cases (ltb (current_step_for b ms) i)) [
  | inl e ↦ rw e (Distinct-erase b ms h)
  | inr e ↦ rw e h
]

-- No step touches another bucket.
pub lookup-take_step :
    (seq : SequenceDef) (b c : String) (i : ℕ) (caps : Captures) (line : Line) (t : Tracker)
    → same_text b c ≡ false
    → lookup c (take_step seq b i caps line t).machines ≡ lookup c t.machines
unfolding text_key
lookup-take_step seq b c i caps line t d =
    let m = advance i line caps (machine_for seq b i line t.machines) in
    elim (take_step-cases seq b i caps line t) [
      | inl e ↦ ap (lookup c) e ∙ ground (arith, d, lookup-erase b c t.machines)
      | inr (l, e) ↦
          ap (lookup c) e
          ∙ ground (
            arith,
            d,
            lookup-insert b c m (reset_before i b t.machines),
            lookup-reset_before i b c t.machines d,
          )
    ]

Distinct-take_step :
    (seq : SequenceDef) (b : String) (i : ℕ) (caps : Captures) (line : Line) (t : Tracker)
    → Distinct t.machines
    → Distinct (take_step seq b i caps line t).machines
Distinct-take_step seq b i caps line t h = elim (take_step-cases seq b i caps line t) [
  | inl e ↦ subst Distinct (sym e) (Distinct-erase b t.machines h)
  | inr (l, e) ↦
      subst Distinct (sym e) (Distinct-insert b _ _ (Distinct-reset_before i b t.machines h))
]

-- The machine of the bucket itself, after a step.
Open-take_step :
    (seq : SequenceDef) (b : String) (i : ℕ) (caps : Captures) (line : Line) (t : Tracker)
    → ((c : String) (m : SequenceMachine) → lookup c t.machines ≡ some m → Open seq m)
    → (c : String) (m : SequenceMachine)
    → lookup c (take_step seq b i caps line t).machines ≡ some m
    → Open seq m
unfolding text_key
Open-take_step seq b i caps line t h c m k = elim (Bool-cases (same_text b c)) [
  | inr d ↦ h c m (sym (lookup-take_step seq b c i caps line t d) ∙ k)
  | inl s ↦
      let n = advance i line caps (machine_for seq b i line t.machines) in
      elim (take_step-cases seq b i caps line t) [
        | inl e ↦ ground (arith, s, lookup-erase b c t.machines, ap (lookup c) e, k)
        | inr (l, e) ↦
            let here : n ≡ m = some-injective n m (
              ground (
                arith,
                s,
                lookup-insert b c n (reset_before i b t.machines),
                ap (lookup c) e,
                k,
              )) in
            subst (Open seq) here (
              omega arith,
              l,
              length-set_at i line.time _ ∙ length-machine_for seq b i line t.machines (h b),
            )
      ]
]

cleanup-Waiting :
    (seq : SequenceDef) (now : Option ℕ) (t : Tracker)
    → Waiting seq t
    → Distinct (cleanup seq now t).machines
      × ((c : String) (m : SequenceMachine)
          → lookup c (cleanup seq now t).machines ≡ some m
          → Open seq m)
cleanup-Waiting seq now t w =
    let stays : SequenceMachine → Bool = λ m. not (is_expired seq now m) in
    (
      subst Distinct (sym (expire-retain seq now t.machines))
          (Distinct-retain stays t.machines w.distinct),
      λ c m h.
          w.opened c m
            (kept-some stays (lookup c t.machines) m (
              sym (lookup-retain stays c t.machines w.distinct)
              ∙ ap (lookup c) (sym (expire-retain seq now t.machines))
              ∙ h)).0,
    )

-- A line is taken by a step, or no step matches.
pub feed-cases :
    (seq : SequenceDef) (line : Line) (t : Tracker)
    → let t' = cleanup seq line.stamp t in
      let b = seq.bucket_for line in
      (feed seq line t ≡ drain t')
      ⊎ ((i : ℕ) × (caps : Captures) × (find_step (current_step_for b t'.machines) 0 seq.steps line
            ≡ some (i, caps))
          × (feed seq line t ≡ drain (take_step seq b i caps line t')))
unfolding feed
feed-cases seq line t =
    let t' = cleanup seq line.stamp t in
    let b = seq.bucket_for line in
    elim (Option-cases (find_step (current_step_for b t'.machines) 0 seq.steps line)) [
      | inl e ↦ inl (rw (e, feed) refl)
      | inr ((i, caps), e) ↦ inr (i, caps, e, rw (e, feed) refl)
    ]

pub feed-Waiting :
    (seq : SequenceDef) (line : Line) (t : Tracker)
    → Waiting seq t
    → Waiting seq (feed seq line t).1
feed-Waiting seq line t w =
    let t' = cleanup seq line.stamp t in
    let b = seq.bucket_for line in
    let (distinct, opened) = cleanup-Waiting seq line.stamp t w in
    elim (feed-cases seq line t) [
      | inl e ↦
          subst (λ r. Waiting seq r.1) (sym e)
            (record { distinct = distinct; opened = opened; drained = refl })
      | inr (i, caps, found, e) ↦
          subst (λ r. Waiting seq r.1) (sym e)
            (record {
              distinct = Distinct-take_step seq b i caps line t' distinct;
              opened = Open-take_step seq b i caps line t' opened;
              drained = refl;
            })
    ]
