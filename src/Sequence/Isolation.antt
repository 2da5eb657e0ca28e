-- ===== src/Sequence/Isolation.antt =====
-- Any lines fed to a tracker: what every state has, and what a line does to other buckets.
use zzt_self.Base.{
  ℕ, ◌≡◌, refl, ap, ◌∙◌, ◌≢◌, inl, inr, true, false, not, Option, some, [], ◌∷◌, arith, ltb, lt→ltb,
  length, same_text, same_text_iff,
}
use Prim.Native.String.{String}
use zzt_self.Base.Dict.{lookup, kept, text_key, lookup-retain, lookup-head, lookup-tail, Distinct}
use zzt_self.Sequence.{
  Line, SequenceDef, SequenceMachine, Tracker, is_expired, expire, feed, flush, open_events,
  timeout_event, cleanup,
}
use zzt_self.Sequence.Machines.{
  Machines, Open, Waiting, expire-retain, lookup-take_step, feed-cases, feed-Waiting,
}

-- A new tracker, and those after lines and flushes.
pub data Reachable (seq : SequenceDef) : Tracker → Type 0 where
  new : Reachable seq (record { machines = []; events = [] })
  fed : (line : Line) (t : Tracker) → Reachable seq t → Reachable seq (feed seq line t).1
  flushed : (t : Tracker) → Reachable seq t → Reachable seq (flush seq t).1

empty-Waiting : (seq : SequenceDef) → Waiting seq (record { machines = []; events = [] })
empty-Waiting seq = record { distinct = tt; opened = λ b m h. cc; drained = refl }

-- Whatever lines were fed, each bucket has at most one machine, every machine has taken a step and
-- still waits for one, and no event is left to be returned.
pub Reachable-Waiting : (seq : SequenceDef) (t : Tracker) → Reachable seq t → Waiting seq t
unfolding flush
Reachable-Waiting seq _ new = empty-Waiting seq
Reachable-Waiting seq _ (fed line t r) = feed-Waiting seq line t (Reachable-Waiting seq t r)
Reachable-Waiting seq _ (flushed t r) = empty-Waiting seq

lookup-expire :
    (seq : SequenceDef) (now : Option ℕ) (c : String) (t : Tracker)
    → Distinct t.machines
    → lookup c (expire seq now t.machines)
      ≡ kept (λ m. not (is_expired seq now m)) (lookup c t.machines)
lookup-expire seq now c t d =
    ap (lookup c) (expire-retain seq now t.machines) ∙ lookup-retain _ c t.machines d

-- A line leaves the machine of every other bucket as it is, unless its window is over at the time
-- of the line.
pub lookup-feed :
    (seq : SequenceDef) (line : Line) (t : Tracker) (c : String)
    → Reachable seq t
    → seq.bucket_for line ≢ c
    → lookup c (feed seq line t).1.machines
      ≡ kept (λ m. not (is_expired seq line.stamp m)) (lookup c t.machines)
lookup-feed seq line t c r d =
    let b = seq.bucket_for line in
    let t' = cleanup seq line.stamp t in
    let old = lookup-expire seq line.stamp c t (Reachable-Waiting seq t r).distinct in
    let other : same_text b c ≡ false = ground (arith, d, same_text_iff b c) in
    elim (feed-cases seq line t) [
      | inl e ↦ ap (λ x. lookup c x.1.machines) e ∙ old
      | inr (i, caps, found, e) ↦
          ap (λ x. lookup c x.1.machines) e ∙ lookup-take_step seq b c i caps line t' other ∙ old
    ]

-- The events of machines that all still wait for a step.
length-open_events :
    (seq : SequenceDef) (ms : Machines)
    → seq.on_timeout ≡ true
    → Distinct ms
    → ((b : String) (m : SequenceMachine) → lookup b ms ≡ some m → Open seq m)
    → length (open_events seq ms) ≡ length ms
unfolding open_events timeout_event text_key
length-open_events seq [] on d h = refl
length-open_events seq ((b, m) ∷ ms) on d h =
    let waits : ltb m.current_step (length seq.steps) ≡ true =
      lt→ltb _ _ (h b m (lookup-head b m ms)).1 in
    let rest : length (open_events seq ms) ≡ length ms =
      length-open_events seq ms on d.1 (λ c n k. h c n (lookup-tail b c m n ms d k)) in
    rw (waits, on) (omega (arith, rest))

-- With `on_timeout` a flush reports every machine, one event each, and leaves none.
pub flush-Reachable :
    (seq : SequenceDef) (t : Tracker)
    → Reachable seq t
    → seq.on_timeout ≡ true
    → (length (flush seq t).0 ≡ length t.machines) × ((flush seq t).1.machines ≡ [])
unfolding flush
flush-Reachable seq t r on =
    let w = Reachable-Waiting seq t r in
    (rw w.drained (length-open_events seq t.machines on w.distinct w.opened), refl)
