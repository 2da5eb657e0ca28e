-- ===== src/Runs/Cancel.antt =====
-- What the stored status of a run is when its thread is over.
use zzt_self.Base.{◌≡◌, refl, Bool, true, false, ◌&&◌, arith}
use zzt_self.Runs.Outcome.{cancelling, is_terminal, RunVerdict, Ending, reported, submit_status}
use zzt_self.Runs.Lifecycle.{
  World, in_steps, judged, closing, written, gone, outside, found, signalled, marked, submitted,
  end_steps, look_again, Turn, records, ends, looks, writes, leaves, finds, signals, marks, stores,
  Reachable, start, turn,
}

-- A status that is final, where the thread has got so far that there should be one.
abbrev settled : World → Bool
settled w = elim w.target [
  | in_steps ↦ true
  | judged ↦ is_terminal w.status
  | closing ↦ is_terminal w.status
  | written ↦ is_terminal w.stored
  | gone ↦ is_terminal w.stored
]

abbrev before_signal : World → Bool
before_signal w = elim w.caller [
  | outside ↦ true
  | found ↦ true
  | signalled ↦ false
  | marked ↦ false
]

abbrev Calm : World → Type 0
Calm w = w.event_set ≡ false → (before_signal w && settled w) ≡ true

submit_status-terminal : (e : Ending) → is_terminal (submit_status e) ≡ true
unfolding submit_status
submit_status-terminal e = ground arith

Turn-Calm : (v w : World) → Turn v w → Calm v → Calm w
Turn-Calm v _ (records _ t) c e = ground (arith, c e, t)
Turn-Calm v _ (ends x _ t r) c e = ground (arith, c e, t, submit_status-terminal x)
Turn-Calm v _ (looks _ t) c e = ground (arith, c e, t, e)
Turn-Calm v _ (writes _ t) c e = ground (arith, c e, t)
Turn-Calm v _ (leaves _ t) c e = ground (arith, c e, t)
Turn-Calm v _ (finds _ t a) c e = ground (arith, c e, t, a)
Turn-Calm v _ (signals _ t) c e = cc
Turn-Calm v _ (marks _ t) c e = ground (arith, c e, t)
Turn-Calm v _ (stores _ t) c e = ground (arith, c e, t)

Reachable-Calm : (w : World) → Reachable w → Calm w
Reachable-Calm _ start = λ e. refl
Reachable-Calm w (turn v _ r t) = Turn-Calm v w t (Reachable-Calm v r)

-- If the cancel event was never set, a run whose thread is over is stored with a final status.
pub stored-Reachable :
    (w : World) → Reachable w → w.event_set ≡ false → w.target ≡ gone → is_terminal w.stored ≡ true
stored-Reachable w r e g = ground (arith, Reachable-Calm w r e, g)

-- A call of `cancel` that comes late: the thread has looked at the event for the last time, and the
-- call sets the status before the thread writes it.
abbrev after_report : RunVerdict → World
after_report v = look_again (end_steps (reported v) submitted)

abbrev late_mark : RunVerdict → World
late_mark v = record (after_report v) { event_set = true; status = cancelling; caller = marked }

abbrev late_end : RunVerdict → World
late_end v = record (late_mark v) {
  stored = cancelling;
  target = gone;
  active = false;
  caller = outside;
}

reach_report : (v : RunVerdict) → Reachable (after_report v)
reach_report v =
    let over =
      turn submitted (end_steps (reported v) submitted) start
        (ends (reported v) submitted refl (λ e. cc)) in
    turn (end_steps (reported v) submitted) (after_report v) over
      (looks (end_steps (reported v) submitted) refl)

reach_mark : (v : RunVerdict) → Reachable (late_mark v)
reach_mark v =
    let w0 = after_report v in
    let w1 : World = record w0 { caller = found } in
    let w2 : World = record w1 { event_set = true; caller = signalled } in
    turn w2 (late_mark v)
      (turn w1 w2 (turn w0 w1 (reach_report v) (finds w0 refl refl)) (signals w1 refl))
      (marks w2 refl)

reach_end : (v : RunVerdict) → Reachable (late_end v)
reach_end v =
    let w0 = late_mark v in
    let w1 : World = record w0 { stored = cancelling; caller = outside } in
    let w2 : World = record w1 { stored = cancelling; target = written } in
    turn w2 (late_end v) (turn w1 w2 (turn w0 w1 (reach_mark v) (stores w0 refl)) (writes w1 refl))
      (leaves w2 refl)

-- Whatever the verdict, a late `cancel` can leave the run for good in the store as cancelling,
-- which is no final status, with its thread over and its entry gone.
pub cancelling-Reachable :
    (v : RunVerdict)
    → (w : World) × Reachable w
      × (w.target ≡ gone)
      × (w.active ≡ false)
      × (w.stored ≡ cancelling)
      × (is_terminal w.stored ≡ false)
cancelling-Reachable v = (late_end v, reach_end v, refl, refl, refl, refl)
