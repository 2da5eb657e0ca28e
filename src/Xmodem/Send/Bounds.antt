-- ===== src/Xmodem/Send/Bounds.antt =====
-- `send_xmodem` ends, after a bounded number of writes.
use zzt_self.Base.{
  ℕ, zero, suc, ◌+◌, ◌-◌, ◌*◌, ◌≤◌, ◌<◌, min, ◌≡◌, refl, false, Option, some, List, arith, ltb,
  lt→ltb, length, length-append,
}
use native.Mathlib.Decide.{dec_lt}
use zzt_self.Xmodem.Line.{Window}
use zzt_self.Xmodem.Send.{
  Exchange, Attempt, sent, given_up, stopped, invalid, Job, Run, eot, failed, failed_after_retries,
  cancelled_transfer, invalid_block, report, eot_loop, prepend, attempts, data_loop, send_xmodem,
}
use zzt_self.Xmodem.Send.Delivery.{length-try_send, next_number, offset_after, attempts-eq}

length-attempts :
    (job : Job) (offset number : ℕ) (line : List Window)
    → length (attempts job offset number line).1 ≤ job.max_retries
length-attempts job offset number line =
    rw (attempts-eq job offset number line) (length-try_send job.max_retries _ line)

length-eot_loop :
    (job : Job) (line : List Window) → length (eot_loop job line).exchanges ≤ job.max_retries
unfolding eot_loop
length-eot_loop job line = length-try_send job.max_retries eot line

-- A result with at most so many writes.
abbrev pub EndsWithin : ℕ → Option Run → Type 0
EndsWithin most o = (run : Run) × (o ≡ some run) × (length run.exchanges ≤ most)

module _ (fuel : ℕ) (job : Job) (offset number last : ℕ) (line : List Window) where
  abbrev step : Attempt × List Exchange × List Window
  step = attempts job offset number line

  abbrev rest : Option Run
  rest =
      data_loop fuel job (offset_after job offset) (next_number number)
        (report job last (offset_after job offset)).1 step.2

  round-EndsWithin :
      (end : Attempt) (later : ℕ)
      → step.0 ≡ end
      → offset < length job.image
      → EndsWithin later rest
      → EndsWithin (job.max_retries + later) (data_loop (suc fuel) job offset number last line)
  unfolding data_loop
  round-EndsWithin sent later e more (run, h, few) = (
    prepend step.1 (report job last (offset_after job offset)).0 run,
    rw (lt→ltb _ _ more, data_loop) (rw e (rw h)),
    omega (arith, length-append step.1 run.exchanges, length-attempts job offset number line),
  )
  round-EndsWithin given_up later e more h = (
    failed failed_after_retries step.1 step.2,
    rw (lt→ltb _ _ more, data_loop) (rw e),
    omega (arith, length-attempts job offset number line),
  )
  round-EndsWithin stopped later e more h = (
    failed cancelled_transfer step.1 step.2,
    rw (lt→ltb _ _ more, data_loop) (rw e),
    omega (arith, length-attempts job offset number line),
  )
  round-EndsWithin invalid later e more h = (
    failed invalid_block step.1 step.2,
    rw (lt→ltb _ _ more, data_loop) (rw e),
    omega (arith, length-attempts job offset number line),
  )

  last-EndsWithin :
      length job.image ≤ offset
      → EndsWithin job.max_retries (data_loop (suc fuel) job offset number last line)
  unfolding data_loop
  last-EndsWithin past =
      let over : ltb offset (length job.image) ≡ false = ground arith in
      (eot_loop job line, rw (over, data_loop), length-eot_loop job line)

EndsWithin-le : {a b : ℕ} {o : Option Run} → EndsWithin a o → a ≤ b → EndsWithin b o
EndsWithin-le (run, h, few) le = (run, h, omega arith)

-- One block more allows the round's retries more.
most_suc : (r n : ℕ) → r + (r * n + r) ≤ r * suc n + r
most_suc r n = grind arith

blocks_left :
    (len offset n size : ℕ)
    → len - offset ≤ suc n * size
    → len - (offset + min size (len - offset)) ≤ n * size
blocks_left len offset n size h = grind arith

data_loop-EndsWithin :
    (n fuel : ℕ) (job : Job) (offset number last : ℕ) (line : List Window)
    → 0 < job.block_size
    → length job.image - offset < fuel
    → length job.image - offset ≤ n * job.block_size
    → EndsWithin
        (job.max_retries * n + job.max_retries)
        (data_loop fuel job offset number last line)
data_loop-EndsWithin n zero job offset number last line pos enough blocks = absurd (omega arith)
data_loop-EndsWithin zero (suc fuel) job offset number last line pos enough blocks =
    EndsWithin-le (last-EndsWithin fuel job offset number last line (omega arith)) (omega arith)
data_loop-EndsWithin (suc n) (suc fuel) job offset number last line pos enough blocks =
    elim (dec_lt offset (length job.image)) [
      | yes more ↦
          EndsWithin-le
            (round-EndsWithin fuel job offset number last line _ _ refl more (
              data_loop-EndsWithin n fuel job (offset_after job offset) (next_number number)
                (report job last (offset_after job offset)).1 (attempts job offset number line).2
                pos (omega arith) (blocks_left _ offset n job.block_size blocks)))
            (most_suc job.max_retries n)
      | no done ↦
          EndsWithin-le (last-EndsWithin fuel job offset number last line (omega arith))
            (omega arith)
    ]

-- With a positive block size `send_xmodem` always returns or raises, and an image of at most `n`
-- blocks takes at most `max_retries` writes for each block and for EOT.
pub send_xmodem-EndsWithin :
    (n : ℕ) (job : Job) (line : List Window)
    → 0 < job.block_size
    → length job.image ≤ n * job.block_size
    → EndsWithin (job.max_retries * n + job.max_retries) (send_xmodem job line)
unfolding send_xmodem
send_xmodem-EndsWithin n job line pos blocks =
    data_loop-EndsWithin n (suc (length job.image)) job 0 1 0 line pos (omega arith) (omega arith)
