-- ===== src/Tests/ConcentratorTests.antt =====
-- Runs of the simulated concentrator's parts, and their theorems at concrete inputs.
use zzt_self.Base.{◌≡◌, refl, true, false, none, some, List, [], ◌∷◌, Bytes, same_text}
use Prim.Native.String.{String}
use zzt_self.Concentrator.Scan.{scan_frame, scan_from}
use zzt_self.Concentrator.Scan.Sound.{Outcome, scan_frame-Outcome}
use zzt_self.Concentrator.Batch.{
  BatchReadJob, JobEvent, Reply, single, measures, launches, finishes, polls, expires, run_event,
  new_job, run_event, first_answer, poll, launch, measure, finish, expire_worker,
}
use zzt_self.Concentrator.Batch.Counts.{count, count_rows}
use zzt_self.Concentrator.Batch.Window.{Reachable, made, ran, Accounted, Reachable-Accounted}
use zzt_self.Concentrator.Batch.Progress.{GoesOn, run_events, Reachable-CanEnd}

-- A frame without user data behind the length, after one byte of noise and before another.
abbrev noisy : Bytes
noisy = 0xFE ∷ 0x68 ∷ 10 ∷ 0 ∷ 0x43 ∷ 1 ∷ 2 ∷ 3 ∷ 4 ∷ 0x4D ∷ 0x16 ∷ 0xFE ∷ []

noisy_scan : scan_frame noisy ≡ record {
  frame = some (0x68 ∷ 10 ∷ 0 ∷ 0x43 ∷ 1 ∷ 2 ∷ 3 ∷ 4 ∷ 0x4D ∷ 0x16 ∷ []);
  consumed = 11;
}
unfolding scan_from
noisy_scan = refl

scan_frame-Outcome_example : Outcome 0 noisy (scan_frame noisy)
scan_frame-Outcome_example = scan_frame-Outcome noisy

-- A reply to a read of the first meter.
abbrev reply_m1 : Reply
reply_m1 = record {
  uplink = true;
  afn = 2;
  fn = 1;
  deny_code = none;
  names = λ m. same_text m "m1";
  hexs = "68 ...";
}

abbrev two_meters : List String
two_meters = "m1" ∷ "m2" ∷ []

-- One read at a time: the first is answered, the second runs out of time.
abbrev job_started : BatchReadJob
job_started = run_event launches (run_event measures (new_job 1 single two_meters))

abbrev job_half : BatchReadJob
job_half = run_event (polls 0 (none ∷ some reply_m1 ∷ [])) job_started

abbrev job_ended : BatchReadJob
job_ended =
    run_event finishes (run_event (expires 0) (run_event launches (run_event measures job_half)))

started-Reachable : Reachable 1 single two_meters job_started
started-Reachable = ran launches _ (ran measures _ made)

half-Reachable : Reachable 1 single two_meters job_half
half-Reachable = ran (polls 0 (none ∷ some reply_m1 ∷ [])) _ started-Reachable

ended-Reachable : Reachable 1 single two_meters job_ended
ended-Reachable =
    ran finishes _ (ran (expires 0) _ (ran launches _ (ran measures _ half-Reachable)))

job_ended_counts : (job_ended.succeeded ≡ 1) × (job_ended.failed ≡ 1) × (job_ended.in_flight ≡ 0)
unfolding run_event first_answer poll launch measure finish expire_worker
job_ended_counts = (refl, refl, refl)

Reachable-Accounted_example : Accounted 1 two_meters job_ended
Reachable-Accounted_example = Reachable-Accounted 1 single two_meters job_ended ended-Reachable

Reachable-CanEnd_example :
    (es : List JobEvent) × GoesOn es
    × ((run_events es job_half).finished ≡ true)
    × (job_half.stopped ≡ false
        → (m : String) → count_rows m (run_events es job_half).rows ≡ count m two_meters)
Reachable-CanEnd_example = Reachable-CanEnd 1 single two_meters job_half half-Reachable
