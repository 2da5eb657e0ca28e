-- ===== src/Lib.antt =====
-- A model of the protocol, serial and orchestration core of the HPLC meter-reading workbench.
--
-- The workbench reads bytes off a serial line, cuts protocol frames out of them, builds frames to
-- send, flashes modules over XMODEM, reads meters through a simulated concentrator, keeps the log of
-- a module's serial port, counts minute reads, and compares what the logs show with what a scenario
-- expects.
-- The parts that are modelled, with their files and the code they stand for:
--
--   * Extract, Splitter (libs/parser_lib/core/adapter.py, core/splitter.py): `FrameSplitter` keeps a
--     buffer and asks its adapters in turn for a frame at its front; where none has one, `_resync`
--     takes bytes off by five rules. Splitter.antt has one function for each rule, `resync`,
--     `feed_loop` for the `while True` loop and `feed`. An adapter is its name and its `try_extract`;
--     that the result is a nonempty prefix of the buffer (`IsSlice`) is a hypothesis.
--   * Meter645 (libs/parser_lib/adapters/adapter_645): DL/T 645 frames. Escape and Build are
--     `_unescape`, `build_frame` and `build_frame_escaped`; Extract is `try_extract` with its plain
--     and its escaped form. `rb` of the source, which reads one byte and undoes its escape, is
--     `read_byte`; its early `return None` is `none` of the reader monad of Base/Reader.antt.
--   * Gw10376 (libs/parser_lib/adapters/adapter_10376): Q/GDW 10376.2 frames. Fn, Fields and Address are
--     the codecs of Fn, control field, information field and addresses; Frame is `build_frame` and
--     `try_extract`, Frame/Decode the header part of `decode`.
--   * Meter698 (libs/parser_lib/adapters/adapter_698): DL/T 698.45 frames. Fcs is `_crc16` with its
--     table, `_fcs_bytes` and `_check_fcs`, and Fcs/Reference the shift register of the CRC that it
--     stands for; Frame is `build_frame`, `try_extract`, `confidence` and the fields that `decode`
--     reads before the APDU; Data is `_parse_data`, the A-XDR values of an APDU.
--   * Concentrator (libs/sim_concentrator): Scan is `scan_frame` (frame_codec.py), whose frames are
--     those of Gw10376; Batch is `BatchReadJob` (batch.py), where the main loop and the readers of single
--     meters are threads whose steps come in any order; PeriodStats is `aggregate` (period_stats.py);
--     Responder is `Responder` (responder.py), which answers a frame that Gw10376 decodes with one that
--     it builds, over the `decode_frame` of frame_codec.py; ExpectRules is `rule_for`, `default_expect` and `timeout_for` (expect_rules.py).
--   * Minute (libs/minute_assert): Time is timeutil.py, Parsers the line parsers of parsers.py, Cycle
--     the statistics of one cycle and Collect `collect_task_statistics` of statistics.py, from the
--     log lines of several files to the statistics of every task.
--   * ModuleLog (apps/module_log/module_serial_service.py): Channel is `_SerialChannel`: the log lines
--     and their window in memory (Utf8 is the decoding of a line with replacement), the line buffers of the two directions, start, stop, the RX thread,
--     writes and what goes before and after a flash. `run_op` is one operation.
--   * Xmodem (apps/module_log/xmodem_flash.py): Packet is `crc16_xmodem` and `build_xmodem_packet`, Line is
--     `_read_xmodem_response` and `wait_xmodem_request`, Send is `send_xmodem`. The port is a list of
--     windows, each with the chunks that arrive before one deadline; time is not modelled otherwise.
--     A run returns every packet written with the response to it and the calls of `progress`.
--   * Flow (apps/workbench/orchestration/compare.py): Steps is the loop of `compare_flow`, Compare the
--     check of the order, the last rule on the verdict and the function as a whole.
--   * Feedback (apps/workbench/orchestration/feedback.py): `build_feedback` over the comparison.
--   * Runs (apps/workbench/orchestration/runner.py): Outcome is how `_run_steps` judges a run and
--     the status that `execute` and `submit` make of it; Stages is `_run_steps` with the ports'
--     answers as data; Lifecycle is the thread of `submit` and a call of `cancel` as two threads
--     that take turns, statement by statement.
--   * Automation (libs/test_automation): Evidence is `EvidenceStore` and Transitions the state machine of
--     runs, over the statuses of Runs.
--   * Leases (libs/test_automation/resource_lease.py): `ResourceLeaseManager`, every operation.
--   * Serial (libs/shared/serial_resources.py): `SerialResourceRegistry`. Both managers have a step
--     relation, with the states that calls can reach; as every call of the registry holds its lock,
--     a sequence of calls stands for those of all threads.
--   * Sequence (libs/loghooks/sequence.py): `SequenceTracker`, which puts log lines together to one
--     event, with a machine for each bucket.
--   * Base: lists, Boolean tests, texts, dictionaries and the reader monad that the parts share.
--     Tests: runs at concrete inputs.
--
-- Bytes are natural numbers; shifts and masks are division and remainder, and a field of w bits
-- keeps its `% 2 ^ w`. Subtraction stops at 0: where the source subtracts, the guards before it or
-- the result's use make the difference not matter, as for `t_now - last_time` in `late`, which is
-- only compared with a limit from below.
--
-- Fuel: `feed_loop` has one round for each byte of the buffer and one more, and every round takes at
-- least a byte off or ends; `data_loop` of `send_xmodem` has one round for each byte of the image and
-- one more, and with a positive block size every round sends a byte or ends. In both, `none` is
-- running out. `_parse_data`, which calls itself for the elements of arrays and structures, has one
-- level for each byte that is left, and every level reads its tag before it goes deeper.
--
-- Parameters: `strip`, `casefold` and the `replace` of Python's texts in Serial; what the serial line
-- delivers in Xmodem; the adapters in Splitter; what the steps of a sequence match and which bucket
-- a line belongs to. An event in Flow carries the time that `_ev_time` reads from it, and the reply to
-- a batch read what `deny_info` and `_decoded_match_addr` find in it. Times in Concentrator are whole
-- numbers of one unit. In Minute a text is the list of its character codes, and white space, hex digits
-- and the digits of time stamps are the ASCII ones.
-- Two parts of the program that are not modelled can raise, and where that decides about a result it is
-- an argument of any value: in `decode_frame`, `app_raises` for the application data of a frame, and in a
-- plan of Runs, `assembled` for the assertions, evidence and artifacts behind the last stage.
--
-- Not modelled: the display texts and data tables of the adapters, the sections of the single services
-- of a 698.45 APDU, recipes and scenarios of the concentrator, the report texts of the
-- minute statistics, the texts of log events, the manager of module sessions, the web and desktop
-- interfaces, serial input and output, files, and logging.
pub mod Base
pub mod Automation
pub mod Concentrator
pub mod Extract
pub mod Meter645
pub mod Meter698
pub mod Minute
pub mod Gw10376
pub mod Splitter
pub mod Xmodem
pub mod Flow
pub mod Leases
pub mod Serial
pub mod Sequence
pub mod ModuleLog
pub mod Runs
pub mod Feedback
mod Tests
