-- ===== src/Tests/SplitterTests.antt =====
-- The frame splitter (libs/parser_lib/core/splitter.py) with the adapters of this library.
use zzt_self.Base.{◌≤◌, ◌≡◌, refl, some, List, [], ◌∷◌, ◌++◌, arith, Bytes, length, take, drop, All}
use zzt_self.Meter645.Extract
use zzt_self.Meter645.Extract.Sound.{try_extract-IsSlice}
use zzt_self.Gw10376.Fields.{pack_control}
use zzt_self.Splitter.{
  max_frame, Adapter, Frame, first_hit, resync, drop_noise, skip_dualmode, skip_envelope,
  skip_truncated, skip_oversized, find, smallest, feed,
}
use zzt_self.Splitter.Feed.{IsLawful, Splits, feed-Splits, feed_pending}
use zzt_self.Splitter.Adjacent.{gw_adapter, feed_adjacent}
use zzt_self.Tests.MeterTests.{on_the_wire}
use zzt_self.Tests.GwTests.{request, built, build-request}

abbrev meters : List Adapter
meters = record { protocol = "645"; try_extract = Extract.try_extract } ∷ []

meters-IsLawful : All IsLawful meters
meters-IsLawful = (try_extract-IsSlice, tt)

-- Noise, two frames back to back, and the beginning of a third.
abbrev stream : Bytes
stream = 0xFE ∷ 0xFE ∷ (on_the_wire ++ (on_the_wire ++ take 5 on_the_wire))

abbrev meter_frame : Frame
meter_frame = record { raw = on_the_wire; protocol = "645" }

feed-stream : feed meters [] stream ≡ some (meter_frame ∷ meter_frame ∷ [], take 5 on_the_wire)
unfolding feed first_hit resync drop_noise skip_dualmode skip_envelope skip_truncated skip_oversized
    find smallest Extract.try_extract
feed-stream = refl

-- The rest of the third frame arrives with the next chunk.
feed-rest : feed meters (take 5 on_the_wire) (drop 5 on_the_wire) ≡ some (meter_frame ∷ [], [])
unfolding feed first_hit resync Extract.try_extract
feed-rest = refl

feed-Splits_example :
    (frames : List Frame) × (rest : Bytes) × (feed meters [] stream ≡ some (frames, rest))
    × Splits meters ([] ++ stream) frames rest
feed-Splits_example = feed-Splits meters meters-IsLawful [] stream

feed_pending_example : length (take 5 on_the_wire) ≤ max_frame
feed_pending_example = feed_pending meters meters-IsLawful [] stream feed-stream

feed_adjacent_example :
    feed (meters ++ (gw_adapter ∷ [])) [] (built ++ built)
    ≡ some (record { raw = built; protocol = "1376.2" } ∷ [], [])
unfolding first_hit Extract.try_extract pack_control
feed_adjacent_example =
    feed_adjacent meters request request built built build-request build-request (omega arith)
      (omega arith) (omega arith) refl refl refl
