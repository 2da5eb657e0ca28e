-- ===== src/Tests/MeterTests.antt =====
-- DL/T 645 frames (libs/parser_lib/adapters/adapter_645).
use zzt_self.Base.{◌≡◌, refl, none, some, [], ◌∷◌, ◌++◌, arith, Bytes, length, take}
use zzt_self.Meter645.Build.{build_frame, build_frame_escaped, escape_frame}
use zzt_self.Meter645.Extract.{try_extract}
use zzt_self.Meter645.Extract.Wire.{Wire, nil, bare, pair}
use zzt_self.Meter645.Extract.Complete.{try_extract-build_frame_escaped}

abbrev meter : Bytes
meter = 0x01 ∷ 0x02 ∷ 0x03 ∷ 0x04 ∷ 0x05 ∷ 0x06 ∷ []

-- Data with an escape mark and an end byte among them.
abbrev reading : Bytes
reading = 0x33 ∷ 0x1B ∷ 0x16 ∷ 0x68 ∷ []

abbrev pub on_the_wire : Bytes
on_the_wire =
    0x68 ∷ 0x01 ∷ 0x02 ∷ 0x03 ∷ 0x04 ∷ 0x05 ∷ 0x06 ∷ 0x68 ∷ 0x91 ∷ 0x04 ∷ 0x33 ∷ 0x1B ∷ 0x1B ∷ 0x1B
    ∷ 0x16 ∷ 0x1B ∷ 0x68 ∷ 0x46 ∷ 0x16 ∷ []

build-reading : build_frame_escaped meter 0x91 reading ≡ some on_the_wire
unfolding build_frame_escaped build_frame escape_frame
build-reading = refl

extract-reading :
    try_extract (on_the_wire ++ (0x68 ∷ 0x16 ∷ []))
    ≡ some (record { raw = on_the_wire; consumed = 19 })
unfolding try_extract
extract-reading = refl

-- A frame cut short is not extracted.
extract-half : try_extract (take 15 on_the_wire) ≡ none
unfolding try_extract
extract-half = refl

try_extract-build_frame_escaped_example :
    (w : Bytes) × (build_frame_escaped meter 0x91 reading ≡ some w)
    × (try_extract (w ++ (0x68 ∷ 0x16 ∷ [])) ≡ some (record { raw = w; consumed = length w }))
try_extract-build_frame_escaped_example =
    try_extract-build_frame_escaped meter 0x91 reading (0x68 ∷ 0x16 ∷ []) refl (omega arith)
      (omega arith) (omega arith)

-- A byte that needs no escape may be sent behind a mark all the same.
abbrev odd_wire : Bytes
odd_wire =
    0x01 ∷ 0x02 ∷ 0x03 ∷ 0x04 ∷ 0x05 ∷ 0x06 ∷ 0x68 ∷ 0x11 ∷ 0x00 ∷ 0x1B ∷ 0x77 ∷ 0x1B ∷ 0x16 ∷ []

odd_wire-Wire :
    Wire odd_wire (0x01 ∷ 0x02 ∷ 0x03 ∷ 0x04 ∷ 0x05 ∷ 0x06 ∷ 0x68 ∷ 0x11 ∷ 0x00 ∷ 0x77 ∷ 0x16 ∷ [])
odd_wire-Wire = bare (omega arith) (
    bare (omega arith) (
      bare (omega arith) (
        bare (omega arith) (
          bare (omega arith) (
            bare (omega arith) (
              bare (omega arith)
                (bare (omega arith) (bare (omega arith) (pair refl (pair refl nil))))))))))
