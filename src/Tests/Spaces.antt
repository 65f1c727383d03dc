-- ===== src/Tests/Spaces.antt =====
-- loader/AddressSpace.cpp at a space of two segments.
use naaz.Base.{ℕ, ◌+◌, ◌-◌, ◌*◌, ◌%◌, ◌^◌, ◌<◌, ◌≡◌, arith, [], ◌∷◌, ◌++◌}
use mathlib.Core.Option.{some}
use naaz.AddressSpace.{
  Segment, Endianess, contains, register_segment, read_byte, read_dword, read_qword,
}
use naaz.AddressSpace.Readers
use naaz.AddressSpace.Readers.{Hidden, IsSegment, spelled}

-- bytes 10, 11, 10, 11, ...
abbrev alternating : ℕ → ℕ
alternating i = 10 + i % 2

abbrev header : Segment
header = record { addr = 0x1000; size = 16; data_at = alternating; perm = 1 }

abbrev text : Segment
text = record { addr = 0x2000; size = 16; data_at = alternating; perm = 1 }

text-IsSegment : IsSegment text
text-IsSegment = record { ends = omega arith; bytes = λ i. omega arith }

header_hides_nothing : (i : ℕ) → i < 8 → Hidden (header ∷ []) (0x2004 + i)
unfolding contains
header_hides_nothing i h = (ground arith, tt)

read_qword_little_example :
    read_qword ((header ∷ []) ++ text ∷ []) 0x2004 Endianess.little
    ≡ some (spelled alternating (0x2004 - 0x2000) 8)
read_qword_little_example =
    Readers.read_qword_little (header ∷ []) text [] text-IsSegment 0x2004 header_hides_nothing
      (omega arith) (omega arith)

read_dword_big_example :
    read_dword ((header ∷ []) ++ text ∷ []) 0x2004 Endianess.big
    ≡ some (
        spelled alternating (0x2004 - 0x2000) 2 * 2 ^ 16
        + spelled alternating (0x2004 - 0x2000 + 2) 2)
read_dword_big_example =
    Readers.read_dword_big (header ∷ []) text [] text-IsSegment 0x2004
      (header_hides_nothing 0 (omega arith)) (header_hides_nothing 2 (omega arith)) (omega arith)
      (omega arith)

read_byte-register_segment_example :
    read_byte (register_segment (header ∷ []) 0x2004 alternating 16 1) (0x2004 + 5)
    ≡ some (alternating 5)
read_byte-register_segment_example =
    Readers.read_byte-register_segment (header ∷ []) 0x2004 alternating 16 1 5 (omega arith)
      (omega arith) (header_hides_nothing 5 (omega arith))
