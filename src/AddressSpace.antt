-- ===== src/AddressSpace.antt =====
-- loader/AddressSpace.cpp: segments of bytes and the readers. Addresses are numbers below 2 ^ 64, and
-- a sum of them wraps around; a buffer is a function from the index to the byte. The name of a
-- segment is left out.
pub mod Readers
use naaz.Base.{
  ℕ, ◌+◌, ◌-◌, ◌*◌, ◌%◌, ◌^◌, Bool, true, false, ◌&&◌, ltb, leb, bit_or, List, [], ◌∷◌, ◌++◌,
  if◌then◌else◌,
}
use mathlib.Core.Option.{Option, none, some}

pub data Endianess : Type 0 where
  little big : Endianess

pub record Segment : Type 0 where
  pub addr : ℕ
  pub size : ℕ
  pub data_at : ℕ → ℕ
  pub perm : ℕ

abbrev pub wrapped : ℕ → ℕ
wrapped n = n % 2 ^ 64

unfoldable pub contains : Segment → ℕ → Bool
contains s addr = leb s.addr addr && ltb addr (wrapped (s.addr + s.size))

unfoldable pub read : Segment → ℕ → Option ℕ
read s addr = if contains s addr then some (s.data_at (addr - s.addr)) else none

-- `register_segment` appends, so an older segment hides a newer one.
unfoldable pub register_segment : List Segment → ℕ → (ℕ → ℕ) → ℕ → ℕ → List Segment
register_segment segments addr data_at size perm =
    segments ++ record { addr = addr; size = size; data_at = data_at; perm = perm } ∷ []

unfoldable pub read_byte : List Segment → ℕ → Option ℕ
read_byte [] addr = none
read_byte (s ∷ segments) addr = if contains s addr then read s addr else read_byte segments addr

-- `end == Endianess::BIG ? (first << bits) | second : (second << bits) | first`
abbrev pub assembled : Endianess → ℕ → ℕ → ℕ → ℕ
assembled Endianess.big bits first second = bit_or (first * 2 ^ bits) second
assembled Endianess.little bits first second = bit_or (second * 2 ^ bits) first

abbrev pub both : Option ℕ → Option ℕ → (ℕ → ℕ → ℕ) → Option ℕ
both (some a) (some b) f = some (f a b)
both (some a) none f = none
both none b f = none

unfoldable pub read_word : List Segment → ℕ → Endianess → Option ℕ
read_word [] addr end = none
read_word (s ∷ segments) addr end =
    if contains s addr && contains s (wrapped (addr + 1))
    then both (read s addr) (read s (wrapped (addr + 1))) (assembled end 8)
    else read_word segments addr end

-- The words are read in the default order, also where `end` is the other one.
unfoldable pub read_dword : List Segment → ℕ → Endianess → Option ℕ
read_dword segments addr end =
    both (read_word segments addr Endianess.little)
      (read_word segments (wrapped (addr + 2)) Endianess.little) (assembled end 16)

unfoldable pub read_qword : List Segment → ℕ → Endianess → Option ℕ
read_qword segments addr end =
    both (read_dword segments addr Endianess.little)
      (read_dword segments (wrapped (addr + 4)) Endianess.little) (assembled end 32)
