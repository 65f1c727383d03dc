-- ===== src/AddressSpace/Readers.antt =====
-- The readers of loader/AddressSpace.cpp.
use naaz.Base.{ℕ, zero, suc, ◌+◌, ◌-◌, ◌*◌, ◌^◌, ◌<◌, ◌≤◌, ◌≡◌, refl, ◌∙◌, ap, subst, arith}
use naaz.Base.{true, false, lt→ltb, le→leb, List, [], ◌∷◌, ◌++◌}
use naaz.Base.Bits.{bit_or_disjoint}
use native.Mathlib.Nat.{mod-eq_of_lt}
use mathlib.Core.Option.{some}
use naaz.AddressSpace.{
  Segment, Endianess, wrapped, contains, read, register_segment, read_byte, assembled,
}
use naaz.AddressSpace.{read_word, read_dword, read_qword}

-- No segment of the list contains the address.
abbrev pub Hidden : List Segment → ℕ → Type 0
Hidden [] a = Unit
Hidden (s ∷ segments) a = (contains s a ≡ false) × Hidden segments a

-- A segment ends below 2 ^ 64 and holds bytes.
pub record IsSegment (s : Segment) : Type 0 where
  pub ends : s.addr + s.size < 2 ^ 64
  pub bytes : (i : ℕ) → s.data_at i < 2 ^ 8

-- The number that bytes spell, the least significant first.
abbrev pub spelled : (ℕ → ℕ) → ℕ → ℕ → ℕ
spelled f i zero = 0
spelled f i (suc count) = f i + 2 ^ 8 * spelled f (i + 1) count

module _ (hidden : List Segment) (s : Segment) (after : List Segment) (valid : IsSegment s) where
  inside : (a : ℕ) → s.addr ≤ a → a < s.addr + s.size → contains s a ≡ true
  unfolding contains
  inside a h k =
      rw (le→leb s.addr a h, lt→ltb a (wrapped (s.addr + s.size)) (rw (mod-eq_of_lt valid.ends) k))
        refl

  word_found :
      (earlier : List Segment) (a : ℕ) (end : Endianess)
      → Hidden earlier a
      → s.addr ≤ a
      → a + 1 < s.addr + s.size
      → read_word (earlier ++ s ∷ after) a end
        ≡ some (assembled end 8 (s.data_at (a - s.addr)) (s.data_at (a + 1 - s.addr)))
  unfolding read_word read
  word_found [] a end none_before h k =
      rw
        (
          mod-eq_of_lt (let e : a + 1 < 2 ^ 64 = omega (arith, valid.ends) in e),
          inside a h (omega arith),
          inside (a + 1) (omega arith) k,
        )
        refl
  word_found (x ∷ earlier) a end none_before h k =
      rw none_before.0 (word_found earlier a end none_before.1 h k)

  little_word :
      (a : ℕ)
      → Hidden hidden a
      → s.addr ≤ a
      → a + 1 < s.addr + s.size
      → read_word (hidden ++ s ∷ after) a Endianess.little ≡ some (spelled s.data_at (a - s.addr) 2)
  little_word a none_before h k =
      word_found hidden a Endianess.little none_before h k
      ∙ ap some (
          bit_or_disjoint 8 (s.data_at (a + 1 - s.addr)) (s.data_at (a - s.addr))
            (valid.bytes (a - s.addr))
          ∙ ap (λ i. s.data_at i * 2 ^ 8 + s.data_at (a - s.addr))
              (let e : a + 1 - s.addr ≡ a - s.addr + 1 = omega arith in e)
          ∙ omega arith)

  word-lt : (i : ℕ) → spelled s.data_at i 2 < 2 ^ 16
  word-lt i = omega (arith, valid.bytes i, valid.bytes (i + 1))

  dword_parts :
      (a : ℕ) (end : Endianess)
      → Hidden hidden a
      → Hidden hidden (a + 2)
      → s.addr ≤ a
      → a + 3 < s.addr + s.size
      → read_dword (hidden ++ s ∷ after) a end
        ≡ some (
            assembled end 16
              (spelled s.data_at (a - s.addr) 2)
              (spelled s.data_at (a - s.addr + 2) 2))
  unfolding read_dword
  dword_parts a end first second h k =
      rw
        (
          mod-eq_of_lt (let e : a + 2 < 2 ^ 64 = omega (arith, valid.ends) in e),
          little_word a first h (omega arith),
          little_word (a + 2) second (omega arith) (omega arith),
          (let e : a + 2 - s.addr ≡ a - s.addr + 2 = omega arith in e),
        )
        refl

  little_dword :
      (a : ℕ)
      → Hidden hidden a
      → Hidden hidden (a + 2)
      → s.addr ≤ a
      → a + 3 < s.addr + s.size
      → read_dword (hidden ++ s ∷ after) a Endianess.little
        ≡ some (spelled s.data_at (a - s.addr) 4)
  little_dword a first second h k =
      dword_parts a Endianess.little first second h k
      ∙ ap some (
          bit_or_disjoint 16 (spelled s.data_at (a - s.addr + 2) 2)
            (spelled s.data_at (a - s.addr) 2) (word-lt (a - s.addr))
          ∙ spelled_4 (a - s.addr))
    where
      spelled_4 :
          (i : ℕ)
          → spelled s.data_at (i + 2) 2 * 2 ^ 16 + spelled s.data_at i 2 ≡ spelled s.data_at i 4
      spelled_4 i = rw (let e : i + 2 ≡ i + 1 + 1 = omega arith in e) (omega arith)

  -- Where the 4 bytes from an address a lie in a segment that ends below 2 ^ 64 and holds bytes,
  -- and no older segment contains a or a + 2, `read_dword` in big-endian order returns the little-
  -- endian first word times 2 ^ 16 plus the little-endian second word.
  pub read_dword_big :
      (a : ℕ)
      → Hidden hidden a
      → Hidden hidden (a + 2)
      → s.addr ≤ a
      → a + 3 < s.addr + s.size
      → read_dword (hidden ++ s ∷ after) a Endianess.big
        ≡ some (spelled s.data_at (a - s.addr) 2 * 2 ^ 16 + spelled s.data_at (a - s.addr + 2) 2)
  read_dword_big a first second h k =
      dword_parts a Endianess.big first second h k
      ∙ ap some (
          bit_or_disjoint 16 (spelled s.data_at (a - s.addr) 2)
            (spelled s.data_at (a - s.addr + 2) 2) (word-lt (a - s.addr + 2)))

  -- Where the 8 bytes from an address lie in a segment that ends below 2 ^ 64 and holds bytes, and
  -- no older segment contains any of these addresses, `read_qword` in little-endian order returns
  -- the number that the 8 bytes spell, the least significant first.
  pub read_qword_little :
      (a : ℕ)
      → ((i : ℕ) → i < 8 → Hidden hidden (a + i))
      → s.addr ≤ a
      → a + 7 < s.addr + s.size
      → read_qword (hidden ++ s ∷ after) a Endianess.little
        ≡ some (spelled s.data_at (a - s.addr) 8)
  unfolding read_qword
  read_qword_little a none_before h k =
      rw
        (
          mod-eq_of_lt (let e : a + 4 < 2 ^ 64 = omega (arith, valid.ends) in e),
          little_dword a (subst (Hidden hidden) (omega arith) (none_before 0 (omega arith)))
              (none_before 2 (omega arith)) h (omega arith),
          little_dword (a + 4) (none_before 4 (omega arith))
              (subst (Hidden hidden) (omega arith) (none_before 6 (omega arith))) (omega arith)
              (omega arith),
          (let e : a + 4 - s.addr ≡ a - s.addr + 4 = omega arith in e),
        )
        (ap some (
          bit_or_disjoint 32 (spelled s.data_at (a - s.addr + 4) 4)
            (spelled s.data_at (a - s.addr) 4) (dword-lt (a - s.addr))
          ∙ spelled_8 (a - s.addr)))
    where
      dword-lt : (i : ℕ) → spelled s.data_at i 4 < 2 ^ 32
      dword-lt i = omega (
        arith,
        valid.bytes i,
        valid.bytes (i + 1),
        valid.bytes (i + 1 + 1),
        valid.bytes (i + 1 + 1 + 1),
      )

      spelled_8 :
          (i : ℕ)
          → spelled s.data_at (i + 4) 4 * 2 ^ 32 + spelled s.data_at i 4 ≡ spelled s.data_at i 8
      spelled_8 i = rw (let e : i + 4 ≡ i + 1 + 1 + 1 + 1 = omega arith in e) (omega arith)

-- The segment that is registered last gives its bytes where no older segment hides them.
found_last :
    (segments : List Segment) (s : Segment) (a : ℕ)
    → Hidden segments a
    → contains s a ≡ true
    → read_byte (segments ++ s ∷ []) a ≡ some (s.data_at (a - s.addr))
unfolding read_byte read
found_last [] s a none_before h = rw h refl
found_last (x ∷ segments) s a none_before h =
    rw none_before.0 (found_last segments s a none_before.1 h)

-- After a segment that ends below 2 ^ 64 is registered, `read_byte` at one of its addresses that no
-- older segment contains returns the byte that was registered for it.
pub read_byte-register_segment :
    (segments : List Segment) (addr : ℕ) (data_at : ℕ → ℕ) (size perm i : ℕ)
    → i < size
    → addr + size < 2 ^ 64
    → Hidden segments (addr + i)
    → read_byte (register_segment segments addr data_at size perm) (addr + i) ≡ some (data_at i)
unfolding register_segment contains
read_byte-register_segment segments addr data_at size perm i h fits none_before =
    found_last segments (record { addr = addr; size = size; data_at = data_at; perm = perm })
      (addr + i) none_before
      (rw
        (
          le→leb addr (addr + i) (omega arith),
          mod-eq_of_lt fits,
          lt→ltb (addr + i) (addr + size) (omega arith),
        )
        refl)
    ∙ ap (λ j. some (data_at j)) (omega arith)
