-- ===== src/Tests/Descriptors.antt =====
-- state/FileSystem.cpp with a memory that is the list of what was written.
use naaz.Base.{
  ℕ, ◌≡◌, refl, ◌==◌, ne→==, ==→eq, ==_refl, false, List, [], ◌∷◌, none, some, ok, exit_fail,
  if◌then◌else◌, arith,
}
use naaz.Files.{
  FileName, Memory, FileHandle, FileSystem, open_file, close_file, seek_file, read_file, write_file,
  file_of, new_file, gen_handle,
}
use naaz.Files.Descriptors.{handle_at, WellFormed, after-WellFormed}
use naaz.Files.Operations.{empty-WellFormed}
use naaz.Files.Descriptors
use naaz.Files.Operations

abbrev numbers : FileName
numbers = record { Name = ℕ; same_name = λ a b. a == b; same_eq = ==→eq; same_refl = ==_refl }

abbrev log : Memory numbers
log = record {
  Content = List ℕ;
  Data = ℕ;
  new = λ name. [];
  read = λ off size content. if size == 0 then exit_fail else ok (off, size ∷ content);
  write = λ off bytes content. ok (bytes ∷ content);
  data_size = λ bytes. 8;
  read_law = λ off size content h.
      ((off, size ∷ content), rw (ne→== size 0 (λ e. omega (arith, h, e))) refl);
  read_zero = λ off content. refl;
  write_law = λ off bytes content h. (bytes ∷ content, refl);
}

abbrev blank : FileSystem numbers log
blank = record { files = []; open_files = []; free_fd = 0 }

abbrev one_open : FileSystem numbers log
one_open = (open_file numbers log 5 blank).1

one_open-WellFormed : WellFormed numbers log one_open
one_open-WellFormed = after-WellFormed numbers log blank (empty-WellFormed numbers log) 5

handle :
    handle_at numbers log one_open 0 ≡ some (record { handle_name = 5; off = 0; descriptor = 0 })
unfolding open_file file_of new_file gen_handle
handle = refl

open_file-WellFormed_example :
    (handle_at numbers log one_open (open_file numbers log 6 one_open).0 ≡ none)
    × ((h : FileHandle numbers log) × (handle_at numbers log
            (open_file numbers log 6 one_open).1
            (open_file numbers log 6 one_open).0
          ≡ some h)
        × (h.handle_name ≡ 6)
        × (h.off ≡ 0))
    × ((fd : ℕ)
        → ((open_file numbers log 6 one_open).0 == fd) ≡ false
        → handle_at numbers log (open_file numbers log 6 one_open).1 fd
          ≡ handle_at numbers log one_open fd)
    × WellFormed numbers log (open_file numbers log 6 one_open).1
open_file-WellFormed_example =
    Descriptors.open_file-WellFormed numbers log one_open one_open-WellFormed 6

operations-WellFormed_example :
    ((closed : FileSystem numbers log) × (close_file numbers log 0 one_open ≡ ok closed)
      × (handle_at numbers log closed 0 ≡ none)
      × WellFormed numbers log closed)
    × ((sought : FileSystem numbers log) × (seek_file numbers log 0 9 one_open ≡ ok sought)
        × WellFormed numbers log sought)
    × ((res : ℕ) × (after : FileSystem numbers log) × (read_file numbers log 0 4 one_open
          ≡ ok (res, after))
        × WellFormed numbers log after)
    × (read_file numbers log 0 0 one_open ≡ exit_fail)
    × ((written : FileSystem numbers log) × (write_file numbers log 0 77 one_open ≡ ok written)
        × WellFormed numbers log written)
operations-WellFormed_example =
    Operations.operations-WellFormed numbers log one_open one_open-WellFormed 0
      (record { handle_name = 5; off = 0; descriptor = 0 }) handle 9 4 77 (omega arith) refl
