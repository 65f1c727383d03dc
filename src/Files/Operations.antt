-- ===== src/Files/Operations.antt =====
-- `close`, `seek`, `read` and `write` of state/FileSystem.cpp on a descriptor that is open.
use naaz.Base.{
  ℕ, ◌+◌, ◌-◌, ◌/◌, ◌%◌, ◌^◌, ◌<◌, ◌≡◌, refl, sym, ◌∙◌, ap, subst, inl, inr, arith, false,
  Bool-cases,
}
use naaz.Base.{◌==◌, ==→eq, ==_refl, eq→ne, ltb, if◌then◌else◌, [], none, some, ok, exit_fail}
use naaz.Files.{
  FileName, Memory, File, FileHandle, FileSystem, enlarge, read_content, write_content, seek_handle,
  read_handle, write_handle, open_file, close_file, opened, updated, seek_file, read_file,
  write_file, file_system,
}
use naaz.Files.Tables.{look, put, erase, look-put, look-put_other, look-erase, look-erase_other}
use naaz.Files.Descriptors.{
  handle_at, WellFormed, same_handle, put_named, put_own, after-WellFormed,
}

module _ (n : FileName) (mem : Memory n) where
  enlarge_name : (off : ℕ) (f : File n mem) → (enlarge n mem off f).filename ≡ f.filename
  unfolding enlarge
  enlarge_name off f = elim (Bool-cases (ltb f.file_size off)) [
    | inl grows ↦ rw grows refl
    | inr stays ↦ rw stays refl
  ]

  module _ (fs : FileSystem n mem) (w : WellFormed n mem fs) (fd : ℕ) (h : FileHandle n mem)
      (is_open : handle_at n mem fs fd ≡ some h) where
    abbrev the_file : File n mem
    the_file = (w.named fd h is_open).0

    found : opened n mem fd fs ≡ ok (h, the_file)
    unfolding opened
    found = rw (opened, is_open, (w.named fd h is_open).1) refl

    updated-WellFormed :
        (k : FileHandle n mem) (f : File n mem)
        → k.handle_name ≡ h.handle_name
        → f.filename ≡ the_file.filename
        → WellFormed n mem (updated n mem fd (k, f) fs)
    unfolding updated
    updated-WellFormed k f same_names same_own = record {
      below = λ j l at_j. elim (Bool-cases (fd == j)) [
        | inl same ↦ subst (λ i. i < fs.free_fd) (==→eq fd j same) (w.below fd h is_open)
        | inr differ ↦
            w.below j l (
              sym (look-put_other (λ a b. a == b) ==→eq ==_refl fs.open_files fd j k differ) ∙ at_j)
      ];
      named = λ j l at_j. elim (Bool-cases (fd == j)) [
        | inl same ↦
            let is : k ≡ l = same_handle n mem k l (
              sym (look-put (λ a b. a == b) ==→eq ==_refl fs.open_files fd k)
              ∙ ap (λ i. look (λ a b. a == b) (put (λ a b. a == b) fs.open_files fd k) i)
                  (==→eq fd j same)
              ∙ at_j) in
            (
              f,
              subst (λ i. look n.same_name (put n.same_name fs.files k.handle_name f) i ≡ some f)
                  (ap (λ i. i.handle_name) is)
                  (look-put n.same_name n.same_eq n.same_refl fs.files k.handle_name f),
            )
        | inr differ ↦
            let before =
              sym (look-put_other (λ a b. a == b) ==→eq ==_refl fs.open_files fd j k differ)
              ∙ at_j in
            let (g, is) = w.named j l before in
            put_named n mem fs.files k.handle_name l.handle_name f g is
      ];
      own =
          put_own n mem fs.files k.handle_name f
            (same_own ∙ w.own h.handle_name the_file (w.named fd h is_open).1 ∙ sym same_names)
            w.own;
    }

    closed-WellFormed : WellFormed n mem (record fs {
      open_files = erase (λ a b. a == b) fs.open_files fd;
      free_fd = if fd + 1 == fs.free_fd then fs.free_fd - 1 else fs.free_fd;
    })
    closed-WellFormed = record {
      below = λ j l at_j. below_after j l (before j l at_j).0 (before j l at_j).1;
      named = λ j l at_j. w.named j l (before j l at_j).1;
      own = w.own;
    }
      where
        before :
            (j : ℕ) (l : FileHandle n mem)
            → look (λ a b. a == b) (erase (λ a b. a == b) fs.open_files fd) j ≡ some l
            → ((fd == j) ≡ false) × (handle_at n mem fs j ≡ some l)
        before j l at_j = elim (Bool-cases (fd == j)) [
          | inl same ↦
              let gone = look-erase (λ a b. a == b) ==→eq ==_refl fs.open_files fd in
              let clash : none ≡ some l =
                sym gone
                ∙ ap (λ i. look (λ a b. a == b) (erase (λ a b. a == b) fs.open_files fd) i)
                    (==→eq fd j same)
                ∙ at_j in
              absurd (cc)
          | inr differ ↦ (
            differ,
            sym (look-erase_other (λ a b. a == b) ==→eq ==_refl fs.open_files fd j differ) ∙ at_j,
          )
        ]

        below_after :
            (j : ℕ) (l : FileHandle n mem)
            → (fd == j) ≡ false
            → handle_at n mem fs j ≡ some l
            → j < (if fd + 1 == fs.free_fd then fs.free_fd - 1 else fs.free_fd)
        below_after j l differ at_j =
            let under = w.below j l at_j in
            elim (Bool-cases (fd + 1 == fs.free_fd)) [
              | inl last ↦
                  let next : fd + 1 ≡ fs.free_fd = ==→eq (fd + 1) fs.free_fd last in
                  let away = eq→ne fd j differ in rw last (omega arith)
              | inr inner ↦ rw inner under
            ]

    after_read :
        (size : ℕ)
        → 0 < size
        → (res : mem.Data) × (k : FileHandle n mem) × (f : File n mem) × (read_handle n mem size
              the_file h
            ≡ ok (res, (k, f)))
          × (k.handle_name ≡ h.handle_name)
          × (f.filename ≡ the_file.filename)
    unfolding read_handle read_content
    after_read size some_bytes =
        let (r, is) = mem.read_law h.off size the_file.content some_bytes in
        let f : File n mem = the_file in
        (
          r.0,
          record h { off = (h.off + size) % 2 ^ 64 },
          enlarge n mem ((h.off + size) % 2 ^ 64) (record f { content = r.1 }),
          rw (read_handle, read_content, is) refl,
          refl,
          enlarge_name _ _,
        )

    after_write :
        (bytes : mem.Data)
        → mem.data_size bytes % 8 ≡ 0
        → (k : FileHandle n mem) × (f : File n mem) × (write_handle n mem bytes the_file h
            ≡ ok (k, f))
          × (k.handle_name ≡ h.handle_name)
          × (f.filename ≡ the_file.filename)
    unfolding write_handle write_content
    after_write bytes whole =
        let (r, is) = mem.write_law h.off bytes the_file.content whole in
        let f : File n mem = the_file in
        (
          record h { off = (h.off + mem.data_size bytes / 8) % 2 ^ 64 },
          enlarge n mem ((h.off + mem.data_size bytes / 8) % 2 ^ 64) (record f { content = r }),
          rw (write_handle, write_content, is) refl,
          refl,
          enlarge_name _ _,
        )

    -- On well-formed tables, `close`, `seek`, `read` of at least one byte and `write` of whole
    -- bytes to an open descriptor return, without a missing file, and the tables are well-formed
    -- again; the descriptor is not open after `close`. A `read` of no bytes ends the process.
    pub operations-WellFormed :
        (off size : ℕ) (bytes : mem.Data)
        → 0 < size
        → mem.data_size bytes % 8 ≡ 0
        → ((closed : FileSystem n mem) × (close_file n mem fd fs ≡ ok closed)
            × (handle_at n mem closed fd ≡ none)
            × WellFormed n mem closed)
          × ((sought : FileSystem n mem) × (seek_file n mem fd off fs ≡ ok sought)
              × WellFormed n mem sought)
          × ((res : mem.Data) × (after : FileSystem n mem) × (read_file n mem fd size fs
                ≡ ok (res, after))
              × WellFormed n mem after)
          × (read_file n mem fd 0 fs ≡ exit_fail)
          × ((written : FileSystem n mem) × (write_file n mem fd bytes fs ≡ ok written)
              × WellFormed n mem written)
    unfolding close_file seek_file read_file write_file seek_handle read_handle read_content
    operations-WellFormed off size bytes some_bytes whole = (
      (
        record fs {
          open_files = erase (λ a b. a == b) fs.open_files fd;
          free_fd = if fd + 1 == fs.free_fd then fs.free_fd - 1 else fs.free_fd;
        },
        rw (close_file, is_open) refl,
        look-erase (λ a b. a == b) ==→eq ==_refl fs.open_files fd,
        closed-WellFormed,
      ),
      (
        updated n mem fd (seek_handle n mem off the_file h) fs,
        rw (seek_file, found) refl,
        updated-WellFormed _ _ refl (enlarge_name off the_file),
      ),
      (let (res, k, f, is, same_names, same_own) = after_read size some_bytes in
          (
            res,
            updated n mem fd (k, f) fs,
            rw (read_file, found, is) refl,
            updated-WellFormed k f same_names same_own,
          )),
      rw (read_file, found, read_handle, read_content, mem.read_zero h.off the_file.content) refl,
      (let (k, f, is, same_names, same_own) = after_write bytes whole in
          (
            updated n mem fd (k, f) fs,
            rw (write_file, found, is) refl,
            updated-WellFormed k f same_names same_own,
          )),
    )

module _ (n : FileName) (mem : Memory n) where
  pub empty-WellFormed : WellFormed n mem (record { files = []; open_files = []; free_fd = 0 })
  empty-WellFormed = record {
    below = λ fd h at_fd. absurd (cc);
    named = λ fd h at_fd. absurd (cc);
    own = λ name f at_name. absurd (cc);
  }

  -- The assertions of the constructor hold, and the three descriptors are open on well-formed tables.
  pub file_system-WellFormed :
      (stdin stdout stderr : n.Name)
      → (fs : FileSystem n mem) × (file_system n mem stdin stdout stderr ≡ ok fs)
        × WellFormed n mem fs
  unfolding file_system open_file
  file_system-WellFormed stdin stdout stderr =
      let with_in = after-WellFormed n mem _ empty-WellFormed stdin in
      let with_out = after-WellFormed n mem _ with_in stdout in
      (_, refl, after-WellFormed n mem _ with_out stderr)
