-- ===== src/Files/Descriptors.antt =====
-- The table of descriptors of state/FileSystem.cpp: a descriptor is given once at a time, and each open
-- one names a file.
use naaz.Base.{
  ℕ, ◌<◌, ◌≡◌, refl, sym, ◌∙◌, ap, subst, inl, inr, arith, false, Bool-cases, Option-cases,
}
use naaz.Base.{◌==◌, ==→eq, ==_refl, List, Option, none, some}
use naaz.Files.{
  FileName, Memory, File, FileHandle, FileSystem, new_file, gen_handle, file_of, open_file,
}
use naaz.Files.Tables.{look, put, look-put, look-put_other, look-emplace, look-emplace_other}

module _ (n : FileName) (mem : Memory n) where
  abbrev pub handle_at : FileSystem n mem → ℕ → Option (FileHandle n mem)
  handle_at fs fd = look (λ a b. a == b) fs.open_files fd

  abbrev pub file_at : FileSystem n mem → n.Name → Option (File n mem)
  file_at fs name = look n.same_name fs.files name

  -- Open descriptors are below the next one, and each handle names a file; a file has its own name.
  pub record WellFormed (fs : FileSystem n mem) : Type 0 where
    pub below : (fd : ℕ) (h : FileHandle n mem) → handle_at fs fd ≡ some h → fd < fs.free_fd
    pub named :
        (fd : ℕ) (h : FileHandle n mem)
        → handle_at fs fd ≡ some h
        → (f : File n mem) × (file_at fs h.handle_name ≡ some f)
    pub own : (name : n.Name) (f : File n mem) → file_at fs name ≡ some f → f.filename ≡ name

  pub same_file : (f g : File n mem) → some f ≡ some g → f ≡ g
  same_file f g h = cc

  pub same_handle : (f g : FileHandle n mem) → some f ≡ some g → f ≡ g
  same_handle f g h = cc

  -- A file stays, under its name or the one that is put.
  pub put_named :
      (files : List (n.Name × File n mem)) (name key : n.Name) (file f : File n mem)
      → look n.same_name files key ≡ some f
      → (g : File n mem) × (look n.same_name (put n.same_name files name file) key ≡ some g)
  put_named files name key file f h = elim (Bool-cases (n.same_name name key)) [
    | inl same ↦ (
      file,
      subst (λ k. look n.same_name (put n.same_name files name file) k ≡ some file)
          (n.same_eq name key same) (look-put n.same_name n.same_eq n.same_refl files name file),
    )
    | inr other ↦
        (f, look-put_other n.same_name n.same_eq n.same_refl files name key file other ∙ h)
  ]

  pub put_own :
      (files : List (n.Name × File n mem)) (name : n.Name) (file : File n mem)
      → file.filename ≡ name
      → ((key : n.Name) (f : File n mem) → look n.same_name files key ≡ some f → f.filename ≡ key)
      → (key : n.Name) (f : File n mem)
      → look n.same_name (put n.same_name files name file) key ≡ some f
      → f.filename ≡ key
  put_own files name file is own key f h = elim (Bool-cases (n.same_name name key)) [
    | inl same ↦
        let at_key : look n.same_name (put n.same_name files name file) key ≡ some file =
          subst (λ k. look n.same_name (put n.same_name files name file) k ≡ some file)
            (n.same_eq name key same)
            (look-put n.same_name n.same_eq n.same_refl files name file) in
        ap (λ g. g.filename) (sym (same_file file f (sym at_key ∙ h)))
        ∙ is
        ∙ n.same_eq name key same
    | inr other ↦
        own key f
          (sym (look-put_other n.same_name n.same_eq n.same_refl files name key file other) ∙ h)
  ]

  pub file_of_name :
      (fs : FileSystem n mem) (name : n.Name)
      → WellFormed fs
      → (file_of n mem name fs.files).filename ≡ name
  unfolding file_of new_file
  file_of_name fs name w = elim (Option-cases (file_at fs name)) [
    | inl missing ↦ rw (file_of, missing) refl
    | inr (f, found) ↦ rw (file_of, found) (w.own name f found)
  ]

  module _ (fs : FileSystem n mem) (w : WellFormed fs) where
    pub next_closed : handle_at fs fs.free_fd ≡ none
    next_closed = elim (Option-cases (handle_at fs fs.free_fd)) [
      | inl is ↦ is
      | inr (h, is) ↦ absurd (omega (arith, w.below fs.free_fd h is))
    ]

    abbrev pub after : n.Name → FileSystem n mem
    after name = (open_file n mem name fs).1

    pub opened_handle :
        (name : n.Name)
        → handle_at (after name) fs.free_fd
          ≡ some (gen_handle n mem fs.free_fd (file_of n mem name fs.files))
    unfolding open_file
    opened_handle name =
        look-emplace (λ a b. a == b) ==→eq ==_refl fs.open_files fs.free_fd _ next_closed

    pub others_stay :
        (name : n.Name) (fd : ℕ)
        → (fs.free_fd == fd) ≡ false
        → handle_at (after name) fd ≡ handle_at fs fd
    unfolding open_file
    others_stay name fd differ =
        look-emplace_other (λ a b. a == b) ==→eq ==_refl fs.open_files fs.free_fd fd _ differ

    pub after-WellFormed : (name : n.Name) → WellFormed (after name)
    unfolding open_file gen_handle
    after-WellFormed name = record {
      below = λ fd h at_fd. elim (Bool-cases (fs.free_fd == fd)) [
        | inl same ↦ omega (arith, ==→eq fs.free_fd fd same)
        | inr differ ↦ omega (arith, w.below fd h (sym (others_stay name fd differ) ∙ at_fd))
      ];
      named = λ fd h at_fd. elim (Bool-cases (fs.free_fd == fd)) [
        | inl same ↦
            let is : gen_handle n mem fs.free_fd (file_of n mem name fs.files) ≡ h =
              same_handle _ h (
                sym (opened_handle name)
                ∙ ap (handle_at (after name)) (==→eq fs.free_fd fd same)
                ∙ at_fd) in
            let key : name ≡ h.handle_name =
              sym (file_of_name fs name w) ∙ ap (λ k. k.handle_name) is in
            (
              file_of n mem name fs.files,
              subst (λ k. file_at (after name) k ≡ some (file_of n mem name fs.files)) key
                  (look-put n.same_name n.same_eq n.same_refl fs.files name
                    (file_of n mem name fs.files)),
            )
        | inr differ ↦
            let (f, found) = w.named fd h (sym (others_stay name fd differ) ∙ at_fd) in
            put_named fs.files name h.handle_name (file_of n mem name fs.files) f found
      ];
      own = put_own fs.files name (file_of n mem name fs.files) (file_of_name fs name w) w.own;
    }

    -- On tables where open descriptors are below the next one, each handle names a file and each
    -- file has its own name, `open` gives a descriptor that was not open and now has a handle of
    -- the file at offset 0, leaves every other descriptor as it was, and keeps this invariant.
    pub open_file-WellFormed :
        (name : n.Name)
        → (handle_at fs (open_file n mem name fs).0 ≡ none)
          × ((h : FileHandle n mem) × (handle_at
                  (open_file n mem name fs).1
                  (open_file n mem name fs).0
                ≡ some h)
              × (h.handle_name ≡ name)
              × (h.off ≡ 0))
          × ((fd : ℕ)
              → ((open_file n mem name fs).0 == fd) ≡ false
              → handle_at (open_file n mem name fs).1 fd ≡ handle_at fs fd)
          × WellFormed (open_file n mem name fs).1
    unfolding open_file gen_handle
    open_file-WellFormed name = (
      next_closed,
      (
        gen_handle n mem fs.free_fd (file_of n mem name fs.files),
        opened_handle name,
        file_of_name fs name w,
        refl,
      ),
      others_stay name,
      after-WellFormed name,
    )
