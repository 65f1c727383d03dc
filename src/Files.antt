-- ===== src/Files.antt =====
-- state/File.cpp and state/FileSystem.cpp: files over a memory, handles with offsets, and the table of
-- open descriptors. The memory of a file and the names of files are interfaces.
pub mod Tables
pub mod Descriptors
pub mod Operations
use naaz.Base.{
  ℕ, ◌+◌, ◌-◌, ◌/◌, ◌%◌, ◌^◌, ◌<◌, ◌≡◌, Bool, true, false, ltb, ◌==◌, if◌then◌else◌, List, [], ◌∷◌,
}
use naaz.Base.{Option, none, some, Outcome, ok, exit_fail, ◌>>=◌}
use naaz.Files.Tables.{look, put, emplace, erase}

-- `std::string` as a key
pub record FileName : Type 1 where
  pub Name : Type 0
  pub same_name : Name → Name → Bool
  pub same_eq : (a b : Name) → same_name a b ≡ true → a ≡ b
  pub same_refl : (a : Name) → same_name a a ≡ true

-- MapMemory: `read` may make symbols, so it changes the memory. It ends the process on length 0, and
-- `write` where the bits are no whole bytes; at a constant address they return otherwise.
pub record Memory (n : FileName) : Type 1 where
  pub Content : Type 0
  pub Data : Type 0
  pub new : n.Name → Content
  pub read : ℕ → ℕ → Content → Outcome (Data × Content)
  pub write : ℕ → Data → Content → Outcome Content
  pub data_size : Data → ℕ
  pub read_law :
      (off size : ℕ) (c : Content) → 0 < size → (r : Data × Content) × (read off size c ≡ ok r)
  pub read_zero : (off : ℕ) (c : Content) → read off 0 c ≡ exit_fail
  pub write_law :
      (off : ℕ) (bytes : Data) (c : Content)
      → data_size bytes % 8 ≡ 0
      → (r : Content) × (write off bytes c ≡ ok r)

module _ (n : FileName) (mem : Memory n) where
  pub record File : Type 0 where
    pub filename : n.Name
    pub file_size : ℕ
    pub content : mem.Content

  pub record FileHandle : Type 0 where
    pub handle_name : n.Name
    pub off : ℕ
    pub descriptor : ℕ

  pub record FileSystem : Type 0 where
    pub files : List (n.Name × File)
    pub open_files : List (ℕ × FileHandle)
    pub free_fd : ℕ

  unfoldable pub new_file : n.Name → File
  new_file name = record { filename = name; file_size = 0; content = mem.new name }

  unfoldable pub enlarge : ℕ → File → File
  enlarge off file = if ltb file.file_size off then record file { file_size = off } else file

  unfoldable pub read_content : ℕ → ℕ → File → Outcome (mem.Data × File)
  read_content off size file = do
    found ← mem.read off size file.content
    ok (found.0, enlarge ((off + size) % 2 ^ 64) (record file { content = found.1 }))

  unfoldable pub read_all : File → Outcome (mem.Data × File)
  read_all file = do
    found ← mem.read 0 file.file_size file.content
    ok (found.0, record file { content = found.1 })

  unfoldable pub write_content : ℕ → mem.Data → File → Outcome File
  write_content off bytes file = do
    content ← mem.write off bytes file.content
    ok (enlarge ((off + mem.data_size bytes / 8) % 2 ^ 64) (record file { content = content }))

  unfoldable pub gen_handle : ℕ → File → FileHandle
  gen_handle fd file = record { handle_name = file.filename; off = 0; descriptor = fd }

  unfoldable pub seek_handle : ℕ → File → FileHandle → FileHandle × File
  seek_handle off file h = (record h { off = off }, enlarge off file)

  unfoldable pub read_handle : ℕ → File → FileHandle → Outcome (mem.Data × (FileHandle × File))
  read_handle size file h = do
    found ← read_content h.off size file
    ok (found.0, (record h { off = (h.off + size) % 2 ^ 64 }, found.1))

  unfoldable pub write_handle : mem.Data → File → FileHandle → Outcome (FileHandle × File)
  write_handle bytes file h = do
    after ← write_content h.off bytes file
    ok (record h { off = (h.off + mem.data_size bytes / 8) % 2 ^ 64 }, after)

  -- `m_files[filepath]`, made when it is missing
  unfoldable pub file_of : n.Name → List (n.Name × File) → File
  file_of filepath files = elim (look n.same_name files filepath) [
    | some file ↦ file
    | none ↦ new_file filepath
  ]

  unfoldable pub open_file : n.Name → FileSystem → ℕ × FileSystem
  open_file filepath fs =
      let file : File = file_of filepath fs.files in
      (
        fs.free_fd,
        record {
          files = put n.same_name fs.files filepath file;
          open_files =
              emplace (λ a b. a == b) fs.open_files fs.free_fd (gen_handle fs.free_fd file);
          free_fd = fs.free_fd + 1;
        },
      )

  unfoldable pub close_file : ℕ → FileSystem → Outcome FileSystem
  close_file fd fs = elim (look (λ a b. a == b) fs.open_files fd) [
    | none ↦ exit_fail
    | some h ↦ ok (record fs {
      open_files = erase (λ a b. a == b) fs.open_files fd;
      free_fd = if fd + 1 == fs.free_fd then fs.free_fd - 1 else fs.free_fd;
    })
  ]

  -- `m_open_files.at(fd)` and `m_files.at(handle.filename())`, which throws when it is missing
  unfoldable pub opened : ℕ → FileSystem → Outcome (FileHandle × File)
  opened fd fs = elim (look (λ a b. a == b) fs.open_files fd) [
    | none ↦ exit_fail
    | some h ↦ elim (look n.same_name fs.files h.handle_name) [
      | none ↦ exit_fail
      | some file ↦ ok (h, file)
    ]
  ]

  -- The handle and the file after an operation.
  unfoldable pub updated : ℕ → FileHandle × File → FileSystem → FileSystem
  updated fd (h, file) fs = record fs {
    files = put n.same_name fs.files h.handle_name file;
    open_files = put (λ a b. a == b) fs.open_files fd h;
  }

  unfoldable pub seek_file : ℕ → ℕ → FileSystem → Outcome FileSystem
  seek_file fd off fs = do
    found ← opened fd fs
    ok (updated fd (seek_handle off found.1 found.0) fs)

  unfoldable pub read_file : ℕ → ℕ → FileSystem → Outcome (mem.Data × FileSystem)
  read_file fd size fs = do
    found ← opened fd fs
    result ← read_handle size found.1 found.0
    ok (result.0, updated fd result.1 fs)

  unfoldable pub write_file : ℕ → mem.Data → FileSystem → Outcome FileSystem
  write_file fd bytes fs = do
    found ← opened fd fs
    result ← write_handle bytes found.1 found.0
    ok (updated fd result fs)

  -- The constructor, with its assertions.
  unfoldable pub file_system : n.Name → n.Name → n.Name → Outcome FileSystem
  file_system stdin stdout stderr =
      let (fd_in, with_in) =
        open_file stdin (record { files = []; open_files = []; free_fd = 0 }) in
      let (fd_out, with_out) = open_file stdout with_in in
      let (fd_err, all) = open_file stderr with_out in
      if fd_in == 0
      then (if fd_out == 1 then (if fd_err == 2 then ok all else exit_fail) else exit_fail)
      else exit_fail
