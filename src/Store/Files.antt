-- ===== src/Store/Files.antt =====
-- The file system that the repository and the service write to: package os, as operations on a
-- state, with what they are documented to do. Each returns the new state and its error, if any.
use leasewebassignment.Base.{[], Option, none, some, ◌≡◌, ◌≢◌, Result, ok, err}
use leasewebassignment.Text.{Bytes}
use leasewebassignment.Errors.{Error}

pub record FileSystem : Type 1 where
  pub State : Type 0
  -- the content of the file at a path
  pub content : State → Bytes → Option Bytes
  -- `os.MkdirAll(path, 0o755)`
  pub mkdir_all : Bytes → State → State × Option Error
  -- `os.CreateTemp(dir, pattern)`: the name of the file
  pub create_temp : Bytes → Bytes → State → State × Result Error Bytes
  -- `Write`, `Sync` and `Close` of the open file with a name
  pub write : Bytes → Bytes → State → State × Option Error
  pub sync : Bytes → State → State × Option Error
  pub close : Bytes → State → State
  -- `os.Remove(name)` and `os.Rename(old, new)`
  pub remove : Bytes → State → State × Option Error
  pub rename : Bytes → Bytes → State → State × Option Error
  -- `os.Open(path)`, and what `io.ReadAll` makes of the open file
  pub open_file : Bytes → State → Result Error (Result Error Bytes)

module _ (fs : FileSystem) where
  -- The files at all paths but one are as they were.
  abbrev pub SameBut : Bytes → fs.State → fs.State → Type 0
  SameBut path s s' = (p : Bytes) → p ≢ path → fs.content s' p ≡ fs.content s p

  abbrev pub Same : fs.State → fs.State → Type 0
  Same s s' = (p : Bytes) → fs.content s' p ≡ fs.content s p

  -- What package os documents of these operations.
  pub record IsFileSystem : Type 0 where
    pub mkdir_all_same : (dir : Bytes) (s : fs.State) → Same s (fs.mkdir_all dir s).0
    -- a new file, which did not exist, and is empty
    pub create_temp_new :
        (dir pattern : Bytes) (s : fs.State) (name : Bytes)
        → (fs.create_temp dir pattern s).1 ≡ ok name
        → (fs.content s name ≡ none)
          × (fs.content (fs.create_temp dir pattern s).0 name ≡ some [])
          × SameBut name s (fs.create_temp dir pattern s).0
    pub create_temp_same :
        (dir pattern : Bytes) (s : fs.State) (e : Error)
        → (fs.create_temp dir pattern s).1 ≡ err e
        → Same s (fs.create_temp dir pattern s).0
    -- an empty file then holds the bytes; after an error it may hold some of them
    pub write_content :
        (name bytes : Bytes) (s : fs.State)
        → fs.content s name ≡ some []
        → (fs.write name bytes s).1 ≡ none
        → fs.content (fs.write name bytes s).0 name ≡ some bytes
    pub write_stays :
        (name bytes : Bytes) (s : fs.State)
        → fs.content s name ≢ none
        → fs.content (fs.write name bytes s).0 name ≢ none
    pub write_others :
        (name bytes : Bytes) (s : fs.State) → SameBut name s (fs.write name bytes s).0
    pub sync_same : (name : Bytes) (s : fs.State) → Same s (fs.sync name s).0
    pub close_same : (name : Bytes) (s : fs.State) → Same s (fs.close name s)
    pub remove_gone :
        (name : Bytes) (s : fs.State)
        → (fs.remove name s).1 ≡ none
        → fs.content (fs.remove name s).0 name ≡ none
    pub remove_others : (name : Bytes) (s : fs.State) → SameBut name s (fs.remove name s).0
    -- the new name holds what the old one held, and the old name is gone
    pub rename_new :
        (old new : Bytes) (s : fs.State)
        → (fs.rename old new s).1 ≡ none
        → fs.content (fs.rename old new s).0 new ≡ fs.content s old
    pub rename_old :
        (old new : Bytes) (s : fs.State)
        → (fs.rename old new s).1 ≡ none
        → old ≢ new
        → fs.content (fs.rename old new s).0 old ≡ none
    pub rename_others :
        (old new : Bytes) (s : fs.State) (p : Bytes)
        → p ≢ old
        → p ≢ new
        → fs.content (fs.rename old new s).0 p ≡ fs.content s p
    pub rename_same :
        (old new : Bytes) (s : fs.State) (e : Error)
        → (fs.rename old new s).1 ≡ some e
        → Same s (fs.rename old new s).0
