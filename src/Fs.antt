-- ===== src/Fs.antt =====
-- The files that the program reads and writes. The operating system is a parameter: which files can
-- be opened for writing or renamed, and how much of what is written reaches the disk.
pub mod Replace
pub mod Calls
pub mod Examples
use embedded_linux_ota.Prelude.{
  Bool, true, false, [], Option, none, some, ◌++◌, get_or, ◌≡◌, if◌then◌else◌,
}
use embedded_linux_ota.Text.{Text, codes, text_eq}

-- The contents of the files, by path.
abbrev pub Files : Type 0
Files = Text → Option Text

abbrev pub put : Files → Text → Text → Files
put fs path content q = if text_eq path q then some content else fs q

abbrev pub remove : Files → Text → Files
remove fs path q = if text_eq path q then none else fs q

-- How the system answers: `stored path content` is what a file holds after `content` was written to
-- it and the stream closed, `write_good` the stream's `good()` after a flush, and `buffer_good` its
-- `good()` before one, where the content may still be in the buffer of the stream.
pub record Env : Type 0 where
  pub can_open : Text → Bool
  pub stored : Text → Text → Text
  pub write_good : Text → Text → Bool
  pub buffer_good : Text → Text → Bool
  pub can_rename : Text → Text → Bool

-- A stream that is good after a flush has handed all that was written to the system. This says nothing
-- of a loss of power: no file is synchronised before it is renamed or reported as written.
abbrev pub IsHonest : Env → Type 0
IsHonest env =
    (path content : Text) → env.write_good path content ≡ true → env.stored path content ≡ content

-- The system refuses nothing.
pub record IsHealthy (env : Env) : Type 0 where
  pub honest : IsHonest env
  pub opens : (path : Text) → env.can_open path ≡ true
  pub writes : (path content : Text) → env.write_good path content ≡ true
  pub buffers : (path content : Text) → env.buffer_good path content ≡ true
  pub renames : (old new : Text) → env.can_rename old new ≡ true

-- An `std::ofstream` on `path`: `false` if it cannot be opened, else its `good()` after the write and a
-- flush.
unfoldable pub write_file : Env → Text → Text → Files → Files × Bool
write_file env path content fs =
    if env.can_open path
    then (put fs path (env.stored path content), env.write_good path content)
    else (fs, false)

-- The same without a flush: the result is there before the content is, and does not depend on it.
unfoldable pub write_unflushed : Env → Text → Text → Files → Files × Bool
write_unflushed env path content fs =
    if env.can_open path
    then (put fs path (env.stored path content), env.buffer_good path content)
    else (fs, false)

-- `rename(old, new)`; renaming what is not there fails.
unfoldable pub rename_file : Env → Text → Text → Files → Files × Bool
rename_file env old new fs = elim (fs old) [
  | none ↦ (fs, false)
  | some content ↦
      if env.can_rename old new then (put (remove fs old) new content, true) else (fs, false)
]

abbrev pub tmp_of : Text → Text
tmp_of path = path ++ codes ".tmp"

-- Write `path.tmp`, then rename it to `path`; whether the write was good is not asked.
unfoldable pub replace_file : Env → Text → Text → Files → Files × Bool
unfolding rename_file
replace_file env path content fs =
    if env.can_open (tmp_of path)
    then rename_file env (tmp_of path) path
        (put fs (tmp_of path) (env.stored (tmp_of path) content))
    else (fs, false)

-- A stream read to its end; a file that cannot be opened reads as the empty text.
abbrev pub read_all : Files → Text → Text
read_all fs path = get_or [] (fs path)
