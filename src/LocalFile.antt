-- ===== src/LocalFile.antt =====
-- The in-memory file of a temporary database (src/MemoryWriteAheadVFS.ts): growBuffer and
-- LocalMemoryAccessHandle.
pub mod Laws
use memory_write_ahead_vfs.Base.{
  ℕ, ◌+◌, ◌-◌, ◌*◌, min, max, List, ◌++◌, length, take, drop, replicate, overwrite, leb,
  if◌then◌else◌,
}

-- MemoryWriteAheadLocalFile, without its path; `contents` is the whole buffer.
pub record LocalFile : Type 0 where
  pub contents : List ℕ
  pub size : ℕ

unfoldable pub grow_buffer : List ℕ → ℕ → List ℕ
grow_buffer buffer required_size =
    if leb required_size (length buffer)
    then buffer
    else buffer ++ replicate (max required_size (max (length buffer * 2) 1) - length buffer) 0

unfoldable pub get_size : LocalFile → ℕ
get_size f = f.size

-- The number of bytes read, and the caller's buffer then.
unfoldable pub read : LocalFile → List ℕ → ℕ → ℕ × List ℕ
read f target offset =
    let begin = min offset f.size in
    let bytes_to_read = min (offset + length target) f.size - begin in
    (bytes_to_read, overwrite target 0 (take bytes_to_read (drop begin f.contents)))

unfoldable pub truncate : ℕ → LocalFile → LocalFile
unfolding grow_buffer
truncate size f = record { contents = grow_buffer f.contents size; size = size }

-- The number of bytes written, and the file then.
unfoldable pub write : List ℕ → ℕ → LocalFile → ℕ × LocalFile
unfolding grow_buffer
write source offset f = (
  length source,
  record {
    contents = overwrite (grow_buffer f.contents (offset + length source)) offset source;
    size = max f.size (offset + length source);
  },
)
