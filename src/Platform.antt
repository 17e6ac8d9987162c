-- ===== src/Platform.antt =====
-- include/fs/platform_io.h and the calls of <stdio.h> behind it. The stream, its operations and
-- what they promise are a parameter of the development.
use simple_file_system.Base.{ℕ, ◌+◌, ◌≤◌, ◌<◌, ◌≡◌, Bool, true, Bytes}

-- A stream and what the source asks of it. `seek_set` is
-- `fs_file_seek(stream, offset, SEEK_SET) == 0`, `fread` and `fwrite` move `count` elements of one
-- byte, `flush` is `fflush(stream) == 0` and `sync` is `fs_file_sync(stream) == 0`.
pub record Stdio : Type 1 where
  pub Stream : Type 0
  pub seek_set : Stream → ℕ → Bool × Stream
  pub fread : Stream → ℕ → Bytes × ℕ × Stream
  pub fwrite : Stream → Bytes → ℕ → ℕ × Stream
  pub flush : Stream → Bool × Stream
  pub sync : Stream → Bool × Stream

module _ (io : Stdio) where
  open io use {Stream, seek_set, fread, fwrite}

  -- What a file promises: a read that returns all its bytes returns those at the position, a write
  -- changes nothing outside its range, and one that returns its count has written its bytes.
  pub record IsFile : Type 0 where
    pub contents : Stream → Bytes
    pub position : Stream → ℕ
    pub contents-seek : (s : Stream) (o : ℕ) → contents (seek_set s o).1 ≡ contents s
    pub position-seek :
        (s : Stream) (o : ℕ) → (seek_set s o).0 ≡ true → position (seek_set s o).1 ≡ o
    pub contents-fread : (s : Stream) (n : ℕ) → contents (fread s n).2 ≡ contents s
    pub fread_bytes :
        (s : Stream) (n i : ℕ)
        → (fread s n).1 ≡ n
        → i < n
        → (fread s n).0 i ≡ contents s (position s + i)
    pub fwrite_bytes :
        (s : Stream) (b : Bytes) (n i : ℕ)
        → (fwrite s b n).0 ≡ n
        → i < n
        → contents (fwrite s b n).1 (position s + i) ≡ b i
    pub fwrite_before :
        (s : Stream) (b : Bytes) (n i : ℕ)
        → i < position s
        → contents (fwrite s b n).1 i ≡ contents s i
    pub fwrite_after :
        (s : Stream) (b : Bytes) (n i : ℕ)
        → position s + n ≤ i
        → contents (fwrite s b n).1 i ≡ contents s i

  -- A medium on which no call fails.
  pub record IsReliable : Type 0 where
    pub seek_succeeds : (s : Stream) (o : ℕ) → (seek_set s o).0 ≡ true
    pub fread_succeeds : (s : Stream) (n : ℕ) → (fread s n).1 ≡ n
    pub fwrite_succeeds : (s : Stream) (b : Bytes) (n : ℕ) → (fwrite s b n).0 ≡ n
