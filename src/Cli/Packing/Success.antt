-- ===== src/Cli/Packing/Success.antt =====
-- What a report of success by `compress` in cli/src/commands/file_compress_commands.c says.
use simple_file_system.Base.{
  ℕ, ◌+◌, ◌-◌, ◌<◌, ◌≡◌, refl, ap, ◌∙◌, inl, inr, Option, none, some, ◌++◌, arith, Bytes, Result,
  ok, err, ◌==◌, Bool-cases, ==→eq, ==-ne,
}
use simple_file_system.Base.Integer.{pos}
use simple_file_system.Base.Text.{Text, take}
use simple_file_system.Platform.{Stdio}
use simple_file_system.Index.{Inode}
use simple_file_system.Dir.{Stdlib}
use simple_file_system.Vfs.{Context}
use simple_file_system.Vfs.Path.{max_path_length}
use simple_file_system.Vfs.Files.{close}
use simple_file_system.Vfs.Io.{read, write}
use simple_file_system.Vfs.Operations.{get_info}
use simple_file_system.Vfs.Open.{open_file}
use simple_file_system.Huffman.{header_size}
use simple_file_system.Huffman.Coder.{huffman_compress}
use simple_file_system.Cli.Packing.{
  Report, cannot_open, read_error, cannot_create, write_error, done, Heap, extension, open_new,
  open_read_only, Command, on_result, and_close, store_file, check_count, load_into, load_file,
  store_packed, pack,
}

-- The report is one of success.
abbrev pub IsDone : Report → Type 0
IsDone (done from to a b) = Unit {0}
IsDone _ = ⊥

module _ (io : Stdio) (lib : Stdlib) where
  on_result-IsDone :
      {A : Type 0} (failed : Report) (next : A → Command io lib) (r : Result A × Context io)
      → (IsDone failed → ⊥)
      → IsDone (on_result io lib failed next r).0
      → (a : A) × (r.0 ≡ ok a) × (on_result io lib failed next r ≡ next a r.1)
  on_result-IsDone failed next (ok a, v) not_done d = (a, refl, refl)
  on_result-IsDone failed next (err e, v) not_done d = absurd (not_done d)

  pub then-IsDone : {r r' : Report × Context io} → r ≡ r' → IsDone r.0 → IsDone r'.0
  then-IsDone e d = rw (← e) d

  -- From one context to the other, the file `to` was opened for writing, took the bytes and was closed.
  pub record IsStored (to : Text) (contents : Bytes) (size : ℕ) (before after : Context io)
      : Type 0 where
    pub descriptor : ℕ
    pub opens : (open_file io lib to open_new before).0 ≡ ok descriptor
    pub count : ℕ
    pub writes :
        (write io (pos descriptor) contents size (open_file io lib to open_new before).1).0
        ≡ ok count
    pub closes :
        after
        ≡ (close io
            (pos descriptor)
            (write io (pos descriptor) contents size (open_file io lib to open_new before).1).1).1

  store_file-IsStored :
      (from to : Text) (read_size : ℕ) (contents : Bytes) (size : ℕ) (v : Context io)
      → IsDone (store_file io lib from to read_size contents size v).0
      → IsStored to contents size v (store_file io lib from to read_size contents size v).1
  unfolding store_file
  store_file-IsStored from to read_size contents size v d =
      let (descriptor, opens, p) =
        on_result-IsDone cannot_create _ (open_file io lib to open_new v) (λ x. x) d in
      let (count, writes, q) =
        on_result-IsDone write_error _
          (and_close io lib descriptor (write io (pos descriptor) contents size)
            (open_file io lib to open_new v).1)
          (λ x. x) (then-IsDone p d) in
      record {
        descriptor = descriptor;
        opens = opens;
        count = count;
        writes = writes;
        closes = ap (λ r. r.1) (p ∙ q);
      }

  -- From one context to the other, the file was opened, reading gave as many bytes as it has, and it was
  -- closed.
  pub record IsLoaded (path : Text) (size : ℕ) (memory : Option Bytes) (contents : Bytes)
      (before after : Context io) : Type 0 where
    pub descriptor : ℕ
    pub opens : (open_file io lib path open_read_only before).0 ≡ ok descriptor
    pub buffer : Bytes
    pub has_memory : memory ≡ some buffer
    pub reads :
        (read io (pos descriptor) size buffer (open_file io lib path open_read_only before).1).0
        ≡ ok (size, contents)
    pub closes :
        after
        ≡ (close io
            (pos descriptor)
            (read io
              (pos descriptor)
              size
              buffer
              (open_file io lib path open_read_only before).1).1).1

  check_count-IsDone :
      (size : ℕ) (next : Bytes → Command io lib) (r : ℕ × Bytes) (v : Context io)
      → IsDone (check_count io lib size next r v).0
      → (r.0 ≡ size) × (check_count io lib size next r v ≡ next r.1 v)
  unfolding check_count
  check_count-IsDone size next (count, contents) v d = elim (Bool-cases (count == size)) [
    | inl whole ↦ (==→eq _ _ whole, rw whole refl)
    | inr short ↦ absurd (rw short at d)
  ]

  load_into-IsDone :
      (descriptor size : ℕ) (memory : Option Bytes) (next : Bytes → Command io lib) (v : Context io)
      → IsDone (load_into io lib descriptor size memory next v).0
      → (buffer : Bytes) × (contents : Bytes) × (memory ≡ some buffer)
        × ((read io (pos descriptor) size buffer v).0 ≡ ok (size, contents))
        × (load_into io lib descriptor size memory next v
            ≡ next contents
                (close io (pos descriptor) (read io (pos descriptor) size buffer v).1).1)
  unfolding load_into
  load_into-IsDone descriptor size none next v d = absurd d
  load_into-IsDone descriptor size (some buffer) next v d =
      let call = and_close io lib descriptor (read io (pos descriptor) size buffer) v in
      let ((count, contents), reads, p) =
        on_result-IsDone read_error (check_count io lib size next) call (λ x. x) d in
      let (whole, q) = check_count-IsDone size next (count, contents) call.1 (then-IsDone p d) in
      (buffer, contents, refl, reads ∙ ap (λ (c : ℕ). ok (c, contents)) whole, p ∙ q)

  pub load_file-IsLoaded :
      (path : Text) (size : ℕ) (memory : Option Bytes) (next : Bytes → Command io lib)
      (v : Context io)
      → IsDone (load_file io lib path size memory next v).0
      → (contents : Bytes) × (v' : Context io) × IsLoaded path size memory contents v v'
        × (load_file io lib path size memory next v ≡ next contents v')
  unfolding load_file
  load_file-IsLoaded path size memory next v d =
      let (descriptor, opens, p) =
        on_result-IsDone cannot_open _ (open_file io lib path open_read_only v) (λ x. x) d in
      let (buffer, contents, has_memory, reads, q) =
        load_into-IsDone descriptor size memory next _ (then-IsDone p d) in
      (
        contents,
        _,
        record {
          descriptor = descriptor;
          opens = opens;
          buffer = buffer;
          has_memory = has_memory;
          reads = reads;
          closes = refl;
        },
        p ∙ q,
      )

  -- The coder made `size` bytes of the contents, and these were stored.
  pub record IsPackedTo (heap : Heap) (to : Text) (contents : Bytes) (read_size : ℕ)
      (before after : Context io) : Type 0 where
    pub output : Bytes
    pub has_memory : heap.output ≡ some output
    pub size : ℕ
    pub packed : Bytes
    pub codes :
        huffman_compress heap.has_nodes heap.has_marks contents read_size output
          (read_size + header_size + 1024)
        ≡ some (size, packed)
    pub some_bytes : 0 < size
    pub stored : IsStored to packed size before after

  store_packed-IsDone :
      (path : Text) (read_size : ℕ) (r : Option (ℕ × Bytes)) (v : Context io)
      → IsDone (store_packed io lib path read_size r v).0
      → (size : ℕ) × (packed : Bytes) × (r ≡ some (size, packed))
        × (0 < size)
        × IsStored
            (take (max_path_length - 1) (path ++ extension))
            packed
            size
            v
            (store_packed io lib path read_size r v).1
  unfolding store_packed
  store_packed-IsDone path read_size none v d = absurd d
  store_packed-IsDone path read_size (some (size, packed)) v d = elim (Bool-cases (size == 0)) [
    | inl empty ↦ absurd (rw empty at d)
    | inr full ↦ (
      size,
      packed,
      refl,
      (let ne = ==-ne _ _ full in omega (arith, ne)),
      rw (full) (store_file-IsStored path _ read_size packed size v (rw full at d)),
    )
  ]

  pub pack-IsDone :
      (heap : Heap) (path : Text) (size : ℕ) (output : Option Bytes) (contents : Bytes)
      (v : Context io)
      → heap.output ≡ output
      → IsDone (pack io lib heap path size output contents v).0
      → IsPackedTo heap
          (take (max_path_length - 1) (path ++ extension))
          contents
          size
          v
          (pack io lib heap path size output contents v).1
  unfolding pack
  pack-IsDone heap path size none contents v h d = absurd d
  pack-IsDone heap path size (some output) contents v h d =
      let (packed_size, packed, codes, some_bytes, stored) = store_packed-IsDone path size _ v d in
      record {
        output = output;
        has_memory = h;
        size = packed_size;
        packed = packed;
        codes = codes;
        some_bytes = some_bytes;
        stored = stored;
      }

  -- What `compress` has done with a file on the way from `v` to `v'`, if it reports success.
  pub record IsCompressed (heap : Heap) (path : Text) (v v' : Context io) : Type 0 where
    pub inode : Inode
    pub informs : (get_info io lib path v).0 ≡ ok inode
    pub some_bytes : 0 < inode.size
    pub contents : Bytes
    pub between : Context io
    pub loaded : IsLoaded path inode.size heap.input contents (get_info io lib path v).1 between
    pub packs :
        IsPackedTo heap
          (take (max_path_length - 1) (path ++ extension))
          contents
          inode.size
          between
          v'
