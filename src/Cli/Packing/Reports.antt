-- ===== src/Cli/Packing/Reports.antt =====
-- What every report of `compress` in cli/src/commands/file_compress_commands.c says.
use simple_file_system.Base.{
  ℕ, ◌+◌, ◌-◌, ◌<◌, ◌≡◌, refl, inl, inr, Option, none, some, List, ◌∷◌, ◌++◌, arith, Bytes, Status,
  Result, ok, err, ◌==◌, if◌then◌else◌, Bool-cases, ==→eq, ==-ne,
}
use simple_file_system.Base.Integer.{pos}
use simple_file_system.Base.Text.{Text, take}
use simple_file_system.Platform.{Stdio}
use simple_file_system.Index.{Inode}
use simple_file_system.Dir.{Stdlib}
use simple_file_system.Vfs.{Context}
use simple_file_system.Vfs.Path.{max_path_length}
use simple_file_system.Vfs.Io.{read, write}
use simple_file_system.Vfs.Operations.{get_info}
use simple_file_system.Vfs.Open.{open_file}
use simple_file_system.Huffman.{header_size}
use simple_file_system.Huffman.Coder.{huffman_compress}
use simple_file_system.Cli.Paths.{build_absolute_path}
use simple_file_system.Cli.Packing.{
  Report, usage, wrong_extension, no_info, file_is_empty, cannot_open, no_memory, read_error,
  too_small, coder_failed, cannot_create, write_error, done, Heap, extension, open_new,
  open_read_only, Command, report, on_result, attempt, and_close, store_file, check_count,
  load_into, load_file, store_packed, pack, compress,
}
use simple_file_system.Cli.Packing.Success.{
  IsDone, IsCompressed, then-IsDone, load_file-IsLoaded, pack-IsDone,
}

module _ (io : Stdio) (lib : Stdlib) where
  -- What a report of `compress` says of the inode of its file and of the calls that it made.
  abbrev pub Says : Heap → (path : Text) → (before after : Context io) → Report → Type 0
  Says heap path v v' (done from to a b) = IsCompressed io lib heap path v v'
  Says heap path v v' usage = ⊥
  Says heap path v v' wrong_extension = ⊥
  Says heap path v v' too_small = ⊥
  Says heap path v v' no_info = (e : Status) × ((get_info io lib path v).0 ≡ err e)
  Says heap path v v' file_is_empty =
      (inode : Inode) × ((get_info io lib path v).0 ≡ ok inode) × (inode.size ≡ 0)
  Says heap path v v' _ =
      (inode : Inode) × ((get_info io lib path v).0 ≡ ok inode) × (0 < inode.size)

  -- The reports of the part behind fs_vfs_get_info.
  abbrev IsLater : Report → Type 0
  IsLater cannot_open = Unit {0}
  IsLater no_memory = Unit {0}
  IsLater read_error = Unit {0}
  IsLater coder_failed = Unit {0}
  IsLater cannot_create = Unit {0}
  IsLater write_error = Unit {0}
  IsLater (done from to a b) = Unit {0}
  IsLater _ = ⊥

  on_result-IsLater :
      {A : Type 0} (failed : Report) (next : A → Command io lib) (r : Result A × Context io)
      → IsLater failed
      → ((a : A) (v : Context io) → IsLater (next a v).0)
      → IsLater (on_result io lib failed next r).0
  on_result-IsLater failed next (ok a, v) f g = g a v
  on_result-IsLater failed next (err e, v) f g = f

  store_file-IsLater :
      (from to : Text) (read_size : ℕ) (contents : Bytes) (size : ℕ) (v : Context io)
      → IsLater (store_file io lib from to read_size contents size v).0
  unfolding store_file
  store_file-IsLater from to read_size contents size v =
      on_result-IsLater cannot_create
        (λ k.
          attempt io lib (and_close io lib k (write io (pos k) contents size)) write_error
            (λ (c : ℕ). report io lib (done from to read_size size)))
        (open_file io lib to open_new v) tt
        (λ k v'.
          on_result-IsLater write_error (λ (c : ℕ). report io lib (done from to read_size size))
            (and_close io lib k (write io (pos k) contents size) v') tt (λ c v''. tt))

  store_packed-IsLater :
      (path : Text) (read_size : ℕ) (r : Option (ℕ × Bytes)) (v : Context io)
      → IsLater (store_packed io lib path read_size r v).0
  unfolding store_packed
  store_packed-IsLater path read_size none v = tt
  store_packed-IsLater path read_size (some (size, packed)) v = elim (Bool-cases (size == 0)) [
    | inl empty ↦ rw empty tt
    | inr full ↦ rw full (
        store_file-IsLater path (take (max_path_length - 1) (path ++ extension)) read_size packed
          size v)
  ]

  pack-IsLater :
      (heap : Heap) (path : Text) (size : ℕ) (output : Option Bytes) (contents : Bytes)
      (v : Context io)
      → IsLater (pack io lib heap path size output contents v).0
  unfolding pack
  pack-IsLater heap path size none contents v = tt
  pack-IsLater heap path size (some output) contents v =
      store_packed-IsLater path size
        (huffman_compress heap.has_nodes heap.has_marks contents size output
          (size + header_size + 1024))
        v

  check_count-IsLater :
      (size : ℕ) (next : Bytes → Command io lib) (r : ℕ × Bytes) (v : Context io)
      → ((contents : Bytes) (v : Context io) → IsLater (next contents v).0)
      → IsLater (check_count io lib size next r v).0
  unfolding check_count
  check_count-IsLater size next (count, contents) v g = elim (Bool-cases (count == size)) [
    | inl whole ↦ rw whole (g contents v)
    | inr short ↦ rw short tt
  ]

  load_into-IsLater :
      (descriptor size : ℕ) (memory : Option Bytes) (next : Bytes → Command io lib) (v : Context io)
      → ((contents : Bytes) (v : Context io) → IsLater (next contents v).0)
      → IsLater (load_into io lib descriptor size memory next v).0
  unfolding load_into
  load_into-IsLater descriptor size none next v g = tt
  load_into-IsLater descriptor size (some buffer) next v g =
      on_result-IsLater read_error (check_count io lib size next)
        (and_close io lib descriptor (read io (pos descriptor) size buffer) v) tt
        (λ r v'. check_count-IsLater size next r v' g)

  load_file-IsLater :
      (path : Text) (size : ℕ) (memory : Option Bytes) (next : Bytes → Command io lib)
      (v : Context io)
      → ((contents : Bytes) (v : Context io) → IsLater (next contents v).0)
      → IsLater (load_file io lib path size memory next v).0
  unfolding load_file
  load_file-IsLater path size memory next v g =
      on_result-IsLater cannot_open _ (open_file io lib path open_read_only v) tt
        (λ k v'. load_into-IsLater k size memory next v' g)

  -- A later report says what it should if one of success does.
  later-Says :
      (heap : Heap) (path : Text) (v v' : Context io) (inode : Inode) (r : Report)
      → (get_info io lib path v).0 ≡ ok inode
      → 0 < inode.size
      → IsLater r
      → (IsDone r → IsCompressed io lib heap path v v')
      → Says heap path v v' r
  later-Says heap path v v' inode (done from to a b) e h l f = f tt
  later-Says heap path v v' inode usage e h l f = l
  later-Says heap path v v' inode wrong_extension e h l f = l
  later-Says heap path v v' inode too_small e h l f = l
  later-Says heap path v v' inode no_info e h l f = absurd l
  later-Says heap path v v' inode file_is_empty e h l f = absurd l
  later-Says heap path v v' inode cannot_open e h l f = (inode, e, h)
  later-Says heap path v v' inode no_memory e h l f = (inode, e, h)
  later-Says heap path v v' inode read_error e h l f = (inode, e, h)
  later-Says heap path v v' inode coder_failed e h l f = (inode, e, h)
  later-Says heap path v v' inode cannot_create e h l f = (inode, e, h)
  later-Says heap path v v' inode write_error e h l f = (inode, e, h)

  compressed :
      (heap : Heap) (path : Text) (v : Context io) (inode : Inode)
      → (get_info io lib path v).0 ≡ ok inode
      → 0 < inode.size
      → let run =
          load_file io lib path inode.size heap.input
            (pack io lib heap path inode.size heap.output)
            (get_info io lib path v).1 in
        IsDone run.0 → IsCompressed io lib heap path v run.1
  compressed heap path v inode e h d =
      let v1 = (get_info io lib path v).1 in
      let (contents, v', loaded, p) =
        load_file-IsLoaded io lib path inode.size heap.input
          (pack io lib heap path inode.size heap.output) v1 d in
      let d' = then-IsDone io lib p d in
      rw (p) (record {
        inode = inode;
        informs = e;
        some_bytes = h;
        contents = contents;
        between = v';
        loaded = loaded;
        packs = pack-IsDone io lib heap path inode.size heap.output contents v' refl d';
      })

  -- `compress` reports success only if its file has an inode with a size above 0, it was opened, reading
  -- gave all of its bytes, the coder made bytes of them, and from there on the file with the name extended by
  -- ".sz" was opened, took these bytes and was closed, which leaves the context that the command leaves. It
  -- reports that there is no information only if fs_vfs_get_info failed, that the file is empty only if
  -- its size is 0, and any other error only at a file with a size above 0.
  pub compress-Says :
      (heap : Heap) (current argument : Text) (arguments : List Text) (v : Context io)
      → let run = compress io lib heap current (argument ∷ arguments) v in
        Says heap (build_absolute_path current argument max_path_length) v run.1 run.0
  unfolding compress
  compress-Says heap current argument arguments v = informed (get_info io lib path v).0 refl
    where
      path : Text
      path = build_absolute_path current argument max_path_length

      informed :
          (r : Result Inode)
          → (get_info io lib path v).0 ≡ r
          → let run =
              on_result io lib no_info
                (λ inode.
                  if inode.size == 0
                  then report io lib file_is_empty
                  else load_file io lib path inode.size heap.input
                      (pack io lib heap path inode.size heap.output))
                (r, (get_info io lib path v).1) in
            Says heap path v run.1 run.0
      informed (err e) q = (e, q)
      informed (ok inode) q = elim (Bool-cases (inode.size == 0)) [
        | inl empty ↦ rw empty (inode, q, ==→eq _ _ empty)
        | inr full ↦
            let h : 0 < inode.size = (let ne = ==-ne _ _ full in omega (arith, ne)) in
            rw full (
              later-Says heap path v _ inode _ q h
                (load_file-IsLater path inode.size heap.input _ (get_info io lib path v).1
                  (λ c v2. pack-IsLater heap path inode.size heap.output c v2))
                (compressed heap path v inode q h))
      ]
