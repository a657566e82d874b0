-- ===== src/Daemon/Process/Info.antt =====
-- crates/tabstride-cli/src/daemon/info.rs: the file daemon.json. Its JSON codec is a parameter.
use tab_stride.Files.{
  Directory, Operation, create_dir, create, write, sync, chmod, rename, update, run, take, perform,
}
use tab_stride.Files.Replace.{run-IsReplaced, append-ne, Prepares, performed}
use tab_stride.Text.{codes, bytes_eq_iff}
use tab_stride.Prelude.{
  ℕ, String, Bool, true, false, if◌then◌else◌, Option, none, some, List, [], ◌∷◌, ◌++◌, ◌≡◌, ◌⊎◌,
  inl, inr, refl, arith, All,
}

pub record DaemonInfo : Type 0 where
  pub pid : ℕ
  pub sock_path : String
  pub ws_port : ℕ
  pub version : String
  pub agent_token : String
  pub started_at_epoch_secs : ℕ

-- `Result<Option<DaemonInfo>>`
pub data Read : Type 0 where
  unreadable : Read
  missing : Read
  present : DaemonInfo → Read

abbrev pub info_name : List ℕ
info_name = codes "daemon.json"

-- The temporary file carries the process id, in digits.
abbrev pub temporary : List ℕ → List ℕ
temporary pid_text = info_name ++ codes ".tmp." ++ pid_text

-- 0o600
abbrev pub owner_only : ℕ
owner_only = 384

-- The payload goes through a `BufWriter`, which may pass on a part of it before the flush.
abbrev pub write_operations : List ℕ → ℕ → ℕ → List ℕ → List Operation
write_operations pid_text created early payload =
    create_dir
    ∷ create (temporary pid_text) created
    ∷ write (temporary pid_text) (take early payload)
    ∷ write (temporary pid_text) payload
    ∷ sync
    ∷ chmod (temporary pid_text) owner_only
    ∷ []

module _ (encode : DaemonInfo → List ℕ) (decode : List ℕ → Option DaemonInfo) where
  -- The directory afterwards, and whether the write succeeded.
  unfoldable pub write_to_path : List ℕ → ℕ → ℕ → DaemonInfo → ℕ → ℕ → Directory → Directory × Bool
  unfolding run
  write_to_path pid_text created early info k n d =
      run
        (write_operations pid_text created early (encode info)
          ++ rename (temporary pid_text) info_name ∷ [])
        k n d

  abbrev parsed : Option DaemonInfo → Read
  parsed none = unreadable
  parsed (some info) = present info

  -- A file that is there and cannot be read is left out.
  unfoldable pub read_from_path : Directory → Read
  read_from_path d = elim (d info_name) [ none ↦ missing | some f ↦ parsed (decode f.content) ]

  abbrev pub keep_alive : (ℕ → Bool) → Read → Read
  keep_alive alive unreadable = unreadable
  keep_alive alive missing = missing
  keep_alive alive (present info) = if alive info.pid then present info else missing

  unfoldable pub read_valid : (ℕ → Bool) → Directory → Read
  unfolding read_from_path
  read_valid alive d = keep_alive alive (read_from_path d)

-- A file that is not there counts as removed.
unfoldable pub remove : Directory → Directory
remove d = update d info_name none

module _ (pid_text : List ℕ) (created early : ℕ) (payload : List ℕ) where
  write_operations-Prepares :
      All (Prepares (temporary pid_text)) (write_operations pid_text created early payload)
  write_operations-Prepares = (tt, (refl, (refl, (refl, (tt, (refl, tt))))))

  performed-write_operations :
      (d : Directory)
      → performed (write_operations pid_text created early payload) d (temporary pid_text)
        ≡ some (record { content = payload; mode = owner_only })
  unfolding perform
  performed-write_operations d =
      ground (arith, bytes_eq_iff (temporary pid_text) (temporary pid_text))

-- A write of daemon.json that stops at any point reports a failure and leaves a reader what it found
-- before, or reports success and leaves the whole new record, in a file that only its owner reads.
pub read_from_path-write_to_path :
    (encode : DaemonInfo → List ℕ) (decode : List ℕ → Option DaemonInfo)
    → (info : DaemonInfo) → decode (encode info) ≡ some info
    → (pid_text : List ℕ) (created early k n : ℕ) (d : Directory)
    → let r = write_to_path encode decode pid_text created early info k n d in
      ((r.1 ≡ false) × (read_from_path encode decode r.0 ≡ read_from_path encode decode d))
      ⊎ ((r.1 ≡ true)
          × (read_from_path encode decode r.0 ≡ present info)
          × (r.0 info_name ≡ some (record { content = encode info; mode = owner_only })))
unfolding write_to_path read_from_path perform
read_from_path-write_to_path encode decode info codec pid_text created early k n d =
    elim (run-IsReplaced (temporary pid_text) info_name
      (append-ne info_name b'.' (codes "tmp." ++ pid_text))
      (write_operations pid_text created early (encode info)) d
      (record { content = encode info; mode = owner_only }) k n
      (write_operations-Prepares pid_text created early (encode info))
      (ground (arith, bytes_eq_iff (temporary pid_text) (temporary pid_text)))) [
        | inl (fails, old) ↦ inl (fails, ground arith)
        | inr (done, new) ↦ inr (done, ground (arith, codec), new)
      ]
