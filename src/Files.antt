-- ===== src/Files.antt =====
-- The files of one directory, and a sequence of operations on them that may stop at any point: what
-- `write_to_path` (crates/tabstride-cli/src/daemon/info.rs), `write_update_cache` and
-- `replace_binary_atomically` (cli/update.rs) have in common. `take` is that of a list.
pub mod Replace
use tab_stride.Prelude.{
  ℕ, zero, suc, if◌then◌else◌, Bool, true, false, Option, none, some, List, [], ◌∷◌, ◌≡◌, refl,
  arith,
}
use tab_stride.Text.{bytes_eq, bytes_eq_iff}

pub record File : Type 0 where
  pub content : List ℕ
  pub mode : ℕ

abbrev pub Directory : Type 0
Directory = List ℕ → Option File

abbrev pub update : Directory → List ℕ → Option File → Directory
update d name f other = if bytes_eq other name then f else d other

abbrev pub take : ℕ → List ℕ → List ℕ
take zero xs = []
take (suc n) [] = []
take (suc n) (x ∷ xs) = x ∷ take n xs

-- `create_dir` ensures that the directory is there, `sync` also stands for a flush of what was not
-- buffered. A file is created with the mode that the umask leaves.
pub data Operation : Type 0 where
  create_dir : Operation
  create : List ℕ → ℕ → Operation
  write : List ℕ → List ℕ → Operation
  sync : Operation
  chmod : List ℕ → ℕ → Operation
  rename : List ℕ → List ℕ → Operation

abbrev with_content : List ℕ → Option File → Option File
with_content bytes none = none
with_content bytes (some f) = some (record f { content = bytes })

abbrev with_mode : ℕ → Option File → Option File
with_mode mode none = none
with_mode mode (some f) = some (record f { mode = mode })

abbrev renamed : List ℕ → List ℕ → Option File → Directory → Directory
renamed from onto none d = d
renamed from onto (some f) d = update (update d from none) onto (some f)

-- `write` leaves exactly the bytes in the file; a rename replaces its target.
unfoldable pub perform : Operation → Directory → Directory
perform create_dir d = d
perform (create name mode) d = update d name (some (record { content = []; mode = mode }))
perform (write name bytes) d = update d name (with_content bytes (d name))
perform sync d = d
perform (chmod name mode) d = update d name (with_mode mode (d name))
perform (rename from onto) d = renamed from onto (d from) d

-- What an operation that fails has done: a write may leave any part of its bytes.
unfoldable pub break_off : ℕ → Operation → Directory → Directory
break_off n create_dir d = d
break_off n (create name mode) d = d
break_off n (write name bytes) d = update d name (with_content (take n bytes) (d name))
break_off n sync d = d
break_off n (chmod name mode) d = d
break_off n (rename from onto) d = d

-- The sequence stops in the operation of the given number, by a failure or the end of the process,
-- and has still written the given number of bytes; it comes to its end if that number is too high.
-- The directory afterwards, and whether the sequence came to its end.
unfoldable pub run : List Operation → ℕ → ℕ → Directory → Directory × Bool
run [] k n d = (d, true)
run (op ∷ ops) zero n d = (break_off n op d, false)
run (op ∷ ops) (suc k) n d = run ops k n (perform op d)
