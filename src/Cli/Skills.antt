-- ===== src/Cli/Skills.antt =====
-- crates/tabstride-cli/src/skill_install: the copies of SKILL.md of the agent harnesses. A harness is
-- its index in `HarnessId::ALL`, and each has a file of its own; a file is its content.
pub mod Synced
pub mod Selected
use tab_stride.Text.{bytes_eq}
use tab_stride.Files.{take}
use tab_stride.Cli.Percentile.{sort}
use tab_stride.Prelude.{
  ℕ, ◌==◌, if◌then◌else◌, get_elem?, Bool, true, false, not, ◌&&◌, Option, none, some, List, [],
  ◌∷◌, is_some, ◌>>=◌,
}

-- The files under the home directory.
abbrev pub Home : Type 0
Home = ℕ → Option (List ℕ)

abbrev pub put : Home → ℕ → List ℕ → Home
put home h content other = if other == h then some content else home other

-- What fails in one synchronisation, if anything.
pub data SyncFault : Type 0 where
  no_fault read_fails write_fails rename_fails : SyncFault

pub data SyncOne : Type 0 where
  missing up_to_date updated failed : SyncOne

abbrev pub replaced : Home → ℕ → List ℕ → SyncFault → Home × SyncOne
replaced home h source no_fault = (put home h source, updated)
replaced home h source read_fails = (home, failed)
replaced home h source write_fails = (home, failed)
replaced home h source rename_fails = (home, failed)

abbrev pub reads : SyncFault → Bool
reads read_fails = false
reads no_fault = true
reads write_fails = true
reads rename_fails = true

abbrev pub sync_present : Home → ℕ → List ℕ → SyncFault → List ℕ → Home × SyncOne
sync_present home h source fault on_disk =
    if not (reads fault)
    then (home, failed)
    else if bytes_eq on_disk source
    then (home, up_to_date)
    else replaced home h source fault

-- The replacement writes another file and renames it, so that a fault leaves the file as it was.
unfoldable pub sync_one : Home → ℕ → List ℕ → SyncFault → Home × SyncOne
unfolding bytes_eq
sync_one home h source fault = elim (home h) [
  | none ↦ (home, missing)
  | some on_disk ↦ sync_present home h source fault on_disk
]

pub record SyncReport : Type 0 where
  pub updated : List ℕ
  pub up_to_date : List ℕ
  pub errors : List ℕ

-- The report so far, for the harnesses that follow.
abbrev pub add_sync : ℕ → SyncOne → SyncReport → SyncReport
add_sync h missing r = r
add_sync h up_to_date r = record {
  updated = r.updated;
  up_to_date = h ∷ r.up_to_date;
  errors = r.errors;
}
add_sync h updated r = record {
  updated = h ∷ r.updated;
  up_to_date = r.up_to_date;
  errors = r.errors;
}
add_sync h failed r = record {
  updated = r.updated;
  up_to_date = r.up_to_date;
  errors = h ∷ r.errors;
}

-- Over the harnesses in order, each with its fault.
unfoldable pub sync_with_source : Home → List ℕ → List (ℕ × SyncFault) → Home × SyncReport
unfolding sync_one
sync_with_source home source [] = (home, record { updated = []; up_to_date = []; errors = [] })
sync_with_source home source ((h, fault) ∷ rest) =
    let (home', one) = sync_one home h source fault in
    let (last, report) = sync_with_source home' source rest in (last, add_sync h one report)

pub data InstallStatus : Type 0 where
  fresh overwritten skipped : InstallStatus

-- How a plain write of a file ends: whole, before the file is opened, or after a number of bytes, where
-- the old content is already gone.
pub data WriteEnd : Type 0 where
  whole not_opened : WriteEnd
  cut : ℕ → WriteEnd

abbrev pub write_over : Home → ℕ → List ℕ → WriteEnd → InstallStatus → Home × Option InstallStatus
write_over home h source whole status = (put home h source, some status)
write_over home h source not_opened status = (home, none)
write_over home h source (cut n) status = (put home h (take n source), none)

-- `none` is an error.
unfoldable pub install_one_at_home :
    Home → ℕ → List ℕ → Bool → WriteEnd → Home × Option InstallStatus
install_one_at_home home h source force ends =
    if is_some (home h) && not force
    then (home, some skipped)
    else write_over home h source ends (if is_some (home h) then overwritten else fresh)

-- `InstallSkillOutput`: the statuses and the harnesses that failed.
pub record InstallOutput : Type 0 where
  pub results : List (ℕ × InstallStatus)
  pub errors : List ℕ

abbrev pub add_install : ℕ → Option InstallStatus → InstallOutput → InstallOutput
add_install h (some status) o = record { results = (h, status) ∷ o.results; errors = o.errors }
add_install h none o = record { results = o.results; errors = h ∷ o.errors }

unfoldable pub install_to_harnesses_at_home :
    Home → List ℕ → Bool → List (ℕ × WriteEnd) → Home × InstallOutput
unfolding install_one_at_home
install_to_harnesses_at_home home source force [] = (home, record { results = []; errors = [] })
install_to_harnesses_at_home home source force ((h, ends) ∷ rest) =
    let (home', status) = install_one_at_home home h source force ends in
    let (last, output) = install_to_harnesses_at_home home' source force rest in
    (last, add_install h status output)

-- `success` and `exit_code`
abbrev pub success : InstallOutput → Bool
success o = elim o.errors [ [] ↦ true | _ ∷ _ ↦ false ]

abbrev pub exit_code : InstallOutput → ℕ
exit_code o = if success o then 0 else 1

-- `HarnessReport`
pub record HarnessReport : Type 0 where
  pub id : ℕ
  pub detected : Bool

-- `dedup`, which drops repetitions that stand side by side.
unfoldable pub dedup : List ℕ → List ℕ
dedup [] = []
dedup (a ∷ []) = a ∷ []
dedup (a ∷ b ∷ rest) = let tail = dedup (b ∷ rest) in if a == b then tail else a ∷ tail

abbrev pub selected_ids : List HarnessReport → List ℕ → Option (List ℕ)
selected_ids reports [] = some []
selected_ids reports (i ∷ is) = do
  report ← get_elem? reports i
  rest ← selected_ids reports is
  some (report.id ∷ rest)

abbrev pub in_order : List ℕ → Option (List ℕ)
in_order ids = some (dedup (sort ids))

-- `none` is the error of an empty selection or of an index out of range.
unfoldable pub harness_ids_from_indices : List HarnessReport → List ℕ → Option (List ℕ)
unfolding dedup sort
harness_ids_from_indices reports [] = none
harness_ids_from_indices reports (i ∷ is) = do ids ← selected_ids reports (i ∷ is); in_order ids
