-- ===== src/Log/Roll.antt =====
-- `rollfile` of lua-log.c: which file the log goes to. The directory, the date and `fopen` belong
-- to the system, so they are arguments.
use quick.Prelude.{ℕ, zero, suc, ◌+◌, Bool, true, false, Option, none, some, leb, if◌then◌else◌}

-- `inst.handle`: null, one of the standard streams, or a log file by the date and the index in
-- its name.
pub data Handle : Type 0 where
  null : Handle
  standard : Handle
  file : ℕ → ℕ → Handle

pub record Roll : Type 0 where
  pub handle : Handle
  pub rollsize : ℕ
  pub written_bytes : ℕ
  pub roll_mday : ℕ

-- What `opendir` and `mkdir` report.
pub data Directory : Type 0 where
  present : Directory
  absent : Bool → Directory
  unusable : Directory

pub record System : Type 0 where
  pub directory : Directory
  pub date : ℕ
  pub mday : ℕ
  pub fopen : ℕ → Bool

-- A missing directory is created; what cannot be mended ends the process.
abbrev pub directory_ready : Directory → Bool
directory_ready present = true
directory_ready (absent made) = made
directory_ready unusable = false

-- The `while (1)` loop from `index` on; `none` means that the fuel ran out.
unfoldable pub open_from : System → ℕ → ℕ → Roll → Option Roll
open_from sys zero index r = none
open_from sys (suc fuel) index r = elim (sys.fopen index) [
  | false ↦ some (record r { handle = standard })
  | true ↦ elim (leb r.rollsize r.written_bytes) [
    | true ↦
        open_from sys fuel (index + 1)
          (record r { handle = file sys.date index; written_bytes = 0 })
    | false ↦ some (record r { handle = file sys.date index; roll_mday = sys.mday })
  ]
]

-- How `rollfile` ends: `exit(EXIT_FAILURE)`, or with a new state.
pub data Rolled : Type 0 where
  exited : Rolled
  stuck : Rolled
  rolled : Roll → Rolled

abbrev pub to_rolled : Option Roll → Rolled
to_rolled none = stuck
to_rolled (some r) = rolled r

abbrev pub roll_handle : ℕ → System → Roll → Handle → Rolled
roll_handle fuel sys r standard = rolled r
roll_handle fuel sys r h =
    if directory_ready sys.directory then to_rolled (open_from sys fuel 0 r) else exited

unfoldable pub rollfile : ℕ → System → Roll → Rolled
unfolding open_from
rollfile fuel sys r = roll_handle fuel sys r r.handle
