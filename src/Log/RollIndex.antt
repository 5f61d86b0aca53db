-- ===== src/Log/RollIndex.antt =====
-- The loop of `rollfile` in lua-log.c, and how it ends.
use quick.Prelude.{
  ℕ, zero, suc, ◌+◌, ◌≤◌, ◌<◌, ◌≡◌, ◌≢◌, refl, ◌∙◌, ap, true, false, Option, some, inl, inr, leb,
  arith, Bool-cases, if◌then◌else◌,
}
use quick.Log.Roll.{
  Roll, Handle, null, standard, file, System, rolled, exited, directory_ready, open_from,
  roll_handle, to_rolled, rollfile,
}
use quick.Log.Worker.{has_handle}

-- A usable handle, and the size limit as before.
pub record RolledOk (r r' : Roll) : Type 0 where
  pub usable : has_handle r'.handle ≡ true
  pub rollsize : r'.rollsize ≡ r.rollsize

abbrev Ends : Option Roll → Roll → Type 0
Ends o r = (r' : Roll) × (o ≡ some r') × RolledOk r r'

open_below :
    (sys : System) (fuel index : ℕ) (r : Roll)
    → r.written_bytes < r.rollsize
    → 1 ≤ fuel
    → Ends (open_from sys fuel index r) r
unfolding open_from
open_below sys zero index r small enough = absurd (omega arith)
open_below sys (suc fuel) index r small enough = elim (Bool-cases (sys.fopen index)) [
  | inl e ↦
      let room : leb r.rollsize r.written_bytes ≡ false = ground arith in
      (
        record r { handle = file sys.date index; roll_mday = sys.mday },
        rw (e, room, open_from),
        record { usable = refl; rollsize = refl },
      )
  | inr e ↦
      (record r { handle = standard }, rw (e, open_from), record { usable = refl; rollsize = refl })
]

open_any :
    (sys : System) (fuel index : ℕ) (r : Roll)
    → 0 < r.rollsize
    → 2 ≤ fuel
    → Ends (open_from sys fuel index r) r
unfolding open_from
open_any sys zero index r pos enough = absurd (omega arith)
open_any sys (suc fuel) index r pos enough = elim (Bool-cases (sys.fopen index)) [
  | inl e ↦ elim (Bool-cases (leb r.rollsize r.written_bytes)) [
    | inl full ↦
        let rest =
          open_below sys fuel (index + 1)
            (record r { handle = file sys.date index; written_bytes = 0 }) pos (omega arith) in
        (
          rest.0,
          rw (e, full, open_from) rest.1,
          record { usable = rest.2.usable; rollsize = rest.2.rollsize },
        )
    | inr room ↦ (
      record r { handle = file sys.date index; roll_mday = sys.mday },
      rw (e, room, open_from),
      record { usable = refl; rollsize = refl },
    )
  ]
  | inr e ↦
      (record r { handle = standard }, rw (e, open_from), record { usable = refl; rollsize = refl })
]

by_handle :
    (fuel : ℕ) (sys : System) (r : Roll)
    → directory_ready sys.directory ≡ true
    → Ends (open_from sys fuel 0 r) r
    → (k : Handle) → r.handle ≡ k
    → (r' : Roll) × (roll_handle fuel sys r k ≡ rolled r') × RolledOk r r'
by_handle fuel sys r ready opened null e = (opened.0, rw (ready, opened.1), opened.2)
by_handle fuel sys r ready opened (file date index) e = (opened.0, rw (ready, opened.1), opened.2)
by_handle fuel sys r ready opened standard e =
    (r, refl, record { usable = ap has_handle e; rollsize = refl })

-- With a directory that is there or can be made and a positive size limit, two rounds of fuel are
-- enough: the call ends with a usable handle, a log file or the standard output.
pub rollfile-RolledOk :
    (fuel : ℕ) (sys : System) (r : Roll)
    → directory_ready sys.directory ≡ true
    → 0 < r.rollsize
    → 2 ≤ fuel
    → (r' : Roll) × (rollfile fuel sys r ≡ rolled r') × RolledOk r r'
unfolding rollfile
rollfile-RolledOk fuel sys r ready pos enough =
    by_handle fuel sys r ready (open_any sys fuel 0 r pos enough) r.handle refl

abbrev pub at_index : System → Roll → Roll
at_index sys r =
    if leb r.rollsize r.written_bytes
    then record {
      handle = file sys.date 1;
      rollsize = r.rollsize;
      written_bytes = 0;
      roll_mday = sys.mday;
    }
    else record r { handle = file sys.date 0; roll_mday = sys.mday }

open_index :
    (fuel : ℕ) (sys : System) (r : Roll)
    → ((index : ℕ) → sys.fopen index ≡ true)
    → 0 < r.rollsize
    → open_from sys (suc (suc fuel)) 0 r ≡ some (at_index sys r)
unfolding open_from
open_index fuel sys r opens pos = elim (Bool-cases (leb r.rollsize r.written_bytes)) [
  | inl full ↦
      let room : leb r.rollsize 0 ≡ false = ground arith in
      rw (opens 0, full, opens 1, room, open_from)
  | inr room ↦ rw (opens 0, room, open_from)
]

-- While `fopen` succeeds, a roll ends at the file with index 0, or with index 1 if the limit is
-- reached, and then the count of bytes starts again: no later index is ever used.
pub rollfile_index :
    (fuel : ℕ) (sys : System) (r : Roll)
    → directory_ready sys.directory ≡ true
    → ((index : ℕ) → sys.fopen index ≡ true)
    → r.handle ≢ standard
    → 0 < r.rollsize
    → rollfile (suc (suc fuel)) sys r ≡ rolled (at_index sys r)
unfolding rollfile
rollfile_index fuel sys r ready opens other pos =
    handle_index r.handle other ∙ rw ready (ap to_rolled (open_index fuel sys r opens pos))
  where
    handle_index :
        (k : Handle)
        → k ≢ standard
        → roll_handle (suc (suc fuel)) sys r k ≡ (
            if directory_ready sys.directory
            then to_rolled (open_from sys (suc (suc fuel)) 0 r)
            else exited)
    handle_index null other = refl
    handle_index (file date index) other = refl
    handle_index standard other = absurd (other refl)
