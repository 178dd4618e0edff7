-- ===== src/Process.antt =====
-- Kernel/proc/process.c, the list of processes and the choice of the next thread. A process is
-- modelled by what these functions read; its creation and destruction are not.
pub mod Schedule
mod Tests
use vibecoded_os.Prelude.{
  ℕ, Bool, true, false, not, Option, none, some, List, [], ◌∷◌, ◌&&◌, ltb, ◌==◌, if◌then◌else◌,
}

pub data ProcessState : Type 0 where
  running ready blocked terminated zombie : ProcessState

abbrev pub is_ready : ProcessState → Bool
is_ready ready = true
is_ready s = false

abbrev pub is_terminated : ProcessState → Bool
is_terminated terminated = true
is_terminated s = false

-- A thread is named by its `tid`, which no two share.
pub record Thread : Type 0 where
  pub tid : ℕ
  pub state : ProcessState
  pub has_saved_frame : Bool

-- `main` is `threads[0]`.
pub record Process : Type 0 where
  pub pid : ℕ
  pub state : ProcessState
  pub main : Option Thread
  pub thread_count : ℕ

-- `PsFindProcess`
unfoldable pub find_process : ℕ → List Process → Option Process
find_process pid [] = none
find_process pid (p ∷ ps) = let rest = find_process pid ps in if p.pid == pid then some p else rest

-- `t != current`, where NULL is `none`.
abbrev pub is_other : Option ℕ → ℕ → Bool
is_other none tid = true
is_other (some c) tid = not (tid == c)

-- The thread of a process that may run next, if there is one.
abbrev pub candidate : Option ℕ → Process → Option Thread
candidate current p = elim p.main [
  | none ↦ none
  | some t ↦
      if (not (is_terminated p.state) && ltb 0 p.thread_count)
        && (is_ready t.state && (is_other current t.tid && t.has_saved_frame))
      then some t
      else none
]

-- `PsScheduleNext`
unfoldable pub schedule_next : Option ℕ → List Process → Option Thread
schedule_next current [] = none
schedule_next current (p ∷ ps) =
    let rest = schedule_next current ps in
    elim (candidate current p) [ some t ↦ some t | none ↦ rest ]
