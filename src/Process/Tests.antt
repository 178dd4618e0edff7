-- ===== src/Process/Tests.antt =====
-- Runs of Kernel/proc/process.c.
use vibecoded_os.Prelude.{◌≡◌, refl, true, none, some, List, [], ◌∷◌, ◌++◌, ◌⊎◌}
use vibecoded_os.Process.{Process, Thread, ready, running, terminated, schedule_next}
use vibecoded_os.Process.Schedule.{IsRunnable, NoneRunnable, schedule_next_lem}

abbrev three : List Process
three =
    record {
      pid = 3;
      state = terminated;
      main = some (record { tid = 6; state = ready; has_saved_frame = true });
      thread_count = 1;
    }
    ∷ record {
      pid = 2;
      state = running;
      main = some (record { tid = 5; state = ready; has_saved_frame = true });
      thread_count = 1;
    }
    ∷ record { pid = 1; state = ready; main = none; thread_count = 0 }
    ∷ []

second_chosen :
    schedule_next (some 4) three ≡ some (record { tid = 5; state = ready; has_saved_frame = true })
unfolding schedule_next
second_chosen = refl

schedule_next_lem_example :
    ((schedule_next (some 4) three ≡ none) × NoneRunnable (some 4) three)
    ⊎ ((before : List Process) × (p : Process) × (after : List Process) × (t : Thread) × (three
          ≡ before ++ (p ∷ after))
        × NoneRunnable (some 4) before
        × IsRunnable (some 4) p t
        × (schedule_next (some 4) three ≡ some t))
schedule_next_lem_example = schedule_next_lem (some 4) three
