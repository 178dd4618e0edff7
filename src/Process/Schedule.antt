-- ===== src/Process/Schedule.antt =====
-- Which thread PsScheduleNext of Kernel/proc/process.c chooses.
use vibecoded_os.Prelude.{
  ℕ, ◌≡◌, refl, Option, none, some, List, [], ◌∷◌, ◌++◌, sym, ◌⊎◌, inl, inr, Option-cases,
  Bool-cases, ap, ◌≤◌, ◌≢◌, true, false, arith, ltb, ◌&&◌, not,
}
use vibecoded_os.Process.{
  ProcessState, running, blocked, zombie, Process, Thread, terminated, ready, is_terminated,
  is_ready, is_other, candidate, schedule_next,
}

-- The thread `t` of the process may run: it is its main thread, it is ready, it has a saved frame and
-- is not the one that runs now, and the process has threads and is not terminated.
pub record IsRunnable (current : Option ℕ) (p : Process) (t : Thread) : Type 0 where
  pub main : p.main ≡ some t
  pub alive : p.state ≢ terminated
  pub threads : 1 ≤ p.thread_count
  pub waiting : t.state ≡ ready
  pub other : current ≢ some t.tid
  pub frame : t.has_saved_frame ≡ true

-- No process of the list has a thread that may run.
abbrev pub NoneRunnable : Option ℕ → List Process → Type 0
NoneRunnable current [] = Unit {0}
NoneRunnable current (p ∷ ps) = ((t : Thread) → ¬ IsRunnable current p t) × NoneRunnable current ps

is_terminated_ne : (s : ProcessState) → is_terminated s ≡ false → s ≢ terminated
is_terminated_ne running e = λ q. cc
is_terminated_ne ready e = λ q. cc
is_terminated_ne blocked e = λ q. cc
is_terminated_ne terminated e = absurd (let z : ⊥ = cc in z)
is_terminated_ne zombie e = λ q. cc

is_ready_eq : (s : ProcessState) → is_ready s ≡ true → s ≡ ready
is_ready_eq running e = absurd (let z : ⊥ = cc in z)
is_ready_eq ready e = refl
is_ready_eq blocked e = absurd (let z : ⊥ = cc in z)
is_ready_eq terminated e = absurd (let z : ⊥ = cc in z)
is_ready_eq zombie e = absurd (let z : ⊥ = cc in z)

is_other_ne : (current : Option ℕ) (tid : ℕ) → is_other current tid ≡ true → current ≢ some tid
is_other_ne none tid e = λ q. cc
is_other_ne (some c) tid e = λ q. let r : c ≡ tid = cc in let z : ⊥ = ground (arith, e, r) in z

is_terminated_no : (s : ProcessState) → s ≢ terminated → is_terminated s ≡ false
is_terminated_no running n = refl
is_terminated_no ready n = refl
is_terminated_no blocked n = refl
is_terminated_no terminated n = absurd (n refl)
is_terminated_no zombie n = refl

is_other_yes : (current : Option ℕ) (tid : ℕ) → current ≢ some tid → is_other current tid ≡ true
is_other_yes none tid n = refl
is_other_yes (some c) tid n = let m : c ≢ tid = λ e. n (ap (λ k. some k) e) in ground (arith, m)

-- PsScheduleNext looks at all the conditions.
module _ (current : Option ℕ) (p : Process) where
  candidate-IsRunnable : (t : Thread) → candidate current p ≡ some t → IsRunnable current p t
  candidate-IsRunnable t e = elim (Option-cases p.main) [
    | inl n ↦ absurd (let q : candidate current p ≡ none = rw n refl in let z : ⊥ = cc in z)
    | inr (m, n) ↦
        elim (Bool-cases (
          (not (is_terminated p.state) && ltb 0 p.thread_count)
          && (is_ready m.state && (is_other current m.tid && m.has_saved_frame)))) [
            | inr f ↦
                absurd (let q : candidate current p ≡ none = rw (n, f) refl in let z : ⊥ = cc in z)
            | inl f ↦
                let q : candidate current p ≡ some m = rw (n, f) refl in
                let same : m ≡ t = cc in
                rw (sym same) (record {
                  main = n;
                  alive = is_terminated_ne p.state (ground (arith, f));
                  threads = ground (arith, f);
                  waiting = is_ready_eq m.state (ground (arith, f));
                  other = is_other_ne current m.tid (ground (arith, f));
                  frame = ground (arith, f);
                })
          ]
  ]

  candidate_complete : (t : Thread) → IsRunnable current p t → candidate current p ≡ some t
  candidate_complete t r =
      let n = r.main in
      let a : is_terminated p.state ≡ false = is_terminated_no p.state r.alive in
      let b : ltb 0 p.thread_count ≡ true = let l = r.threads in ground (arith, l) in
      let c : is_ready t.state ≡ true = rw r.waiting refl in
      let f = r.frame in
      let o : is_other current t.tid ≡ true = is_other_yes current t.tid r.other in
      rw (n, a, b, c, o, f) refl

  candidate-none : candidate current p ≡ none → (t : Thread) → ¬ IsRunnable current p t
  candidate-none e t r = let q = candidate_complete t r in let z : ⊥ = cc in z

-- PsScheduleNext takes the thread of the first process of the list that has one that may run, whatever
-- ran before, so that a process is passed over as long as one before it can run; it finds none only
-- if there is none.
pub schedule_next_lem :
    (current : Option ℕ) (ps : List Process)
    → ((schedule_next current ps ≡ none) × NoneRunnable current ps)
      ⊎ ((before : List Process) × (p : Process) × (after : List Process) × (t : Thread) × (ps
            ≡ before ++ (p ∷ after))
          × NoneRunnable current before
          × IsRunnable current p t
          × (schedule_next current ps ≡ some t))
unfolding schedule_next
schedule_next_lem current [] = inl (refl, tt)
schedule_next_lem current (p ∷ ps) = elim (Option-cases (candidate current p)) [
  | inr (t, e) ↦
      inr ([], p, ps, t, refl, tt, candidate-IsRunnable current p t e, rw (e, schedule_next) refl)
  | inl e ↦ elim (schedule_next_lem current ps) [
    | inl (n, r) ↦ inl (rw (e, schedule_next) n, (candidate-none current p e, r))
    | inr (b, q, a, t, s, r, c, n) ↦ inr (
      p ∷ b,
      q,
      a,
      t,
      ap (λ z. p ∷ z) s,
      (candidate-none current p e, r),
      c,
      rw (e, schedule_next) n,
    )
  ]
]
