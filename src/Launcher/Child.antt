-- ===== src/Launcher/Child.antt =====
-- src/process_launcher.cpp: the branch of the child in launchProcess, and reportChildStartupError.
use runnerd.Prelude.{
  ℕ, zero, suc, Bool, true, false, List, [], ◌∷◌, ◌++◌, Option, none, some, ◌≡◌, refl, ap, ◌∙◌, ◌≤◌,
  ◌<◌, ◌+◌, ◌/◌, ◌%◌, ◌^◌, arith, codes, if◌then◌else◌, length, take, drop, take-append-drop,
}
use runnerd.Monitor.Settle.{host_word, startup_error_size, startup_stage_name, startup_failure}

pub data ChildStartupStage : Type 0 where
  parent_died : ChildStartupStage
  set_parent_death_signal : ChildStartupStage
  set_process_group : ChildStartupStage
  duplicate_stdin : ChildStartupStage
  duplicate_stdout : ChildStartupStage
  duplicate_stderr : ChildStartupStage
  execve : ChildStartupStage

abbrev stage_number : ChildStartupStage → ℕ
stage_number parent_died = 1
stage_number set_parent_death_signal = 2
stage_number set_process_group = 3
stage_number duplicate_stdin = 4
stage_number duplicate_stdout = 5
stage_number duplicate_stderr = 6
stage_number execve = 7

-- The errnos of prctl, setpgid, dup2 and execve, none if they succeed, and whether getppid gives the
-- parent that called fork.
pub record ChildCalls : Type 0 where
  pub prctl : Option ℕ
  pub has_parent : Bool
  pub setpgid : Option ℕ
  pub dup_stdin : Option ℕ
  pub dup_stdout : Option ℕ
  pub dup_stderr : Option ℕ
  pub exec : Option ℕ

-- duplicateOrReport, and the tests of the same form.
unfoldable succeed_or_report :
    Option ℕ → ChildStartupStage → Option (ChildStartupStage × ℕ) → Option (ChildStartupStage × ℕ)
succeed_or_report none stage next = next
succeed_or_report (some error_number) stage next = some (stage, error_number)

-- The failure that the child reports, none if execve replaces it. ECHILD is 10.
unfoldable run_child : ChildCalls → Option (ChildStartupStage × ℕ)
unfolding succeed_or_report
run_child c = succeed_or_report c.prctl set_parent_death_signal (
    if c.has_parent
    then succeed_or_report c.setpgid set_process_group (
        succeed_or_report c.dup_stdin duplicate_stdin (
          succeed_or_report c.dup_stdout duplicate_stdout (
            succeed_or_report c.dup_stderr duplicate_stderr
              (succeed_or_report c.exec execve none))))
    else some (parent_died, 10))

-- A word in memory, the lowest byte first, as on x86-64.
unfoldable host_bytes : ℕ → List ℕ
host_bytes v = v % 256 ∷ v / 256 % 256 ∷ v / 65536 % 256 ∷ v / 16777216 % 256 ∷ []

-- The ChildStartupError of a failure.
unfoldable startup_error_record : ChildStartupStage × ℕ → List ℕ
unfolding host_bytes
startup_error_record (stage, error_number) =
    host_bytes (stage_number stage) ++ host_bytes error_number

-- One write(): so many bytes, EINTR, or another errno.
pub data ErrorWrite : Type 0 where
  wrote : ℕ → ErrorWrite
  interrupted_write : ErrorWrite
  failed_write : ErrorWrite

-- The bytes of the record that reach the pipe.
unfoldable write_record : List ErrorWrite → List ℕ → List ℕ
write_record outcomes [] = []
write_record [] (b ∷ bs) = []
write_record (wrote zero ∷ outcomes) (b ∷ bs) = []
write_record (wrote (suc n) ∷ outcomes) (b ∷ bs) =
    b ∷ take n bs ++ write_record outcomes (drop n bs)
write_record (interrupted_write ∷ outcomes) (b ∷ bs) = write_record outcomes (b ∷ bs)
write_record (failed_write ∷ outcomes) (b ∷ bs) = []

pub report_child_startup_error : List ErrorWrite → ChildStartupStage × ℕ → List ℕ
unfolding write_record startup_error_record
report_child_startup_error outcomes failure = write_record outcomes (startup_error_record failure)

-- The writes take bytes, or are interrupted.
abbrev pub takes : List ErrorWrite → ℕ
takes [] = 0
takes (wrote zero ∷ outcomes) = 0
takes (wrote (suc n) ∷ outcomes) = suc n + takes outcomes
takes (interrupted_write ∷ outcomes) = takes outcomes
takes (failed_write ∷ outcomes) = 0

short-drop : (n k : ℕ) (bs : List ℕ) → length bs ≤ n + k → length (drop n bs) ≤ k
short-drop zero k bs h = omega arith
short-drop (suc n) k [] h = omega arith
short-drop (suc n) k (b ∷ bs) h = short-drop n k bs (omega arith)

write_record-whole :
    (outcomes : List ErrorWrite) (bs : List ℕ)
    → length bs ≤ takes outcomes
    → write_record outcomes bs ≡ bs
unfolding write_record
write_record-whole outcomes [] h = refl
write_record-whole [] (b ∷ bs) h = ground arith
write_record-whole (wrote zero ∷ outcomes) (b ∷ bs) h = ground arith
write_record-whole (wrote (suc n) ∷ outcomes) (b ∷ bs) h =
    rw (write_record-whole outcomes (drop n bs) (short-drop n (takes outcomes) bs (omega arith)))
      (ap (◌∷◌ b) (take-append-drop n bs))
write_record-whole (interrupted_write ∷ outcomes) (b ∷ bs) h =
    write_record-whole outcomes (b ∷ bs) h
write_record-whole (failed_write ∷ outcomes) (b ∷ bs) h = ground arith

host_word-bytes : (v : ℕ) → v < 2 ^ 32 → host_word (host_bytes v) ≡ v
unfolding host_word host_bytes
host_word-bytes v h = omega arith

abbrev name_of : ChildStartupStage → List ℕ
name_of parent_died = codes "parent-death check"
name_of set_parent_death_signal = codes "PR_SET_PDEATHSIG"
name_of set_process_group = codes "setpgid"
name_of duplicate_stdin = codes "dup2 stdin"
name_of duplicate_stdout = codes "dup2 stdout"
name_of duplicate_stderr = codes "dup2 stderr"
name_of execve = codes "execve"

stage_name-number :
    (stage : ChildStartupStage) → startup_stage_name (stage_number stage) ≡ name_of stage
unfolding startup_stage_name
stage_name-number parent_died = refl
stage_name-number set_parent_death_signal = refl
stage_name-number set_process_group = refl
stage_name-number duplicate_stdin = refl
stage_name-number duplicate_stdout = refl
stage_name-number duplicate_stderr = refl
stage_name-number execve = refl

stage_number-bound : (stage : ChildStartupStage) → stage_number stage < 2 ^ 32
stage_number-bound parent_died = omega arith
stage_number-bound set_parent_death_signal = omega arith
stage_number-bound set_process_group = omega arith
stage_number-bound duplicate_stdin = omega arith
stage_number-bound duplicate_stdout = omega arith
stage_number-bound duplicate_stderr = omega arith
stage_number-bound execve = omega arith

record_length : (failure : ChildStartupStage × ℕ) → length (startup_error_record failure) ≡ 8
unfolding startup_error_record host_bytes
record_length (stage, e) = refl

first_word :
    (stage : ChildStartupStage) (e : ℕ)
    → host_word (take 4 (startup_error_record (stage, e))) ≡ stage_number stage
unfolding startup_error_record host_word host_bytes
first_word stage e = host_word-bytes (stage_number stage) (stage_number-bound stage)

second_word :
    (stage : ChildStartupStage) (e : ℕ)
    → e < 2 ^ 32
    → host_word (drop 4 (startup_error_record (stage, e))) ≡ e
unfolding startup_error_record host_word host_bytes
second_word stage e h = host_word-bytes e h

abbrev message : (ℕ → List ℕ) → List ℕ → ℕ → List ℕ
message strerror name e = codes "child startup failed at " ++ name ++ codes ": " ++ strerror e

startup_failure-message :
    (strerror : ℕ → List ℕ) (bytes : List ℕ)
    → startup_failure strerror bytes
      ≡ message strerror (startup_stage_name (host_word (take 4 bytes))) (host_word (drop 4 bytes))
unfolding startup_failure
startup_failure-message strerror bytes = refl

record_message :
    (strerror : ℕ → List ℕ) (stage : ChildStartupStage) (e : ℕ)
    → e < 2 ^ 32
    → startup_failure strerror (startup_error_record (stage, e))
      ≡ message strerror (name_of stage) e
record_message strerror stage e h =
    let r = startup_error_record (stage, e) in
    startup_failure-message strerror r
    ∙ ap (λ n. message strerror (startup_stage_name n) (host_word (drop 4 r))) (first_word stage e)
    ∙ ap (λ n. message strerror n (host_word (drop 4 r))) (stage_name-number stage)
    ∙ ap (message strerror (name_of stage)) (second_word stage e h)

-- However the writes of the child's record to the startup error pipe are cut and interrupted, if
-- they can take its eight bytes, then the monitor reads a whole record from them, and the failure
-- message it makes names the stage and the 32-bit error number that the child reported.
pub startup_failure-report :
    (strerror : ℕ → List ℕ) (outcomes : List ErrorWrite) (stage : ChildStartupStage) (e : ℕ)
    → e < 2 ^ 32
    → 8 ≤ takes outcomes
    → let bytes = report_child_startup_error outcomes (stage, e) in
      (length bytes ≡ startup_error_size)
      × (startup_failure strerror bytes
          ≡ codes "child startup failed at " ++ name_of stage ++ codes ": " ++ strerror e)
unfolding report_child_startup_error
startup_failure-report strerror outcomes stage e h room =
    let r = startup_error_record (stage, e) in
    rw (write_record-whole outcomes r (omega (arith, record_length (stage, e), room)))
      (record_length (stage, e), record_message strerror stage e h)

succeed_or_report-none :
    (o : Option ℕ) (stage : ChildStartupStage) (next : Option (ChildStartupStage × ℕ))
    → succeed_or_report o stage next ≡ none
    → (o ≡ none) × (next ≡ none)
unfolding succeed_or_report
succeed_or_report-none none stage next h = (refl, h)
succeed_or_report-none (some e) stage next h = cc

guard-none :
    (b : Bool) (next : Option (ChildStartupStage × ℕ)) (failure : ChildStartupStage × ℕ)
    → (if b then next else some failure) ≡ none
    → (b ≡ true) × (next ≡ none)
guard-none true next failure h = (refl, h)
guard-none false next failure h = cc

-- All calls of a child succeed.
record IsStarted (c : ChildCalls) : Type 0 where
  death_signal : c.prctl ≡ none
  parent : c.has_parent ≡ true
  group : c.setpgid ≡ none
  streams : (c.dup_stdin ≡ none) × (c.dup_stdout ≡ none) × (c.dup_stderr ≡ none)
  executed : c.exec ≡ none

-- A child that reports nothing was started, each of its calls included.
run_child-IsStarted : (c : ChildCalls) → run_child c ≡ none → IsStarted c
unfolding run_child
run_child-IsStarted c h =
    let (death_signal, h) = succeed_or_report-none _ _ _ h in
    let (parent, h) = guard-none _ _ _ h in
    let (group, h) = succeed_or_report-none _ _ _ h in
    let (in_, h) = succeed_or_report-none _ _ _ h in
    let (out, h) = succeed_or_report-none _ _ _ h in
    let (err, h) = succeed_or_report-none _ _ _ h in
    let (executed, _) = succeed_or_report-none _ _ _ h in
    record {
      death_signal = death_signal;
      parent = parent;
      group = group;
      streams = (in_, out, err);
      executed = executed;
    }
