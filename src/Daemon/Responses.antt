-- ===== src/Daemon/Responses.antt =====
-- src/runnerd_main.cpp: the texts that the daemon answers STATUS and LIST with. The job table is an
-- association list from ids to jobs.
pub mod Bounds
use runnerd.Prelude.{
  ℕ, suc, ◌-◌, ◌≤◌, Bool, true, false, List, [], ◌∷◌, ◌++◌, Option, none, some, codes, ltb, leb,
  if◌then◌else◌, length, is_empty, map, Result, ok, raise, out_of_range, bind,
}
use runnerd.Prelude.Int.{ℤ, pos, negsuc}
use runnerd.Prelude.Assoc.{lookup}
use runnerd.Job.{Job, job_state_name, is_terminal}
use runnerd.Protocol.{max_frame_size}
use runnerd.Numbers.{to_string}

-- std::to_string of a signed number.
unfoldable pub signed_to_string : ℤ → List ℕ
unfolding to_string
signed_to_string (pos n) = to_string n
signed_to_string (negsuc n) = codes "-" ++ to_string (suc n)

-- A field that is written only if it has a value.
unfoldable pub optional_field : List ℕ → Option ℕ → List ℕ
unfolding to_string
optional_field label none = []
optional_field label (some n) = label ++ to_string n

unfoldable pub timeout_field : Option ℤ → List ℕ
unfolding signed_to_string
timeout_field none = []
timeout_field (some timeout) = codes " timeout_ms=" ++ signed_to_string timeout

unfoldable pub format_job_status : Job → List ℕ
unfolding optional_field timeout_field
format_job_status job =
    codes "id="
    ++ to_string job.id
    ++ codes " state="
    ++ job_state_name job.state
    ++ timeout_field job.spec.execution_timeout
    ++ optional_field (codes " pid=") job.pid
    ++ optional_field (codes " exit_code=") job.exit_code
    ++ optional_field (codes " exit_signal=") job.exit_signal
    ++ (if is_terminal job.state
        then codes " stdout_bytes="
          ++ to_string (length job.standard_output)
          ++ codes " stderr_bytes="
          ++ to_string (length job.standard_error)
        else [])
    ++ (if is_empty job.failure_message then [] else codes " error=" ++ job.failure_message)

unfoldable pub make_status_response : Job → List ℕ
make_status_response job =
    let response = codes "OK " ++ format_job_status job in
    if ltb max_frame_size (length response)
    then codes "ERR status response exceeds maximum frame size"
    else response

-- std::sort on ids
unfoldable pub insert_sorted : ℕ → List ℕ → List ℕ
insert_sorted n [] = n ∷ []
insert_sorted n (x ∷ xs) = if leb n x then n ∷ x ∷ xs else x ∷ insert_sorted n xs

unfoldable pub sort : List ℕ → List ℕ
unfolding insert_sorted
sort [] = []
sort (x ∷ xs) = insert_sorted x (sort xs)

unfoldable pub list_line : Job → List ℕ
list_line job = codes "\nid=" ++ to_string job.id ++ codes " state=" ++ job_state_name job.state

-- The loop over the sorted ids; jobs.at throws for an id that is not there
-- (the library's text is left out).
unfoldable pub list_lines : List (ℕ × Job) → List ℕ → List ℕ → Result (List ℕ)
unfolding list_line
list_lines jobs [] response = ok response
list_lines jobs (job_id ∷ ids) response = elim (lookup job_id jobs) [
  | none ↦ raise (out_of_range [])
  | some job ↦
      if ltb (max_frame_size - length response) (length (list_line job))
      then ok (codes "ERR too many jobs to list")
      else list_lines jobs ids (response ++ list_line job)
]

unfoldable pub make_list_response : List (ℕ × Job) → Result (List ℕ)
unfolding list_lines sort
make_list_response jobs = list_lines jobs (sort (map (λ entry. entry.0) jobs)) (codes "OK")
