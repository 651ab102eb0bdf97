-- ===== src/Daemon/Responses/Bounds.antt =====
-- Every response to STATUS and LIST fits in a frame.
use runnerd.Prelude.{
  ℕ, ◌-◌, ◌≡◌, refl, ◌==◌, List, [], ◌∷◌, ◌++◌, some, codes, ltb, leb, length, map, ok, arith, All,
  length-append, Bool-cases, inl, inr, ==_refl,
}
use runnerd.Prelude.Assoc.{lookup}
use runnerd.Job.{Job}
use runnerd.Protocol.{max_frame_size}
use runnerd.Protocol.Frames.{encode_frame}
use runnerd.Protocol.Frames.Whole.{frame, IsPayload, encode_frame-frame}
use runnerd.Daemon.Responses.{
  make_status_response, insert_sorted, sort, list_line, list_lines, make_list_response,
}

status-IsPayload : (job : Job) → IsPayload (make_status_response job)
unfolding make_status_response codes
status-IsPayload job = ground arith

-- Whatever a job is like, the response to STATUS can be sent: it fits in a frame.
pub make_status_response-encode_frame :
    (job : Job) → encode_frame (make_status_response job) ≡ ok (frame (make_status_response job))
make_status_response-encode_frame job =
    encode_frame-frame (make_status_response job) (status-IsPayload job)

abbrev Known : List (ℕ × Job) → ℕ → Type 0
Known jobs id = (job : Job) × (lookup id jobs ≡ some job)

Known-here : (id : ℕ) (job : Job) (jobs : List (ℕ × Job)) → Known ((id, job) ∷ jobs) id
unfolding lookup
Known-here id job jobs = (job, rw (==_refl id))

Known-there : (id : ℕ) (e : ℕ × Job) (jobs : List (ℕ × Job)) → Known jobs id → Known (e ∷ jobs) id
unfolding lookup
Known-there id (k, other) jobs (job, e) = elim (Bool-cases (k == id)) [
  | inl h ↦ (other, rw h)
  | inr h ↦ (job, rw h e)
]

All-Known-there :
    (e : ℕ × Job) (jobs : List (ℕ × Job)) (ids : List ℕ)
    → All (Known jobs) ids
    → All (Known (e ∷ jobs)) ids
All-Known-there e jobs [] k = tt
All-Known-there e jobs (id ∷ ids) k = (Known-there id e jobs k.0, All-Known-there e jobs ids k.1)

keys-Known : (jobs : List (ℕ × Job)) → All (Known jobs) (map (λ entry. entry.0) jobs)
keys-Known [] = tt
keys-Known ((id, job) ∷ jobs) =
    (Known-here id job jobs, All-Known-there (id, job) jobs _ (keys-Known jobs))

All-insert_sorted :
    (P : ℕ → Type 0) (n : ℕ) (ids : List ℕ) → P n → All P ids → All P (insert_sorted n ids)
unfolding insert_sorted
All-insert_sorted P n [] p h = (p, tt)
All-insert_sorted P n (x ∷ ids) p h = elim (Bool-cases (leb n x)) [
  | inl e ↦ rw (insert_sorted, e) (p, h)
  | inr e ↦ rw (insert_sorted, e) (h.0, All-insert_sorted P n ids p h.1)
]

All-sort : (P : ℕ → Type 0) (ids : List ℕ) → All P ids → All P (sort ids)
unfolding sort
All-sort P [] h = tt
All-sort P (x ∷ ids) h = All-insert_sorted P x (sort ids) h.0 (All-sort P ids h.1)

list_lines-IsPayload :
    (jobs : List (ℕ × Job)) (ids response : List ℕ)
    → All (Known jobs) ids
    → IsPayload response
    → (r : List ℕ) × (list_lines jobs ids response ≡ ok r) × IsPayload r
unfolding list_lines
list_lines-IsPayload jobs [] response k h = (response, refl, h)
list_lines-IsPayload jobs (id ∷ ids) response k h =
    let (job, e) = k.0 in
    elim (Bool-cases (ltb (max_frame_size - length response) (length (list_line job)))) [
      | inl full ↦
          (codes "ERR too many jobs to list", rw (list_lines, e, full), unfold codes in omega arith)
      | inr room ↦
          let (r, whole, fits) =
            list_lines-IsPayload jobs ids (response ++ list_line job) k.1
              (ground (arith, length-append response (list_line job))) in
          (r, rw (list_lines, e, room) whole, fits)
    ]

-- Whatever jobs there are, LIST is answered, without an exception, and the response can be sent.
pub make_list_response-encode_frame :
    (jobs : List (ℕ × Job))
    → (r : List ℕ) × (make_list_response jobs ≡ ok r) × (encode_frame r ≡ ok (frame r))
unfolding make_list_response codes
make_list_response-encode_frame jobs =
    let (r, e, h) =
      list_lines-IsPayload jobs (sort (map (λ entry. entry.0) jobs)) (codes "OK")
        (All-sort (Known jobs) _ (keys-Known jobs)) (omega arith) in
    (r, e, encode_frame-frame r h)
