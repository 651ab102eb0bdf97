-- ===== src/Daemon/Connections/Pending.antt =====
-- The bytes that wait in a connection are sent in order, and none is lost or sent twice.
use mathlib.Core.List.{append_assoc}
use runnerd.Prelude.{
  ℕ, zero, suc, ◌+◌, ◌≡◌, refl, sym, ap, ◌∙◌, ◌⊎◌, inl, inr, true, false, List, [], ◌∷◌, ◌++◌, ◌==◌,
  take, drop, take-append-drop, drop_of_length-le, Bool-cases, arith,
}
use runnerd.Daemon.Connections.{
  Connection, has_pending_write, Sending, sent, interrupted, failed, Sent, handle_client_write,
}

-- The bytes that are still to be sent.
abbrev pub pending : Connection → List ℕ
pending c = drop c.write_offset c.write_buffer

drop-add : (a n : ℕ) (bytes : List ℕ) → drop (a + n) bytes ≡ drop n (drop a bytes)
drop-add zero n bytes = ap (λ (k : ℕ). drop k bytes) (omega arith)
drop-add (suc a) n [] =
    drop_of_length-le (suc a + n) [] (omega arith) ∙ sym (drop_of_length-le n [] (omega arith))
drop-add (suc a) n (b ∷ bytes) =
    let e : suc a + n ≡ suc (a + n) = omega arith in
    ap (λ (k : ℕ). drop k (b ∷ bytes)) e ∙ drop-add a n bytes

nothing_pending : (c : Connection) → has_pending_write c ≡ false → pending c ≡ []
unfolding has_pending_write
nothing_pending c h = drop_of_length-le c.write_offset c.write_buffer (ground arith)

-- What a call has to leave: the bytes sent and those that still wait are those that waited, and a
-- connection that is kept either waits for the socket or has an empty buffer.
abbrev Advances : Connection → Sent → Type 0
Advances c s =
    (pending c ≡ s.bytes ++ pending s.connection)
    × (s.keep ≡ true
        → (has_pending_write s.connection ≡ true)
          ⊎ ((s.connection.write_buffer ≡ []) × (s.connection.write_offset ≡ 0)))

all_sent :
    (c : Connection)
    → has_pending_write c ≡ false
    → Advances c (record {
      bytes = [];
      keep = true;
      connection = record c { write_buffer = []; write_offset = 0 };
    })
all_sent c e = (nothing_pending c e, λ _. inr (refl, refl))

advances : (outcomes : List Sending) (c : Connection) → Advances c (handle_client_write outcomes c)
unfolding handle_client_write
advances [] c = elim (Bool-cases (has_pending_write c)) [
  | inl waits ↦ rw (handle_client_write, waits) (refl, λ _. inl waits)
  | inr done ↦ rw (handle_client_write, done) (all_sent c done)
]
advances (interrupted ∷ outcomes) c = elim (Bool-cases (has_pending_write c)) [
  | inl waits ↦ rw (handle_client_write, waits) (advances outcomes c)
  | inr done ↦ rw (handle_client_write, done) (all_sent c done)
]
advances (failed ∷ outcomes) c = elim (Bool-cases (has_pending_write c)) [
  | inl waits ↦ rw (handle_client_write, waits) (refl, λ h. absurd (cc h))
  | inr done ↦ rw (handle_client_write, done) (all_sent c done)
]
advances (sent n ∷ outcomes) c = elim (Bool-cases (has_pending_write c)) [
  | inl waits ↦ elim (Bool-cases (n == 0)) [
    | inl none_sent ↦ rw (handle_client_write, waits, none_sent) (refl, λ h. absurd (cc h))
    | inr some_sent ↦
        let next : Connection = record c { write_offset = c.write_offset + n } in
        let (left, kept) = advances outcomes next in
        rw (handle_client_write, waits, some_sent)
          (
            sym (take-append-drop n (pending c))
                ∙ ap (λ (s : List ℕ). take n (pending c) ++ s)
                    (sym (drop-add c.write_offset n c.write_buffer) ∙ left)
                ∙ sym (
                    append_assoc (take n (pending c)) (handle_client_write outcomes next).bytes
                      (pending (handle_client_write outcomes next).connection)),
            kept,
          )
  ]
  | inr done ↦ rw (handle_client_write, done) (all_sent c done)
]

-- Whatever the writes do, the bytes sent and those that still wait are, in this order, the bytes
-- that waited; and a connection that is kept either still has bytes to send or an empty buffer.
pub handle_client_write-pending :
    (outcomes : List Sending) (c : Connection)
    → (pending c
        ≡ (handle_client_write outcomes c).bytes
          ++ pending (handle_client_write outcomes c).connection)
      × ((handle_client_write outcomes c).keep ≡ true
          → (has_pending_write (handle_client_write outcomes c).connection ≡ true)
            ⊎ (((handle_client_write outcomes c).connection.write_buffer ≡ [])
                × ((handle_client_write outcomes c).connection.write_offset ≡ 0)))
handle_client_write-pending outcomes c = advances outcomes c
