-- ===== src/Client/Connection/Writing.antt =====
-- write_all sends its data from the front.
use mathlib.Core.List.{append_assoc}
use runnerd.Prelude.{
  ℕ, zero, suc, ◌+◌, ◌≤◌, ◌≡◌, refl, sym, ap, ◌∙◌, ◌↔◌, true, List, [], ◌∷◌, ◌++◌, some, arith,
  length, take, drop, All, take-append-drop, length-drop,
}
use runnerd.Client.Connection.{Write, written, interrupted, failed, write_all}

-- Whatever the writes do, the bytes sent are a beginning of the data, and write_all returns true
-- exactly when they are all of it.
pub write_all-append :
    (outcomes : List Write) (data' : List ℕ)
    → (rest : List ℕ) × (data' ≡ (write_all outcomes data').0 ++ rest)
      × (((write_all outcomes data').1 ≡ some true) ↔ (rest ≡ []))
unfolding write_all
write_all-append outcomes [] = ([], refl, (λ _. refl, λ _. refl))
write_all-append [] (b ∷ bs) = (b ∷ bs, refl, (λ h. absurd (cc h), λ h. absurd (cc h)))
write_all-append (written zero ∷ outcomes) (b ∷ bs) =
    (b ∷ bs, refl, (λ h. absurd (cc h), λ h. absurd (cc h)))
write_all-append (written (suc n) ∷ outcomes) (b ∷ bs) =
    let (rest, e, all) = write_all-append outcomes (drop n bs) in
    (
      rest,
      ap (λ (s : List ℕ). b ∷ s)
          (sym (take-append-drop n bs)
            ∙ ap (λ (s : List ℕ). take n bs ++ s) e
            ∙ sym (append_assoc (take n bs) (write_all outcomes (drop n bs)).0 rest)),
      all,
    )
write_all-append (interrupted ∷ outcomes) (b ∷ bs) = write_all-append outcomes (b ∷ bs)
write_all-append (failed ∷ outcomes) (b ∷ bs) =
    (b ∷ bs, refl, (λ h. absurd (cc h), λ h. absurd (cc h)))

-- The writes that move something.
abbrev progress : List Write → ℕ
progress [] = 0
progress (written zero ∷ outcomes) = progress outcomes
progress (written (suc n) ∷ outcomes) = progress outcomes + 1
progress (interrupted ∷ outcomes) = progress outcomes
progress (failed ∷ outcomes) = progress outcomes

abbrev IsWorking : Write → Type 0
IsWorking (written zero) = ⊥
IsWorking (written (suc n)) = Unit {0}
IsWorking interrupted = Unit {0}
IsWorking failed = ⊥

-- If no write fails or returns zero, and there are as many writes of a byte or more as bytes,
-- everything is sent.
pub write_all-completes :
    (outcomes : List Write) (data' : List ℕ)
    → All IsWorking outcomes
    → length data' ≤ progress outcomes
    → write_all outcomes data' ≡ (data', some true)
unfolding write_all
write_all-completes outcomes [] w h = refl
write_all-completes [] (b ∷ bs) w h = absurd (omega arith)
write_all-completes (written zero ∷ outcomes) (b ∷ bs) w h = absurd w.0
write_all-completes (written (suc n) ∷ outcomes) (b ∷ bs) w h =
    let rest = write_all-completes outcomes (drop n bs) w.1 (omega (arith, length-drop n bs)) in
    rw (rest, take-append-drop n bs)
write_all-completes (interrupted ∷ outcomes) (b ∷ bs) w h =
    write_all-completes outcomes (b ∷ bs) w.1 h
write_all-completes (failed ∷ outcomes) (b ∷ bs) w h = absurd w.0
