-- ===== src/Protocol/Words.antt =====
-- The big-endian words: what is written is read back, and only that.

use runnerd.Prelude.{
  ℕ, ◌^◌, ◌<◌, ◌≡◌, refl, true, List, [], ◌∷◌, ◌++◌, arith, length, take, drop, All, length-append,
  take_append, take-append-drop,
}
use runnerd.Protocol.{IsByte, same, starts_with, uint32_bytes, uint32_value}

pub same_refl : (s : List ℕ) → same s s ≡ true
unfolding same
same_refl [] = refl
same_refl (a ∷ s) = ground (arith, same_refl s)

pub same→eq : (s t : List ℕ) → same s t ≡ true → s ≡ t
unfolding same
same→eq [] [] h = refl
same→eq (a ∷ s) (b ∷ t) h = ground (arith, same→eq s t)
same→eq [] (b ∷ t) h = cc
same→eq (a ∷ s) [] h = cc

pub starts_with_append : (s rest : List ℕ) → starts_with s (s ++ rest) ≡ true
unfolding starts_with
starts_with_append s rest = ground (arith, length-append s rest, take_append s rest, same_refl s)

pub starts_with→append : (s p : List ℕ) → starts_with s p ≡ true → p ≡ s ++ drop (length s) p
unfolding starts_with
starts_with→append s p h =
    ground (arith, same→eq (take (length s) p) s, take-append-drop (length s) p)

pub uint32_value-bytes :
    (v : ℕ) (rest : List ℕ) → v < 2 ^ 32 → uint32_value (uint32_bytes v ++ rest) ≡ v
unfolding uint32_value uint32_bytes
uint32_value-bytes v rest h = omega arith

pub uint32_bytes-value :
    (a b c d : ℕ)
    → IsByte a
    → IsByte b
    → IsByte c
    → IsByte d
    → uint32_bytes (uint32_value (a ∷ b ∷ c ∷ d ∷ [])) ≡ a ∷ b ∷ c ∷ d ∷ []
unfolding uint32_value uint32_bytes
uint32_bytes-value a b c d ha hb hc hd = ground arith

pub uint32_bytes-IsByte : (v : ℕ) → All IsByte (uint32_bytes v)
unfolding uint32_bytes
uint32_bytes-IsByte v = omega arith
