-- ===== src/Clients/RoundRobin.antt =====
-- The order in which the http clients ask their servers: each after the one before it, and the first
-- after the last.
use sim_search.Prelude.{
  ℕ, suc, ◌+◌, ◌-◌, ◌%◌, ◌<◌, ◌≡◌, ◌≢◌, ◌⊎◌, ap, ◌∙◌, if◌then◌else◌, ltb, ltb→lt, Bool-cases, inl,
  inr, arith,
}
use native.Mathlib.Nat.{mod-eq_of_lt, mod_self}

-- The steps from position `p` to position `i` of `n`, at least one.
abbrev pub steps_to : ℕ → ℕ → ℕ → ℕ
steps_to n p i = if ltb p i then i - p else n + i - p

pub next-lt : (n p : ℕ) → p < n → (p + 1) % n < n
next-lt n p h = omega arith

pub steps_to-ne : (n p i : ℕ) → p < n → i < n → p ≢ i → steps_to n p i < n
steps_to-ne n p i h k ne = ground arith

next-cases :
    (n p : ℕ) → p < n → ((p + 1 < n) × ((p + 1) % n ≡ p + 1)) ⊎ ((p + 1 ≡ n) × ((p + 1) % n ≡ 0))
next-cases n p h = elim (Bool-cases (ltb (p + 1) n)) [
  | inl b ↦ inl (ltb→lt (p + 1) n b, mod-eq_of_lt (ltb→lt (p + 1) n b))
  | inr b ↦ let last : p + 1 ≡ n = ground arith in inr (last, ap (λ k. k % n) last ∙ mod_self n)
]

steps_to-from :
    (n p q i : ℕ)
    → p < n
    → i < n
    → ((p + 1 < n) × (q ≡ p + 1)) ⊎ ((p + 1 ≡ n) × (q ≡ 0))
    → q ≢ i
    → suc (steps_to n q i) ≡ steps_to n p i
steps_to-from n p q i h k (inl (lt, e)) ne = ground arith
steps_to-from n p q i h k (inr (last, e)) ne = ground arith

-- A step brings every other position nearer.
pub steps_to-next :
    (n p i : ℕ)
    → p < n
    → i < n
    → (p + 1) % n ≢ i
    → suc (steps_to n ((p + 1) % n) i) ≡ steps_to n p i
steps_to-next n p i h k ne = steps_to-from n p ((p + 1) % n) i h k (next-cases n p h) ne
