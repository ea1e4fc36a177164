-- ===== src/Waiting/Poll.antt =====
-- The loop that both tools have: ask, stop if that settles it, give up if the deadline is past, sleep.
use k8s_mcp.Base.{
  ℕ, ◌≡◌, refl, ◌+◌, ◌*◌, ◌≤◌, ◌<◌, zero, suc, Option, none, some, ltb, ◌==◌, ==_iff, if◌then◌else◌,
  arith, Bool-cases, inl, inr, ltb→lt, ◌⊎◌, ◌∙◌,
}

-- What one round finds: the end of the loop, or the answer to give if time is up.
pub data Round (R : Type 0) : Type 0 where
  finish : R → Round R
  again : R → Round R

module _ {R : Type 0} (ask : ℕ → Round R) (clock : ℕ → ℕ) (deadline : ℕ) where
  -- The rounds from the given one on, on fuel: the number of the last round, and the answer.
  unfoldable pub poll : ℕ → ℕ → Option (ℕ × R)
  poll zero i = none
  poll (suc fuel) i = elim (ask i) [
    | finish r ↦ some (i, r)
    | again r ↦ let rest = poll fuel (i + 1) in if ltb deadline (clock i) then some (i, r) else rest
  ]

  -- A round that neither settles it nor is past the deadline.
  abbrev pub Pending : ℕ → Type 0
  Pending i = (r : R) × (ask i ≡ again r) × (clock i ≤ deadline)

  -- The answer of the first round that settles it or is past the deadline.
  pub data Answered (from : ℕ) (last : ℕ) (r : R) : Type 0 where
    settled :
        ask last ≡ finish r → ((j : ℕ) → from ≤ j → j < last → Pending j) → Answered from last r
    late :
        ask last ≡ again r
        → deadline < clock last
        → ((j : ℕ) → from ≤ j → j < last → Pending j)
        → Answered from last r

  pending_from :
      (i last : ℕ)
      → Pending i
      → ((j : ℕ) → i + 1 ≤ j → j < last → Pending j)
      → (j : ℕ) → i ≤ j
      → j < last
      → Pending j
  pending_from i last now before j low high = elim (Bool-cases (i == j)) [
    | inl e ↦ rw (← (==_iff i j).0 e) now
    | inr e ↦ before j (ground (arith, e)) high
  ]

  Answered-earlier : (i last : ℕ) (r : R) → Pending i → Answered (i + 1) last r → Answered i last r
  Answered-earlier i last r now (settled e before) = settled e (pending_from i last now before)
  Answered-earlier i last r now (late e t before) = late e t (pending_from i last now before)

  -- One round, which ends the loop or is pending.
  round :
      (fuel i : ℕ)
      → ((r : R) × (poll (suc fuel) i ≡ some (i, r)) × Answered i i r)
        ⊎ ((poll (suc fuel) i ≡ poll fuel (i + 1)) × Pending i)
  unfolding poll
  round fuel i =
      elim (ask i)
          as (λ a.
            ask i ≡ a
            → ((r : R) × (poll (suc fuel) i ≡ some (i, r)) × Answered i i r)
              ⊎ ((poll (suc fuel) i ≡ poll fuel (i + 1)) × Pending i)) [
                | finish r ↦
                    λ e. inl (r, rw (poll, e) refl, settled e (λ j low high. absurd (omega arith)))
                | again r ↦ λ e. elim (Bool-cases (ltb deadline (clock i))) [
                  | inl past ↦ inl (
                    r,
                    rw (poll, e, past) refl,
                    late e (ltb→lt deadline (clock i) past) (λ j low high. absurd (omega arith)),
                  )
                  | inr left ↦ inr (rw (poll, e, left) refl, (r, e, ground (arith, left)))
                ]
              ]
        refl

  -- If each round ends at least a pause after the one before, and that many pauses reach past the
  -- deadline, then the loop answers in at most that many rounds and one more, with the answer of the first
  -- round that settles it or is past the deadline.
  pub poll-Answered :
      (pause : ℕ) (fuel i : ℕ)
      → ((j : ℕ) → clock j + pause ≤ clock (j + 1))
      → deadline < clock i + fuel * pause
      → (last : ℕ) × (r : R) × (poll (suc fuel) i ≡ some (last, r))
        × Answered i last r
        × (last ≤ i + fuel)
  poll-Answered pause zero i slow time = elim (round 0 i) [
    | inl (r, e, a) ↦ (i, r, e, a, omega arith)
    | inr (e, (r, q, early)) ↦ absurd (omega arith)
  ]
  poll-Answered pause (suc fuel) i slow time = elim (round (suc fuel) i) [
    | inl (r, e, a) ↦ (i, r, e, a, omega arith)
    | inr (e, now) ↦
        let (last, r, e', a, bound) =
          poll-Answered pause fuel (i + 1) slow (grind (arith, slow i)) in
        (last, r, e ∙ e', Answered-earlier i last r now a, omega arith)
  ]
