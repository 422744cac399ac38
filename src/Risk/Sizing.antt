-- ===== src/Risk/Sizing.antt =====
-- The bisection of `RiskEngine.assess`: it ends, and finds the last step of a monotone test.
use bot_trading.Prelude.{
  ℕ, zero, suc, ◌+◌, ◌-◌, ◌/◌, ◌≤◌, ◌<◌, ◌≡◌, refl, ◌⊎◌, inl, inr, Bool, true, false, ltb,
  Bool-cases, arith,
}
use bot_trading.Risk.Engine.{bisect}

-- A test that, once it fails, fails for every larger number.
abbrev pub IsDownward : (ℕ → Bool) → Type 0
IsDownward feasible = (i j : ℕ) → i ≤ j → feasible j ≡ true → feasible i ≡ true

-- The reference: `k` is the last number from `low` to `high` that passes, or `low` if none does.
pub record IsLast (feasible : ℕ → Bool) (low high k : ℕ) : Type 0 where
  pub from_low : low ≤ k
  pub to_high : k ≤ high
  pub passes : (k ≡ low) ⊎ (feasible k ≡ true)
  pub none_above : (j : ℕ) → k < j → j ≤ high → feasible j ≡ false

IsLast-raise :
    (feasible : ℕ → Bool) (low middle high k : ℕ)
    → low ≤ middle
    → feasible middle ≡ true
    → IsLast feasible middle high k
    → IsLast feasible low high k
IsLast-raise feasible low middle high k h pass last = record {
  from_low = omega (arith, last.from_low);
  to_high = last.to_high;
  passes = elim last.passes [ inl e ↦ inr (rw e pass) | inr p ↦ inr p ];
  none_above = last.none_above;
}

IsLast-lower :
    (feasible : ℕ → Bool)
    → IsDownward feasible
    → (low middle high k : ℕ) → middle ≤ high
    → 0 < middle
    → feasible middle ≡ false
    → IsLast feasible low (middle - 1) k
    → IsLast feasible low high k
IsLast-lower feasible down low middle high k h p fail last = record {
  from_low = last.from_low;
  to_high = omega (arith, last.to_high);
  passes = last.passes;
  none_above = λ j hj _. ground (arith, last.none_above j hj, down middle j);
}

-- With as much fuel as the interval is long, the loop ends at the last number that passes.
pub bisect-IsLast :
    (fuel : ℕ) (feasible : ℕ → Bool)
    → IsDownward feasible
    → (low high : ℕ) → low ≤ high
    → high - low ≤ fuel
    → IsLast feasible low high (bisect fuel feasible low high)
unfolding bisect
bisect-IsLast zero feasible down low high h enough = record {
  from_low = omega arith;
  to_high = omega arith;
  passes = inl refl;
  none_above = λ j p q. absurd (omega arith);
}
bisect-IsLast (suc fuel) feasible down low high h enough = elim (Bool-cases (ltb low high)) [
  | inr ended ↦ rw ended (record {
    from_low = omega arith;
    to_high = omega arith;
    passes = inl refl;
    none_above = λ j p q. absurd (ground arith);
  })
  | inl open_ ↦ rw open_ (elim (Bool-cases (feasible ((low + high + 1) / 2))) [
    | inl pass ↦ rw pass (
        IsLast-raise feasible low ((low + high + 1) / 2) high _ (ground arith) pass (
          bisect-IsLast fuel feasible down ((low + high + 1) / 2) high (ground arith)
            (ground arith)))
    | inr fail ↦ rw fail (
        IsLast-lower feasible down low ((low + high + 1) / 2) high _ (ground arith) (ground arith)
          fail
          (bisect-IsLast fuel feasible down low ((low + high + 1) / 2 - 1) (ground arith)
            (ground arith)))
  ])
]
