-- ===== src/Anchor/Laws.antt =====
-- How often a confirmation is asked for, and what it ends with.
use oragami.Prelude.{
  ℕ, zero, suc, ◌+◌, ◌<◌, ◌≤◌, ◌≡◌, ◌≢◌, refl, inl, inr, String, none, some, arith, Option-cases,
  Bool-cases, ltb, sym,
}
use mathlib.Core.Path.{subst}
use oragami.Anchor.Service.{
  confirmed, failed, threw, Confirmation, Confirmed, returned, raised, error_of, rounds, confirm_tx,
}

module _ (failure : String → String) (answers : ℕ → Confirmation) where
  -- A round fails with this error.
  abbrev pub FailsWith : String → Confirmation → Type 0
  FailsWith e confirmed = ⊥
  FailsWith e (failed error) = e ≡ failure error
  FailsWith e (threw message) = e ≡ message

  reads_none : (c : Confirmation) → error_of failure c ≡ none → c ≡ confirmed
  reads_none confirmed h = refl
  reads_none (failed error) h = cc
  reads_none (threw message) h = cc

  reads_some : (c : Confirmation) (e : String) → error_of failure c ≡ some e → FailsWith e c
  reads_some confirmed e h = cc
  reads_some (failed error) e h = cc
  reads_some (threw message) e h = cc

  FailsWith-differs : (c : Confirmation) (e : String) → FailsWith e c → c ≢ confirmed
  FailsWith-differs confirmed e h p = elim h [ ]
  FailsWith-differs (failed error) e h p = cc
  FailsWith-differs (threw message) e h p = cc

  -- The rounds of an interval all fail.
  abbrev pub AllFail : ℕ → ℕ → Type 0
  AllFail i k = (j : ℕ) → i ≤ j → j < k → answers j ≢ confirmed

  -- The end of the rounds from `i` to before `k`.
  pub data RoundsEnd (i k : ℕ) (end : Confirmed) : Type 0 where
    confirms :
        (j : ℕ)
        → i ≤ j
        → j < k
        → AllFail i j
        → answers j ≡ confirmed
        → end ≡ returned j
        → RoundsEnd i k end
    gives_up :
        (j : ℕ) (e : String)
        → k ≡ suc j
        → AllFail i k
        → FailsWith e (answers j)
        → end ≡ raised e j
        → RoundsEnd i k end

  AllFail-empty : (i : ℕ) → AllFail i i
  AllFail-empty i j from to = absurd (omega (arith, from, to))

  AllFail-cons : (i k : ℕ) (e : String) → FailsWith e (answers i) → AllFail (suc i) k → AllFail i k
  AllFail-cons i k e fails rest j from to = elim (Bool-cases (ltb i j)) [
    | inl later ↦ rest j (ground (arith, later)) to
    | inr first ↦
        let same : i ≡ j = ground (arith, first, from) in
        subst (λ x. answers x ≢ confirmed) same (FailsWith-differs (answers i) e fails)
  ]

  earlier :
      (i k : ℕ) (e : String) (end : Confirmed)
      → FailsWith e (answers i)
      → RoundsEnd (suc i) k end
      → RoundsEnd i k end
  earlier i k e end p (confirms j from to fail now same) =
      confirms j (omega (arith, from)) to (AllFail-cons i j e p fail) now same
  earlier i k e end p (gives_up j e' last fail now same) =
      gives_up j e' last (AllFail-cons i k e p fail) now same

  rounds-RoundsEnd : (i n : ℕ) → RoundsEnd i (suc n + i) (rounds failure answers i (suc n))
  unfolding rounds
  rounds-RoundsEnd i zero = elim (Option-cases (error_of failure (answers i))) [
    | inl p ↦
        confirms i (omega arith) (omega arith) (AllFail-empty i) (reads_none (answers i) p)
          (ground (arith, p))
    | inr (e, p) ↦
        let fails = reads_some (answers i) e p in
        gives_up i e (omega arith)
          (subst (AllFail i) (omega arith) (AllFail-cons i (suc i) e fails (AllFail-empty (suc i))))
          fails (ground (arith, p))
  ]
  rounds-RoundsEnd i (suc n) = elim (Option-cases (error_of failure (answers i))) [
    | inl p ↦
        confirms i (omega arith) (omega arith) (AllFail-empty i) (reads_none (answers i) p)
          (ground (arith, p))
    | inr (e, p) ↦
        let there : rounds failure answers i (suc (suc n))
            ≡ rounds failure answers (suc i) (suc n) =
          ground (arith, p) in
        let end = rounds-RoundsEnd (suc i) n in
        let far : suc n + suc i ≡ suc (suc n) + i = omega arith in
        subst (RoundsEnd i (suc (suc n) + i)) (sym there) (
          earlier i (suc (suc n) + i) e _ (reads_some (answers i) e p)
            (subst (λ k. RoundsEnd (suc i) k (rounds failure answers (suc i) (suc n))) far end))
  ]

  -- whatever the chain answers, a confirmation with at least one round ends, and it either finds the
  -- first round that confirms, before the last or at it, and as many pauses as rounds failed, or all
  -- rounds fail, a transaction that failed counting as such, and it throws the error of the last one.
  pub confirm_tx-RoundsEnd : (n : ℕ) → RoundsEnd 0 (suc n) (confirm_tx failure answers (suc n))
  unfolding confirm_tx
  confirm_tx-RoundsEnd n =
      subst (λ k. RoundsEnd 0 k (rounds failure answers 0 (suc n))) (omega arith)
        (rounds-RoundsEnd 0 n)
