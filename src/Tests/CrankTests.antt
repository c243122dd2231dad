-- ===== src/Tests/CrankTests.antt =====
-- The theorems on the NAV crank at a first run, and two runs 100 s apart.
use oragami.Prelude.{◌≡◌, ◌⊎◌, refl, some, none, [], ◌∷◌, is_some, arith}
use oragami.Js.Number.{IsBetween}
use oragami.Js.Fractions.{fractions, whole}
use oragami.Js.Json.{HasDistinctKeys}
use oragami.Crank.Price.{walk_for_price, extract_price}
use oragami.Crank.PriceComplete.{has_price, walk_for_price-iff-has_price}
use oragami.Crank.Nav.{compute_nav_bps, new_memory}
use oragami.Crank.NavLaws.{MemoryIsValid, compute_nav_bps-IsBetween}
use oragami.Crank.Service.{run_nav_crank, update_nav, vault_view, fetch_prices}
use oragami.Crank.ServiceLaws.{
  BackendIsValid, AnswersWithin, computed_nav, update_nav-AnswersWithin,
}
use oragami.Crank.Guards.{Unsent, Sent, Justified, run_nav_crank_sends}
use oragami.Crank.Spacing.{run_all, IsOrderly, run_all-IsOrderly}
use oragami.Tests.Data.{crank_env, new_backend, new_backend-valid, snapshot}

run_nav_crank_sends_example :
    Unsent fractions new_backend (run_nav_crank fractions (crank_env 200000) new_backend)
    ⊎ Sent fractions
        (computed_nav fractions (crank_env 200000) new_backend)
        200000
        new_backend
        (run_nav_crank fractions (crank_env 200000) new_backend)
      × Justified fractions
          (crank_env 200000)
          (computed_nav fractions (crank_env 200000) new_backend)
          new_backend
run_nav_crank_sends_example =
    run_nav_crank_sends fractions (crank_env 200000) new_backend new_backend-valid

run_all-IsOrderly_example :
    IsOrderly fractions (run_all fractions (crank_env 200000 ∷ crank_env 300000 ∷ []) new_backend)
run_all-IsOrderly_example =
    run_all-IsOrderly fractions (crank_env 200000 ∷ crank_env 300000 ∷ []) new_backend
      (omega arith, (omega arith, tt))
      (record { valid = new_backend-valid; spaced = tt; latest = tt })

update_nav-AnswersWithin_example :
    AnswersWithin fractions
      (crank_env 200000)
      (computed_nav fractions (crank_env 200000) new_backend)
      (update_nav fractions (crank_env 200000) new_backend).0
    × BackendIsValid fractions (update_nav fractions (crank_env 200000) new_backend).1
update_nav-AnswersWithin_example =
    update_nav-AnswersWithin fractions (crank_env 200000) new_backend new_backend-valid

compute_nav_bps-IsBetween_example :
    IsBetween 5000 20000 (compute_nav_bps fractions (some (whole 2400)) none (whole 1) new_memory).0
    × MemoryIsValid fractions
        (compute_nav_bps fractions (some (whole 2400)) none (whole 1) new_memory).1
compute_nav_bps-IsBetween_example =
    compute_nav_bps-IsBetween fractions (some (whole 2400)) none (whole 1) new_memory (refl, refl)
      tt (refl, refl) new_backend-valid.memory_valid

abbrev based : oragami.Crank.Service.Backend oragami.Js.Fractions.Fraction
based = record new_backend {
  memory = record new_memory {
    baseline_gold_price = some (whole 2000);
    baseline_chf_usd = some (whole 1);
  };
}

snapshot-distinct : HasDistinctKeys (snapshot 2400)
unfolding HasDistinctKeys
snapshot-distinct = (refl, (tt, ((refl, tt, tt), tt)), tt)

walk_for_price-iff-has_price_example :
    is_some (walk_for_price fractions (snapshot 2400)) ≡ has_price fractions (snapshot 2400)
walk_for_price-iff-has_price_example =
    walk_for_price-iff-has_price fractions (snapshot 2400) snapshot-distinct

-- The price that stands deep in a snapshot is found.
snapshot-price : extract_price fractions (snapshot 2400) ≡ some (whole 2400)
unfolding extract_price walk_for_price
snapshot-price = refl
