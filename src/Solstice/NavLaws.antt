-- ===== src/Solstice/NavLaws.antt =====
-- The eUSX price that `getEusxNav` gives is usable, and the cache holds no other.
use oragami.Prelude.{ℕ, ◌+◌, ◌<◌, ◌≡◌, Option, none, some, arith}
use oragami.Js.Floats.{Floats, IsPrice}
use oragami.Solstice.Nav.{CachedNav, SolsticeState, SolsticeEnv, cache_ttl_ms, get_eusx_nav}

module _ (fl : Floats) where
  open fl use {Float}

  -- What the cache holds is a price.
  abbrev pub HoldsPrice : Option (CachedNav Float) → Type 0
  HoldsPrice none = Unit
  HoldsPrice (some c) = IsPrice fl c.value

  abbrev pub CacheIsValid : SolsticeState Float → Type 0
  CacheIsValid s = HoldsPrice s.cached_eusx_nav

  one_IsPrice : IsPrice fl (fl.of_nat 1)
  one_IsPrice =
      (fl.of_nat_is_finite 1 (omega arith), fl.of_nat_gt_zero 1 (omega arith) (omega arith))

  -- If the cache holds no other number, then whatever the settings, the reserve and the clock
  -- are, `getEusxNav` answers with a finite positive number, and keeps only such a number in its
  -- cache.
  pub get_eusx_nav-IsPrice :
      (env : SolsticeEnv Float) (s : SolsticeState Float)
      → CacheIsValid s
      → IsPrice fl (get_eusx_nav fl env s).0 × CacheIsValid (get_eusx_nav fl env s).1
  unfolding get_eusx_nav
  get_eusx_nav-IsPrice env s h = ground (arith, one_IsPrice)

  -- The number that was answered stands in the cache, and was stored less than 60 s before `now`.
  abbrev pub AnswersFresh : ℕ → Float → Option (CachedNav Float) → Type 0
  AnswersFresh now v none = ⊥
  AnswersFresh now v (some c) = (c.value ≡ v) × (now < c.timestamp + cache_ttl_ms)

  -- After every call the cache holds the answer, stored less than 60 s ago.
  get_eusx_nav-AnswersFresh :
      (env : SolsticeEnv Float) (s : SolsticeState Float)
      → AnswersFresh env.now (get_eusx_nav fl env s).0 (get_eusx_nav fl env s).1.cached_eusx_nav
  unfolding get_eusx_nav
  get_eusx_nav-AnswersFresh env s = ground arith

  -- While the cached number is less than 60 s old, it is the answer and nothing changes.
  pub get_eusx_nav_cached :
      (env : SolsticeEnv Float) (s : SolsticeState Float) (c : CachedNav Float)
      → s.cached_eusx_nav ≡ some c
      → env.now < c.timestamp + cache_ttl_ms
      → get_eusx_nav fl env s ≡ (c.value, s)
  unfolding get_eusx_nav
  get_eusx_nav_cached env s c e h = ground arith
