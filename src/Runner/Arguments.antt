-- ===== src/Runner/Arguments.antt =====
-- The loop over `argv` in `main` of tests/para_test.cpp.
use text.Mathlib.Text.{◌==◌ as str_eq}
use paracore.Base.{
  ℕ, ◌^◌, ◌<◌, ◌≡◌, refl, String, Bool, true, false, ◌||◌, Option, none, some, List, [], ◌∷◌, ◌++◌,
  if◌then◌else◌, arith,
}
use paracore.Runner.{Settings, defaults, Request, number, arguments}

-- The texts that the loop takes for an option also where nothing follows.
abbrev pub is_option : String → Bool
is_option a =
    str_eq a "--list"
    || str_eq a "--race-only"
    || str_eq a "--no-fork"
    || str_eq a "--help"
    || str_eq a "-h"

abbrev filter_args : Option String → List String
filter_args none = []
filter_args (some f) = f ∷ []

-- A command line that asks for settings, in which `repeat` and `timeout` are the numbers.
abbrev pub written : (repeat timeout : String) → Settings → List String
written repeat timeout o =
    "--repeat" ∷ repeat ∷ "--timeout" ∷ timeout ∷ (if o.race_only then "--race-only" ∷ [] else [])
    ++ (if o.no_fork then "--no-fork" ∷ [] else [])
    ++ filter_args o.filter

-- The filter is not taken for an option.
abbrev pub Plain : Option String → Type 0
Plain none = Unit
Plain (some f) = is_option f ≡ false

module _ (strtoul : String → ℕ) where
  number-read : (s : String) (n : ℕ) → strtoul s ≡ n → n < 2 ^ 32 → number strtoul s ≡ n
  number-read s n e h = rw e (omega arith)

  switches-read :
      (repeat timeout : ℕ) (racing in_process : Bool) (f : Option String)
      → Plain f
      → arguments strtoul
          ((if racing then "--race-only" ∷ [] else [])
            ++ (if in_process then "--no-fork" ∷ [] else [])
            ++ filter_args f)
          (record {
            repeat = repeat;
            timeout_ms = timeout;
            race_only = false;
            no_fork = false;
            filter = none;
          })
        ≡ Request.run (record {
          repeat = repeat;
          timeout_ms = timeout;
          race_only = racing;
          no_fork = in_process;
          filter = f;
        })
  unfolding arguments
  switches-read r m true true none h = refl
  switches-read r m true false none h = refl
  switches-read r m false true none h = refl
  switches-read r m false false none h = refl
  switches-read r m true true (some f) h = ground arith
  switches-read r m true false (some f) h = ground arith
  switches-read r m false true (some f) h = ground arith
  switches-read r m false false (some f) h = ground arith

  -- Settings written as a command line, with numbers below 2 ^ 32 in texts that `strtoul` reads as
  -- those numbers, and a filter, if any, that is not one of the options that stand alone, are what
  -- the loop over `argv` reads back from the defaults.
  pub arguments-written :
      (repeat timeout : String) (o : Settings)
      → strtoul repeat ≡ o.repeat
      → strtoul timeout ≡ o.timeout_ms
      → o.repeat < 2 ^ 32
      → o.timeout_ms < 2 ^ 32
      → Plain o.filter
      → arguments strtoul (written repeat timeout o) defaults ≡ Request.run o
  unfolding arguments
  arguments-written repeat timeout o er et lr lt h =
      rw (number-read repeat o.repeat er lr, number-read timeout o.timeout_ms et lt)
        (switches-read o.repeat o.timeout_ms o.race_only o.no_fork o.filter h)
