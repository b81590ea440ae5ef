-- ===== src/Suite/Asserts/Pass.antt =====
-- When the assertions pass.
use paracore.Base.{
  ℕ, String, ◌≡◌, ◌↔◌, refl, ap, Bool, true, false, List, ◌==◌, if◌then◌else◌, ==→eq, ==_refl,
  arith,
}
use paracore.Core.Status.{Status, code, Result}
use paracore.Core.Modules.{Module, Row}
use paracore.Suite.Asserts.{
  Failure, Verdict, Passes, Test, ◌>>◌, same_status, built_in, assert, assert_eq, assert_status,
  assert_ok, assert_err, unwrap, assert_not_built,
}

-- The statuses are told apart by their numbers.
pub code_inj : (a b : Status) → code a ≡ code b → a ≡ b
code_inj Status.ok Status.ok e = refl
code_inj a b e = ground arith

pub if-Passes :
    (b : Bool) (w : Failure)
    → Passes {A = Unit {0}} (if b then Verdict.passes tt else Verdict.fails w) ↔ (b ≡ true)
if-Passes b w = (ground arith, ground arith)

pub status_iff :
    (text : String) (st want : Status) → Passes (assert_status text st want) ↔ (st ≡ want)
unfolding assert_status
status_iff text st want =
    let same = if-Passes (same_status st want) (Failure.wrong_status text st want) in
    (
      λ p. code_inj st want (==→eq (code st) (code want) (same.0 p)),
      λ e. same.1 (rw e (==_refl (code want))),
    )

err_iff :
    {A : Type 0} (text : String) (r : Result A) (want : Status)
    → Passes (assert_err text r want) ↔ (r ≡ Result.unexpected want)
unfolding assert_err
err_iff text (Result.value a) want = (λ p. absurd p, λ e. cc)
err_iff text (Result.unexpected st) want =
    let same = status_iff text st want in
    (λ p. ap Result.unexpected (same.0 p), λ e. same.1 (ground (arith, e)))

unwrap_iff :
    {A : Type 0} (text : String) (r : Result A) (v : A)
    → (unwrap text r ≡ Verdict.passes v) ↔ (r ≡ Result.value v)
unfolding unwrap
unwrap_iff text (Result.value a) v = (λ e. ground (arith, e), λ e. ground (arith, e))
unwrap_iff text (Result.unexpected st) v = (λ e. cc, λ e. cc)

pub not_built_iff :
    (rows : List Row) (m : Module) → Passes (assert_not_built rows m) ↔ (built_in rows m ≡ false)
unfolding assert_not_built
not_built_iff rows m = (ground arith, ground arith)

pub Passes-both : (v k : Test) → Passes v → Passes k → Passes (v >> k)
Passes-both (Verdict.passes u) k p q = q
Passes-both (Verdict.fails w) k p q = absurd p

-- A test goes on after assertions with others that pass.
pub Passes-then : {P : Type 0} (v k : Test) → (Passes v ↔ P) → Passes k → Passes (v >> k) ↔ P
Passes-then (Verdict.passes u) k h pass = (λ p. h.0 tt, λ p. pass)
Passes-then (Verdict.fails w) k h pass = (λ p. absurd p, λ p. h.1 p)

-- The assertions of para_test.hpp pass exactly when what they say holds: `PARA_ASSERT` when the
-- condition is true, `PARA_ASSERT_EQ` when the numbers are equal, `PARA_ASSERT_STATUS` when the
-- statuses are the same value, `PARA_ASSERT_OK` when the status is `Ok`, `PARA_ASSERT_ERR` when the
-- result carries just the expected error, `PARA_UNWRAP` when it carries a value, which it hands back,
-- and `PARA_ASSERT_NOT_BUILT` when the build plan does not have the module as built.
pub asserts_iff :
    {A : Type 0} (text other : String) (cond : Bool) (a b : ℕ)
    → (st want : Status) (r : Result A) (rows : List Row) (m : Module)
    → (Passes (assert text cond) ↔ (cond ≡ true))
      × (Passes (assert_eq text other a b) ↔ (a ≡ b))
      × (Passes (assert_status text st want) ↔ (st ≡ want))
      × (Passes (assert_ok text st) ↔ (st ≡ Status.ok))
      × (Passes (assert_err text r want) ↔ (r ≡ Result.unexpected want))
      × ((v : A) → (unwrap text r ≡ Verdict.passes v) ↔ (r ≡ Result.value v))
      × (Passes (assert_not_built rows m) ↔ (built_in rows m ≡ false))
unfolding assert assert_eq assert_ok
asserts_iff text other cond a b st want r rows m = (
  if-Passes cond (Failure.not_held text),
  (
    (λ p. ==→eq a b ((if-Passes (a == b) (Failure.unequal text other a b)).0 p)),
    λ e. (if-Passes (a == b) (Failure.unequal text other a b)).1 (rw e (==_refl b)),
  ),
  status_iff text st want,
  status_iff text st Status.ok,
  err_iff text r want,
  unwrap_iff text r,
  not_built_iff rows m,
)
