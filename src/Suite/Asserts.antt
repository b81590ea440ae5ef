-- ===== src/Suite/Asserts.antt =====
-- The assertions of tests/para_test.hpp. `fail` prints the text of the failure and ends the test's
-- process.
pub mod Pass
use Prim.Native.String.{compare}
use Prim.Native.Nat.{Ordering}
use paracore.Base.{ℕ, String, ◌≡◌, Bool, true, false, List, ◌==◌, none, some, if◌then◌else◌}
use paracore.Core.Status.{Status, code, Result}
use paracore.Core.Modules.{Module, Row, find_in}
use paracore.Runner.{Ended}

-- What `fail` prints.
pub data Failure : Type 0 where
  not_held : (cond : String) → Failure
  unequal : (a b : String) (x y : ℕ) → Failure
  wrong_status : (expr : String) (got want : Status) → Failure
  succeeded : (expr : String) → Failure
  no_value : (expr : String) → Status → Failure
  built_now : (name : String) → Failure

-- How the body of a test goes on.
pub data Verdict {ℓ} (A : Type ℓ) : Type ℓ where
  passes : A → Verdict A
  fails : Failure → Verdict A

infixl 5 ◌>>=◌ ◌>>◌
abbrev pub ◌>>=◌ {ℓ κ} : {A : Type ℓ} {B : Type κ} → Verdict A → (A → Verdict B) → Verdict B
passes a >>= f = f a
fails w >>= f = fails w

abbrev pub ◌>>◌ {ℓ κ} : {A : Type ℓ} {B : Type κ} → Verdict A → Verdict B → Verdict B
m >> k = m >>= λ _. k

-- A test's body ends without a failure.
abbrev pub Passes {ℓ} : {A : Type ℓ} → Verdict A → Type 0
Passes (Verdict.passes a) = Unit
Passes (Verdict.fails w) = ⊥

abbrev pub Test : Type 0
Test = Verdict (Unit {0})

-- How the child of `run_forked` ends that runs the body: `_exit(0)` after it, or `_exit(1)` in `fail`.
abbrev pub exit_of : Test → Ended
exit_of (Verdict.passes u) = Ended.exited 0
exit_of (Verdict.fails w) = Ended.exited 1

-- `==` of two `Status`es, and of two texts.
abbrev pub same_status : Status → Status → Bool
same_status a b = code a == code b

abbrev pub same_text : String → String → Bool
same_text a b = elim (compare a b) [ Ordering.eq ↦ true | _ ↦ false ]

-- The build plan `rows` has the module, and as built; and its name there.
unfoldable pub built_in : List Row → Module → Bool
unfolding find_in
built_in rows m = elim (find_in rows m) [ none ↦ false | some r ↦ r.built ]

unfoldable pub name_in : List Row → Module → String
unfolding find_in
name_in rows m = elim (find_in rows m) [ none ↦ "unknown module" | some r ↦ r.name ]

-- `PARA_ASSERT`
unfoldable pub assert : String → Bool → Test
assert text cond = if cond then Verdict.passes tt else Verdict.fails (Failure.not_held text)

-- `PARA_ASSERT_EQ`. The cast to `long long` is one to one on the numbers below 2 ^ 64.
unfoldable pub assert_eq : (ta tb : String) → (a b : ℕ) → Test
assert_eq ta tb a b =
    if a == b then Verdict.passes tt else Verdict.fails (Failure.unequal ta tb a b)

-- `PARA_ASSERT_STATUS`, and `PARA_ASSERT_OK`
unfoldable pub assert_status : String → (got want : Status) → Test
assert_status text got want =
    if same_status got want
    then Verdict.passes tt
    else Verdict.fails (Failure.wrong_status text got want)

unfoldable pub assert_ok : String → Status → Test
unfolding assert_status
assert_ok text got = assert_status text got Status.ok

-- `PARA_ASSERT_ERR`
unfoldable pub assert_err {ℓ} : {A : Type ℓ} → String → Result A → Status → Test
unfolding assert_status
assert_err text (Result.value a) want = Verdict.fails (Failure.succeeded text)
assert_err text (Result.unexpected st) want = assert_status text st want

-- `PARA_UNWRAP`
unfoldable pub unwrap {ℓ} : {A : Type ℓ} → String → Result A → Verdict A
unwrap text (Result.value a) = Verdict.passes a
unwrap text (Result.unexpected st) = Verdict.fails (Failure.no_value text st)

-- `PARA_ASSERT_NOT_BUILT`
unfoldable pub assert_not_built : List Row → Module → Test
unfolding built_in name_in
assert_not_built rows m =
    if built_in rows m
    then Verdict.fails (Failure.built_now (name_in rows m))
    else Verdict.passes tt
