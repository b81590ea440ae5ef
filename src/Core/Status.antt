-- ===== src/Core/Status.antt =====
-- core/status.hpp and src/core/status.cpp: the error model.
-- The errno constants come from the platform's <cerrno>: a parameter, with its documented laws.
pub mod Laws
use paracore.Base.{ℕ, suc, ◌+◌, String, ◌≡◌, ◌≢◌, ◌==◌, if◌then◌else◌}

-- `enum class Status : int`. `unnamed` is a value of the underlying int that no enumerator has,
-- made by a cast.
pub data Status : Type 0 where
  ok invalid no_memory again busy timed_out closed full empty not_found os_error : Status
  not_built : Status
  unnamed : ℕ → Status

-- The enumerators' values with the sign left off, which is a minus. The numbers from 100 on stand for
-- the ints that no enumerator has.
abbrev pub code : Status → ℕ
code Status.ok = 0
code Status.invalid = 1
code Status.no_memory = 2
code Status.again = 3
code Status.busy = 4
code Status.timed_out = 5
code Status.closed = 6
code Status.full = 7
code Status.empty = 8
code Status.not_found = 9
code Status.os_error = 10
code Status.not_built = 99
code (Status.unnamed k) = 100 + k

-- `std::expected<T, Status>`
pub data Result {ℓ} (A : Type ℓ) : Type ℓ where
  value : A → Result A
  unexpected : Status → Result A

unfoldable pub fail {ℓ} : {A : Type ℓ} → Status → Result A
fail st = unexpected st

-- The constants of <cerrno> that the library names.
pub record Errno : Type 0 where
  pub einval : ℕ
  pub enomem : ℕ
  pub eagain : ℕ
  pub ebusy : ℕ
  pub etimedout : ℕ
  pub edeadlk : ℕ
  pub eperm : ℕ

-- POSIX: the numbers are positive, and these are different from one another.
pub record IsErrno (os : Errno) : Type 0 where
  pub einval_pos : os.einval ≢ 0
  pub enomem_pos : os.enomem ≢ 0
  pub eagain_pos : os.eagain ≢ 0
  pub ebusy_pos : os.ebusy ≢ 0
  pub etimedout_pos : os.etimedout ≢ 0
  pub edeadlk_pos : os.edeadlk ≢ 0
  pub eperm_pos : os.eperm ≢ 0
  pub einval-enomem : os.einval ≢ os.enomem
  pub einval-eagain : os.einval ≢ os.eagain
  pub einval-ebusy : os.einval ≢ os.ebusy
  pub einval-etimedout : os.einval ≢ os.etimedout
  pub enomem-eagain : os.enomem ≢ os.eagain
  pub enomem-ebusy : os.enomem ≢ os.ebusy
  pub enomem-etimedout : os.enomem ≢ os.etimedout
  pub eagain-ebusy : os.eagain ≢ os.ebusy
  pub eagain-etimedout : os.eagain ≢ os.etimedout
  pub ebusy-etimedout : os.ebusy ≢ os.etimedout
  pub edeadlk-eperm : os.edeadlk ≢ os.eperm
  pub edeadlk-einval : os.edeadlk ≢ os.einval
  pub edeadlk-ebusy : os.edeadlk ≢ os.ebusy
  pub eperm-einval : os.eperm ≢ os.einval
  pub eperm-ebusy : os.eperm ≢ os.ebusy

-- The calling thread's `thread_local int g_last_os_error`.
pub record OsError : Type 0 where
  pub g_last_os_error : ℕ

unfoldable pub set_os_error : ℕ → OsError → OsError
set_os_error err s = record s { g_last_os_error = err }

unfoldable pub last_os_error : OsError → ℕ
last_os_error s = s.g_last_os_error

-- The switch of `from_errno`.
unfoldable pub errno_status : Errno → ℕ → Status
errno_status os err =
    if err == 0
    then Status.ok
    else if err == os.einval
    then Status.invalid
    else if err == os.enomem
    then Status.no_memory
    else if err == os.eagain
    then Status.again
    else if err == os.ebusy
    then Status.busy
    else if err == os.etimedout
    then Status.timed_out
    else Status.os_error

unfoldable pub from_errno : Errno → ℕ → OsError → Status × OsError
unfolding set_os_error errno_status
from_errno os err s = (errno_status os err, set_os_error err s)

unfoldable pub to_string : Status → String
to_string Status.ok = "ok"
to_string Status.invalid = "invalid argument"
to_string Status.no_memory = "out of memory"
to_string Status.again = "not right now, try again"
to_string Status.busy = "busy"
to_string Status.timed_out = "timed out"
to_string Status.closed = "closed"
to_string Status.full = "full"
to_string Status.empty = "empty"
to_string Status.not_found = "not found"
to_string Status.os_error = "the system call failed"
to_string Status.not_built = "not built yet (see the module in the header)"
to_string (Status.unnamed n) = "unknown status"
