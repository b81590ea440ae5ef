-- ===== src/Suite/Probe.antt =====
-- tests/probe_lockfree.cpp. What the compiler answers of `std::atomic`, how large a TaggedPtr is, and
-- how `printf` writes a number are arguments.
use Prim.Native.String.{◌++◌}
use paracore.Base.{ℕ, String, Bool, not, List, [], ◌∷◌, if◌then◌else◌}
use paracore.Sync.Atomic.Fences.{Arch}

-- The compilers that the code asks for, with their versions.
data Compiler : Type 0 where
  clang gcc : (major minor : ℕ) → Compiler
  unknown : Compiler

unfoldable compiler_text : (ℕ → String) → Compiler → String
compiler_text shown (Compiler.clang major minor) = "clang " ++ (shown major ++ ("." ++ shown minor))
compiler_text shown (Compiler.gcc major minor) = "gcc " ++ (shown major ++ ("." ++ shown minor))
compiler_text shown Compiler.unknown = "unknown"

unfoldable arch_text : Arch → String
arch_text Arch.x86_64 = "x86-64"
arch_text Arch.aarch64 = "aarch64"
arch_text _ = "unknown"

unfoldable lock_free_text : Bool → String
lock_free_text lf = if lf then "lock-free" else "LOCKED (libatomic)"

-- The exit code of `main`: whether an atomic pointer, and an atomic TaggedPtr, are always lock-free.
unfoldable probe : (ptr_lf tagged_lf : Bool) → ℕ
probe ptr_lf tagged_lf = if not ptr_lf then 1 else if tagged_lf then 0 else 2

-- The lines that `main` prints, and its exit code.
unfoldable probe_main :
    (shown : ℕ → String) → Compiler → Arch → (size : ℕ) (ptr_lf tagged_lf : Bool) → List String × ℕ
unfolding compiler_text arch_text lock_free_text probe
probe_main shown compiler arch size ptr_lf tagged_lf = (
  ("compiler          : " ++ compiler_text shown compiler)
      ∷ ("architecture      : " ++ arch_text arch)
      ∷ ("sizeof(TaggedPtr) : " ++ (shown size ++ " bytes"))
      ∷ ("atomic<Node*>     : " ++ lock_free_text ptr_lf)
      ∷ ("atomic<TaggedPtr> : " ++ lock_free_text tagged_lf)
      ∷ (if not ptr_lf
          then "" ∷ "ERROR: not even atomic<T*> is lock-free here. Check the build." ∷ []
          else []),
  probe ptr_lf tagged_lf,
)
