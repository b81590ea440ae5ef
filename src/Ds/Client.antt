-- ===== src/Ds/Client.antt =====
-- A client of a structure of ds/: any sequence of calls, and the answers that it sees.
use paracore.Base.{ℕ, ◌≡◌, refl, List, [], ◌∷◌, Option}

-- A pointer to a node; `none` is `nullptr`. No stub makes a node.
abbrev pub Pointer : Type 0
Pointer = Option ℕ

-- What a client sees that makes these calls, and the members after them.
pub trace : {C R S : Type 0} → (C → S → R × S) → List C → S → List R × S
trace call [] s = ([], s)
trace call (k ∷ ks) s = let (r, s') = call k s in let (rs, s'') = trace call ks s' in (r ∷ rs, s'')

-- The answers of a structure that answers `f` whatever has been called before.
abbrev pub answers : {C R : Type 0} → (C → R) → List C → List R
answers f [] = []
answers f (k ∷ ks) = f k ∷ answers f ks

-- A structure that answers `f` and leaves its members alone shows a client nothing else.
pub trace-constant :
    {C R S : Type 0}
    → (call : C → S → R × S) → (f : C → R) → ((k : C) (s : S) → call k s ≡ (f k, s))
    → (ks : List C) (s : S) → trace call ks s ≡ (answers f ks, s)
unfolding trace
trace-constant call f stub [] s = refl
trace-constant call f stub (k ∷ ks) s = rw (stub k s, trace-constant call f stub ks s)
