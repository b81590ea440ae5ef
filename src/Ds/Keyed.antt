-- ===== src/Ds/Keyed.antt =====
-- The interfaces of the sets, skip lists and hash maps of ds/.
use paracore.Base.{ℕ, ◌≡◌, refl, List, Bool, false}
use paracore.Core.Status.{Status, Result}
use paracore.Ds.Client.{trace, answers, trace-constant}

-- The operations of a set whose `add` takes an `E` and whose keys are `K`: a set adds its keys,
-- a skip list a key with its value.
pub record SetOps (E K S : Type 0) : Type 0 where
  pub add : E → S → Status × S
  pub remove : K → S → Status × S
  pub contains : K → S → Bool
  pub size_approx : S → ℕ

pub data SetCall (E K : Type 0) : Type 0 where
  add : E → SetCall E K
  remove : K → SetCall E K
  contains : K → SetCall E K
  size_approx : SetCall E K

pub data SetAnswer : Type 0 where
  status : Status → SetAnswer
  truth : Bool → SetAnswer
  sized : ℕ → SetAnswer

pub set_call : {E K S : Type 0} → SetOps E K S → SetCall E K → S → SetAnswer × S
set_call c (SetCall.add e) s = let (st, s') = c.add e s in (SetAnswer.status st, s')
set_call c (SetCall.remove k) s = let (st, s') = c.remove k s in (SetAnswer.status st, s')
set_call c (SetCall.contains k) s = (SetAnswer.truth (c.contains k s), s)
set_call c SetCall.size_approx s = (SetAnswer.sized (c.size_approx s), s)

abbrev pub unbuilt_set : {E K : Type 0} → SetCall E K → SetAnswer
unbuilt_set (SetCall.add _) = SetAnswer.status Status.not_built
unbuilt_set (SetCall.remove _) = SetAnswer.status Status.not_built
unbuilt_set (SetCall.contains _) = SetAnswer.truth false
unbuilt_set SetCall.size_approx = SetAnswer.sized 0

abbrev set_stub : {E K S : Type 0} → SetOps E K S
set_stub = record {
  add = λ e s. (Status.not_built, s);
  remove = λ k s. (Status.not_built, s);
  contains = λ k s. false;
  size_approx = λ s. 0;
}

set_call-unbuilt :
    {E K S : Type 0} (k : SetCall E K) (s : S) → set_call set_stub k s ≡ (unbuilt_set k, s)
unfolding set_call
set_call-unbuilt (SetCall.add e) s = refl
set_call-unbuilt (SetCall.remove k) s = refl
set_call-unbuilt (SetCall.contains k) s = refl
set_call-unbuilt SetCall.size_approx s = refl

pub set_trace-unbuilt :
    {E K S : Type 0} (c : SetOps E K S)
    → c ≡ set_stub
    → (ks : List (SetCall E K)) (s : S) → trace (set_call c) ks s ≡ (answers unbuilt_set ks, s)
set_trace-unbuilt c eq =
    trace-constant (set_call c) unbuilt_set (λ k s. rw (eq, set_call-unbuilt k s))

-- The operations of a map from `K` to `V`.
pub record MapOps (K V S : Type 0) : Type 0 where
  pub put : K → V → S → Status × S
  pub get : K → S → Result V
  pub remove : K → S → Result V × S
  pub size_approx : S → ℕ

pub data MapCall (K V : Type 0) : Type 0 where
  put : K → V → MapCall K V
  get : K → MapCall K V
  remove : K → MapCall K V
  size_approx : MapCall K V

pub data MapAnswer (V : Type 0) : Type 0 where
  status : Status → MapAnswer V
  found : Result V → MapAnswer V
  sized : ℕ → MapAnswer V

pub map_call : {K V S : Type 0} → MapOps K V S → MapCall K V → S → MapAnswer V × S
map_call c (MapCall.put k v) s = let (st, s') = c.put k v s in (MapAnswer.status st, s')
map_call c (MapCall.get k) s = (MapAnswer.found (c.get k s), s)
map_call c (MapCall.remove k) s = let (r, s') = c.remove k s in (MapAnswer.found r, s')
map_call c MapCall.size_approx s = (MapAnswer.sized (c.size_approx s), s)

abbrev pub unbuilt_map : {K V : Type 0} → MapCall K V → MapAnswer V
unbuilt_map (MapCall.put _ _) = MapAnswer.status Status.not_built
unbuilt_map (MapCall.get _) = MapAnswer.found (Result.unexpected Status.not_built)
unbuilt_map (MapCall.remove _) = MapAnswer.found (Result.unexpected Status.not_built)
unbuilt_map MapCall.size_approx = MapAnswer.sized 0

abbrev map_stub : {K V S : Type 0} → MapOps K V S
map_stub = record {
  put = λ k v s. (Status.not_built, s);
  get = λ k s. Result.unexpected Status.not_built;
  remove = λ k s. (Result.unexpected Status.not_built, s);
  size_approx = λ s. 0;
}

map_call-unbuilt :
    {K V S : Type 0} (k : MapCall K V) (s : S) → map_call map_stub k s ≡ (unbuilt_map k, s)
unfolding map_call
map_call-unbuilt (MapCall.put k v) s = refl
map_call-unbuilt (MapCall.get k) s = refl
map_call-unbuilt (MapCall.remove k) s = refl
map_call-unbuilt MapCall.size_approx s = refl

pub map_trace-unbuilt :
    {K V S : Type 0} (c : MapOps K V S)
    → c ≡ map_stub
    → (ks : List (MapCall K V)) (s : S) → trace (map_call c) ks s ≡ (answers unbuilt_map ks, s)
map_trace-unbuilt c eq =
    trace-constant (map_call c) unbuilt_map (λ k s. rw (eq, map_call-unbuilt k s))
