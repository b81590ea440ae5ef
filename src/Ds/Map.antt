-- ===== src/Ds/Map.antt =====
-- ds/hashmap.hpp and ds/detail/hashmap_impl.hpp: four hash maps. The hash function, which no stub
-- calls, and the locks, which none takes, are left out.
use paracore.Base.{ℕ, Bool, false}
use paracore.Core.Status.{Status, fail}
use paracore.Ds.Keyed.{MapOps}

pub record GlobalMap : Type 0 where
  pub buckets : ℕ

pub record StripedMap : Type 0 where
  pub buckets : ℕ
  pub stripes : ℕ

pub record RefinableMap : Type 0 where
  pub resizing : Bool
  pub buckets : ℕ
  pub stripes : ℕ

pub record SplitOrderedMap : Type 0 where
  pub buckets : ℕ

-- The constructors, whose defaults are 64 buckets, 1024 buckets and 0 stripes twice, and 2 buckets.
abbrev pub new_global : ℕ → GlobalMap
new_global buckets = record { buckets = buckets }

abbrev pub new_striped : ℕ → ℕ → StripedMap
new_striped buckets stripes = record { buckets = buckets; stripes = stripes }

abbrev pub new_refinable : ℕ → ℕ → RefinableMap
new_refinable buckets stripes = record { resizing = false; buckets = buckets; stripes = stripes }

abbrev pub new_split_ordered : ℕ → SplitOrderedMap
new_split_ordered buckets = record { buckets = buckets }

module _ {K V : Type 0} where
  abbrev pub global_map : MapOps K V GlobalMap
  unfolding fail
  global_map = record {
    put = λ key value s. (Status.not_built, s);
    get = λ key s. fail Status.not_built;
    remove = λ key s. (fail Status.not_built, s);
    size_approx = λ s. 0;
  }

  abbrev pub striped_map : MapOps K V StripedMap
  unfolding fail
  striped_map = record {
    put = λ key value s. (Status.not_built, s);
    get = λ key s. fail Status.not_built;
    remove = λ key s. (fail Status.not_built, s);
    size_approx = λ s. 0;
  }

  abbrev pub refinable_map : MapOps K V RefinableMap
  unfolding fail
  refinable_map = record {
    put = λ key value s. (Status.not_built, s);
    get = λ key s. fail Status.not_built;
    remove = λ key s. (fail Status.not_built, s);
    size_approx = λ s. 0;
  }

  abbrev pub split_ordered_map : MapOps K V SplitOrderedMap
  unfolding fail
  split_ordered_map = record {
    put = λ key value s. (Status.not_built, s);
    get = λ key s. fail Status.not_built;
    remove = λ key s. (fail Status.not_built, s);
    size_approx = λ s. 0;
  }

-- How often the table was resized.
abbrev pub resize_count : RefinableMap → ℕ
resize_count s = 0

-- The bit-reversed key, to come.
abbrev pub split_order_key : ℕ → ℕ
split_order_key hash = 0
