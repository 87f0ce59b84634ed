-- ===== src/Llmbench/Cells.antt =====
-- llmbench/src/llmbench/schemas/core.py: the coordinates of a benchmark cell, and of a measured cell
-- what the planner reads. Rates of arrival are in tenths of a request per second, throughput and
-- variation in thousandths.
use home_ailab.Prelude.{
  ℕ, ◌≡◌, refl, String, Bool, true, false, ◌&&◌, Option, none, some, ◌==◌, arith,
}

pub data CacheMode : Type 0 where
  cold warm : CacheMode

pub data LoadMode : Type 0 where
  closed_loop open_loop_constant open_loop_poisson : LoadMode

abbrev pub same_cache : CacheMode → CacheMode → Bool
same_cache cold cold = true
same_cache cold warm = false
same_cache warm cold = false
same_cache warm warm = true

abbrev pub same_load : LoadMode → LoadMode → Bool
same_load closed_loop closed_loop = true
same_load closed_loop open_loop_constant = false
same_load closed_loop open_loop_poisson = false
same_load open_loop_constant closed_loop = false
same_load open_loop_constant open_loop_constant = true
same_load open_loop_constant open_loop_poisson = false
same_load open_loop_poisson closed_loop = false
same_load open_loop_poisson open_loop_constant = false
same_load open_loop_poisson open_loop_poisson = true

pub record WorkloadCell : Type 0 where
  pub cell_id : String
  pub input_tokens : ℕ
  pub target_output_tokens : ℕ
  pub concurrency : ℕ
  pub cache_mode : CacheMode
  pub load_mode : LoadMode
  pub repetitions : ℕ
  pub arrival_rate : Option ℕ

-- the tuple of `key`
pub record CellKey : Type 0 where
  pub input_tokens : ℕ
  pub target_output_tokens : ℕ
  pub concurrency : ℕ
  pub cache_mode : CacheMode
  pub load_mode : LoadMode
  pub arrival_rate : ℕ

-- `rate or 0`
abbrev pub rate_or_zero : Option ℕ → ℕ
rate_or_zero none = 0
rate_or_zero (some n) = n

abbrev pub key : WorkloadCell → CellKey
key c = record {
  input_tokens = c.input_tokens;
  target_output_tokens = c.target_output_tokens;
  concurrency = c.concurrency;
  cache_mode = c.cache_mode;
  load_mode = c.load_mode;
  arrival_rate = rate_or_zero c.arrival_rate;
}

-- the equality of two tuples
unfoldable pub same_key : CellKey → CellKey → Bool
same_key a b =
    (a.input_tokens == b.input_tokens)
    && (a.target_output_tokens == b.target_output_tokens)
    && (a.concurrency == b.concurrency)
    && same_cache a.cache_mode b.cache_mode
    && same_load a.load_mode b.load_mode
    && (a.arrival_rate == b.arrival_rate)

same_cache-eq : (a b : CacheMode) → same_cache a b ≡ true → a ≡ b
same_cache-eq cold cold h = refl
same_cache-eq cold warm h = absurd (cc)
same_cache-eq warm cold h = absurd (cc)
same_cache-eq warm warm h = refl

same_load-eq : (a b : LoadMode) → same_load a b ≡ true → a ≡ b
same_load-eq closed_loop closed_loop h = refl
same_load-eq closed_loop open_loop_constant h = absurd (cc)
same_load-eq closed_loop open_loop_poisson h = absurd (cc)
same_load-eq open_loop_constant closed_loop h = absurd (cc)
same_load-eq open_loop_constant open_loop_constant h = refl
same_load-eq open_loop_constant open_loop_poisson h = absurd (cc)
same_load-eq open_loop_poisson closed_loop h = absurd (cc)
same_load-eq open_loop_poisson open_loop_constant h = absurd (cc)
same_load-eq open_loop_poisson open_loop_poisson h = refl

same_cache_refl : (a : CacheMode) → same_cache a a ≡ true
same_cache_refl cold = refl
same_cache_refl warm = refl

same_load_refl : (a : LoadMode) → same_load a a ≡ true
same_load_refl closed_loop = refl
same_load_refl open_loop_constant = refl
same_load_refl open_loop_poisson = refl

pub same_key-eq : (a b : CellKey) → same_key a b ≡ true → a ≡ b
unfolding same_key
same_key-eq a b h =
    ground (arith, same_cache-eq a.cache_mode b.cache_mode, same_load-eq a.load_mode b.load_mode)

pub same_key_refl : (a : CellKey) → same_key a a ≡ true
unfolding same_key
same_key_refl a = ground (arith, same_cache_refl a.cache_mode, same_load_refl a.load_mode)

-- a measured cell: its workload, its aggregate throughput, and the variation of its two latencies
pub record MeasurementCell : Type 0 where
  pub workload : WorkloadCell
  pub output_tps : ℕ
  pub ttft_cv : Option ℕ
  pub itl_cv : Option ℕ
