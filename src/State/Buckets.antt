-- ===== src/State/Buckets.antt =====
-- The seven usage counters of `State` (src/state.rs), AtomicI64 cells, as a function of their names.
use dockfoxprox.Base.{ℕ, ◌+◌, ◌%◌, ◌^◌, ◌≡◌, ite, arith, add64, sub64}

pub data Bucket : Type 0 where
  manifest_memory : Bucket
  small_blob_memory large_blob_memory : Bucket
  small_redis_memory large_redis_memory : Bucket
  blob_disk redis_disk : Bucket

unfoldable pub Bucket-discrete : Discrete Bucket
Bucket-discrete = hlevel

abbrev pub Usage : Type 0
Usage = Bucket → ℕ

-- The atomic operations on one counter. They wrap.
unfoldable pub fetch_add : Bucket → ℕ → Usage → Usage
unfolding Bucket-discrete
fetch_add b n u c = ite (Bucket-discrete b c) (add64 (u c) n) (u c)

unfoldable pub fetch_sub : Bucket → ℕ → Usage → Usage
unfolding Bucket-discrete
fetch_sub b n u c = ite (Bucket-discrete b c) (sub64 (u c) n) (u c)

unfoldable pub store : Bucket → ℕ → Usage → Usage
unfolding Bucket-discrete
store b n u c = ite (Bucket-discrete b c) n (u c)

-- What an amount charged to a bucket adds to the counter `c`.
unfoldable pub charge : Bucket → Bucket × ℕ → ℕ
unfolding Bucket-discrete
charge c (b, n) = ite (Bucket-discrete b c) n 0

pub fetch_add-charge :
    (c b : Bucket) (n : ℕ) (u : Usage) (total : ℕ)
    → u c ≡ total % 2 ^ 64
    → fetch_add b n u c ≡ (total + charge c (b, n)) % 2 ^ 64
unfolding fetch_add charge
fetch_add-charge c b n u total h = ground arith

pub fetch_sub-charge :
    (c b : Bucket) (n : ℕ) (u : Usage) (total rest : ℕ)
    → u c ≡ total % 2 ^ 64
    → rest + charge c (b, n) ≡ total
    → fetch_sub b n u c ≡ rest % 2 ^ 64
unfolding fetch_sub charge
fetch_sub-charge c b n u total rest h e = ground arith
