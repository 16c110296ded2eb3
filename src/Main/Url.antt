-- ===== src/Main/Url.antt =====
-- The URL that `main` of src/metricbench.cpp passes to the drivers.
use metric_bench.Prelude.{ℕ, ◌≡◌, refl, sym, false, [], ◌∷◌, ◌++◌, arith, ==_ne}
use metric_bench.Uri.{Bytes}
use metric_bench.Uri.Slices.{Lacks}
use metric_bench.Main.{codes, has_prefix, contains, fix_url}

has_prefix-Lacks : (c : ℕ) (cs : Bytes) → Lacks b'/' cs → has_prefix (codes "://") (c ∷ cs) ≡ false
has_prefix-Lacks c [] h = ground arith
has_prefix-Lacks c (x ∷ xs) h = rw (==_ne (λ e. h.0 (sym e))) (ground arith)

pub contains-Lacks : (s : Bytes) → Lacks b'/' s → contains (codes "://") s ≡ false
contains-Lacks [] h = refl
contains-Lacks (c ∷ cs) h = rw (has_prefix-Lacks c cs h.1) (contains-Lacks cs h.1)

-- An address with no slash gets the protocol tcp.
pub fix_url-Lacks : (s : Bytes) → Lacks b'/' s → fix_url s ≡ codes "tcp://" ++ s
unfolding fix_url
fix_url-Lacks s h = rw (contains-Lacks s h) refl
