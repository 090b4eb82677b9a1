-- ===== src/Smr/Churn/CowTotal.antt =====
-- The churn driver over the copy-on-write book never panics.
use hi_perf_cmp.Prelude.{ℕ, ◌+◌, ◌^◌, ◌<◌, ◌≡◌, ◌≢◌, ap, ◌∙◌, some, arith}
use mathlib.Core.Path.{subst, sym}
use hi_perf_cmp.Prelude.Run.{Run, ok, ◌>>◌}
use hi_perf_cmp.Prelude.Lockstep.{Agree, returns, panics}
use hi_perf_cmp.Smr.Level.{SmrConfig}
use hi_perf_cmp.Smr.Book
use hi_perf_cmp.Smr.Book.{Book}
use hi_perf_cmp.Smr.CowBook
use hi_perf_cmp.Smr.CowBook.{CowBook}
use hi_perf_cmp.Smr.Lockstep.{Shows}
use hi_perf_cmp.Smr.Lockstep.Start.{new-Shows}
use hi_perf_cmp.Smr.Churn.{Churn, new, cow_store, prebuild, drive}
use hi_perf_cmp.Smr.Churn.Drive.{drive-Agree}
use hi_perf_cmp.Smr.Churn.Tracks.{Tracks}
use hi_perf_cmp.Smr.Churn.Total.{IsRoomy, churn-Completes}

-- A run from the new copy-on-write book returns, with a book that shows one that holds the live orders.
pub record CowCompletes (cfg : SmrConfig) (ops : ℕ) : Type 0 where
  pub w : CowBook
  pub made : CowBook.new cfg ≡ some w
  pub c' : Churn
  pub w' : CowBook
  pub returned :
      (prebuild cow_store cfg.steady >> drive cow_store ops) (new cfg, w) ≡ ok tt (c', w')
  pub b' : Book
  pub shows : Shows w' b'
  pub tracks : Tracks c' b'

-- If the second of two agreeing runs returns, so does the first.
returned_by :
    {S T A : Type 0} {R : S → T → Type 0} {p : Run S A} {q : Run T A} (a : A) (t : T)
    → Agree R p q
    → q ≡ ok a t
    → (s : S) × (p ≡ ok a s) × R s t
returned_by {R} a t (returns {a = x} {b = z} {s} {t = y} e h) f =
    let value : z ≡ a = ground arith in
    let state : y ≡ t = ground arith in (s, ap (λ v. ok v s) (e ∙ value), subst (R s) state h)
returned_by a t panics f = absurd (ground arith)

-- The churn cells over the copy-on-write book do not panic with a configuration in the bounds of
-- `from_env` that also has a positive chunk size, a pool of 2 to 2^32 - 1 slots, at least one more
-- than the steady orders, a minimum price of 64 bits, and a ladder, the levels times the tick, of
-- 2^63 at most: the book is made, and prebuilding the steady orders and then driving any number of
-- ops returns, if the steady orders and the ops together are below 2^64. The book then shows a
-- well-formed one in which the driver's live orders rest.
pub churn-CowCompletes :
    (cfg : SmrConfig) (ops : ℕ)
    → IsRoomy cfg
    → cfg.chunk ≢ 0
    → cfg.steady + ops < 2 ^ 64
    → CowCompletes cfg ops
churn-CowCompletes cfg ops r chunk room =
    let (w, made, shows) = (new-Shows cfg (omega (arith, r.cap_fits))).0 chunk in
    let f = churn-Completes cfg ops r room in
    let (p, e, h) =
      returned_by tt (f.c', f.b') (drive-Agree cfg.steady ops (new cfg) w (Book.new cfg) shows)
        f.returns in
    record {
      w = w;
      made = made;
      c' = p.0;
      w' = p.1;
      returned = e;
      b' = f.b';
      shows = h.books;
      tracks = subst (λ c. Tracks c f.b') (sym h.driver) f.tracks;
    }
