-- ===== src/Smr/Churn/Drive.antt =====
-- The churn driver over the two books.
use hi_perf_cmp.Prelude.{ℕ, zero, suc, ◌≡◌, refl}
use hi_perf_cmp.Prelude.Run.{Run, ok, panic, Cmd, ◌>>◌}
use hi_perf_cmp.Prelude.Lockstep.{Agree, returns, panics, Sim, then-Sim, pure-Sim}
use hi_perf_cmp.Smr.Book.{Book}
use hi_perf_cmp.Smr.CowBook.{CowBook}
use hi_perf_cmp.Smr.Lockstep.{Shows}
use hi_perf_cmp.Smr.Lockstep.Steps.{insert-Sim, cancel-Sim, fill-Sim}
use hi_perf_cmp.Smr.Churn.{
  ChurnOp, insert, cancel, fill, Churn, apply, book_store, cow_store, Driven, on_store, step,
  insert_op, next_op, prebuild, drive,
}

-- The same driver, beside a copy-on-write book that shows the flat one.
pub record InStep (p : Driven CowBook) (q : Driven Book) : Type 0 where
  pub driver : p.0 ≡ q.0
  pub books : Shows p.1 q.1

apply-Sim : (op : ChurnOp) → Sim Shows (apply cow_store op) (apply book_store op)
unfolding apply
apply-Sim (insert id price qty side) = insert-Sim id price qty side
apply-Sim (cancel id) = cancel-Sim id
apply-Sim (fill id) = fill-Sim id

on_store-Agree :
    (c : Churn) {r : Run CowBook (Unit {0})} {q : Run Book (Unit {0})}
    → Agree Shows r q
    → Agree InStep (on_store c r) (on_store c q)
on_store-Agree c (returns e h) = returns e (record { driver = refl; books = h })
on_store-Agree c panics = panics

step-Agree :
    (r : Run Churn ChurnOp) (w : CowBook) (b : Book)
    → Shows w b
    → Agree InStep (step cow_store r w) (step book_store r b)
unfolding step
step-Agree (ok op c) w b h = on_store-Agree c (apply-Sim op w b h)
step-Agree panic w b h = panics

step-Sim :
    (m : Cmd Churn ChurnOp)
    → Sim InStep (λ d. step cow_store (m d.0) d.1) (λ d. step book_store (m d.0) d.1)
step-Sim m p q h = rw h.driver (step-Agree (m q.0) p.1 q.1 h.books)

drive-Sim : (n : ℕ) → Sim InStep (drive cow_store n) (drive book_store n)
unfolding drive
drive-Sim zero = pure-Sim tt
drive-Sim (suc n) = then-Sim (step-Sim next_op) (drive-Sim n)

prebuild-Sim : (n : ℕ) → Sim InStep (prebuild cow_store n) (prebuild book_store n)
unfolding prebuild
prebuild-Sim zero = pure-Sim tt
prebuild-Sim (suc n) = then-Sim (step-Sim insert_op) (prebuild-Sim n)

-- Prebuilding and then driving the stream over the copy-on-write book, from a book that shows the
-- flat one, panics exactly when it does so over the flat book, and otherwise ends with the same
-- driver state and a copy-on-write book that shows the flat book.
pub drive-Agree :
    (n m : ℕ) (c : Churn) (w : CowBook) (b : Book)
    → Shows w b
    → Agree InStep
        ((prebuild cow_store n >> drive cow_store m) (c, w))
        ((prebuild book_store n >> drive book_store m) (c, b))
drive-Agree n m c w b h =
    then-Sim (prebuild-Sim n) (drive-Sim m) (c, w) (c, b) (record { driver = refl; books = h })
