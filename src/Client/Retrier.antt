-- ===== src/Client/Retrier.antt =====
-- `Retrier` of client/retrier.go. The backoff and the filter are functions, as in the source; the
-- count is below the limit, an int64, where it grows, so that it does not wrap around.
use cable.Prelude.{ℕ, ◌+◌, Bool, true, Option, none, some, if◌then◌else◌, leb}
use cable.Prelude.Words.{ℤ, pos, negsuc}
use cable.Errors.{Error}

pub record Retrier : Type 0 where
  pub limit : ℤ
  pub count : ℕ
  pub filter : Option (Error → Bool)
  pub backoff : ℕ → ℤ

-- `r.count.Load() >= r.limit`
unfoldable pub is_used_up : Retrier → Bool
is_used_up r = elim r.limit [ pos n ↦ leb n r.count | negsuc n ↦ true ]

unfoldable pub take_turn : Retrier → Option ℤ × Retrier
take_turn r =
    if is_used_up r
    then (none, r)
    else (some (r.backoff (r.count + 1)), record r { count = r.count + 1 })

-- The delay, if there is another try.
unfoldable pub retry : Error → Retrier → Option ℤ × Retrier
retry reason r = elim r.filter [
  | none ↦ take_turn r
  | some f ↦ if f reason then (none, r) else take_turn r
]

unfoldable pub reset : Retrier → Retrier
reset r = record r { count = 0 }
