-- ===== src/Service/Reading.antt =====
-- The parts of a handler that read the database and write nothing.
use coloanex_prod.Common.{Option, arith, ◌∙◌, ◌≡◌}
use coloanex_prod.Db.{Action, Db, Result, ok, err, ◌>>=◌, Error, continue_with, find_or_throw}

-- A part of a handler that does not write.
abbrev pub IsReading : {A : Type 0} → Action A → Type 0
IsReading m = (d : Db) → (m d).1 ≡ d

continue_with-same :
    {A B : Type 0} (d : Db) (r : Result A × Db) (f : A → Action B)
    → r.1 ≡ d
    → ((a : A) → IsReading (f a))
    → (continue_with r f).1 ≡ d
continue_with-same d (ok a, d') f s k = k a d' ∙ s
continue_with-same d (err e, d') f s k = s

pub bind-IsReading :
    {A B : Type 0} (m : Action A) (f : A → Action B)
    → IsReading m
    → ((a : A) → IsReading (f a))
    → IsReading (m >>= f)
bind-IsReading m f h k d = continue_with-same d (m d) f (h d) k

pub find_or_throw-IsReading :
    {A : Type 0} (f : Db → Option A) (e : Error) → IsReading (find_or_throw f e)
find_or_throw-IsReading f e d = ground arith
