-- ===== src/Db/Handler.antt =====
-- A request handler: it reads and writes the database, and returns or throws. What was written
-- before a throw stays written, except inside `$transaction`.
use coloanex_prod.Common.{Bool, Option, String, false, if◌then◌else◌, none, some, true}
use coloanex_prod.Db.Rows.{Db}

-- The exceptions of @nestjs/common with their messages, and the errors that the Prisma client
-- documents: P2002 (unique constraint), P2003 (foreign key), P2025 (no such record), and the
-- validation error for a value outside an enum.
pub data Error : Type 0 where
  bad_request forbidden not_found internal : String → Error
  unique_violation foreign_key_violation record_not_found invalid_enum_value : Error

pub data Result (A : Type 0) : Type 0 where
  ok : A → Result A
  err : Error → Result A

abbrev pub Action : Type 0 → Type 0
Action A = Db → Result A × Db

module _ {A : Type 0} where
  abbrev pub pure : A → Action A
  pure a d = (ok a, d)

  abbrev pub throw : Error → Action A
  throw e d = (err e, d)

  abbrev pub gets : (Db → A) → Action A
  gets f d = (ok (f d), d)

  -- `const x = v; if (!x) throw e;`
  abbrev pub some_or_throw : Option A → Error → Action A
  some_or_throw none e d = (err e, d)
  some_or_throw (some a) e d = (ok a, d)

  -- `const row = await find(...); if (!row) throw e;`
  abbrev pub find_or_throw : (Db → Option A) → Error → Action A
  find_or_throw f e d = some_or_throw (f d) e d

  -- A value that must be there, kept as it is.
  abbrev pub or_throw : Option A → Error → Action (Option A)
  or_throw none e d = (err e, d)
  or_throw (some a) e d = (ok (some a), d)

  -- `$transaction`: an exception undoes the writes.
  abbrev pub transaction : Action A → Action A
  transaction m d = let (r, d') = m d in elim r [ ok a ↦ (ok a, d') | err e ↦ (err e, d) ]

-- What follows a part that returned; an exception ends the handler.
abbrev pub continue_with : {A B : Type 0} → Result A × Db → (A → Action B) → Result B × Db
continue_with (ok a, d) f = f a d
continue_with (err e, d) f = (err e, d)

infixl 5 ◌>>=◌ ◌>>◌
abbrev pub ◌>>=◌ : {A B : Type 0} → Action A → (A → Action B) → Action B
◌>>=◌ m f d = continue_with (m d) f

abbrev pub ◌>>◌ : {A B : Type 0} → Action A → Action B → Action B
m >> k = m >>= λ _. k

-- `if (c) throw e;`
abbrev pub throw_if : Bool → Error → Action (Unit {0})
throw_if c e d = (if c then err e else ok tt, d)

abbrev pub modify : (Db → Db) → Action (Unit {0})
modify f d = (ok tt, f d)

-- `if (c) await m;`
abbrev pub when : Bool → Action (Unit {0}) → Action (Unit {0})
when true m = m
when false m = pure tt
