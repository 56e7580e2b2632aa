-- ===== src/Prelude/Exec.antt =====
-- Asynchronous methods of an object, run in order: what was written before a throw stays written. The
-- error is the message of what was thrown.
use Prim.Native.String.{String}
use cashblocks.Prelude.Result.{Result, ok, err}

abbrev pub Exec : Type 0 → Type 0 → Type 0
Exec S A = S → Result String A × S

module _ {S A : Type 0} where
  abbrev pub return : A → Exec S A
  return value s = (ok value, s)

  abbrev pub throw : String → Exec S A
  throw message s = (err message, s)

  abbrev pub reads : (S → A) → Exec S A
  reads read s = (ok (read s), s)

  -- `catch`: the handler sees what the body wrote.
  abbrev pub recover : Result String A × S → (String → Exec S A) → Result String A × S
  recover (ok value, s) handler = (ok value, s)
  recover (err message, s) handler = handler message s

abbrev pub updates : {S : Type 0} → (S → S) → Exec S (Unit {0})
updates write s = (ok tt, write s)

module _ {S A B : Type 0} where
  unfoldable pub proceed : Result String A × S → (A → Exec S B) → Result String B × S
  proceed (err message, s) rest = (err message, s)
  proceed (ok value, s) rest = rest value s

  infixl 10 ◌>>=◌ ◌>>◌
  abbrev pub ◌>>=◌ : Exec S A → (A → Exec S B) → Exec S B
  ◌>>=◌ action rest s = proceed (action s) rest

  abbrev pub ◌>>◌ : Exec S A → Exec S B → Exec S B
  action >> rest = action >>= λ _. rest
