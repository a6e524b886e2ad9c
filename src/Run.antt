-- ===== src/Run.antt =====
-- What a call of a C function comes to, over a state `S`: the monad of the models.
-- `died` is `exit(EXIT_FAILURE)` by UEHANDLE (system/include/dlog.h); shared memory outlives it.
-- `stuck` is a loop that never ends; `fault` is an access outside an object.

pub data Run (S A : Type 0) : Type 0 where
  ok : A → S → Run S A
  died : S → Run S A
  stuck : Run S A
  fault : Run S A

abbrev pub Cmd : Type 0 → Type 0 → Type 0
Cmd S A = S → Run S A

abbrev pub and_then : {S A B : Type 0} → Run S A → (A → Cmd S B) → Run S B
and_then (ok a s) k = k a s
and_then (died s) k = died s
and_then stuck k = stuck
and_then fault k = fault

infixl 5 ◌>>=◌ ◌>>◌
abbrev pub ◌>>=◌ : {S A B : Type 0} → Cmd S A → (A → Cmd S B) → Cmd S B
m >>= k = λ s. and_then (m s) k

abbrev pub ◌>>◌ : {S B : Type 0} → Cmd S (Unit {0}) → Cmd S B → Cmd S B
m >> k = m >>= λ _. k

abbrev pub get : {S : Type 0} → Cmd S S
get s = ok s s

abbrev pub put : {S : Type 0} → S → Cmd S (Unit {0})
put s _ = ok tt s

-- The results 0 and -1 of a C function.
pub data Status : Type 0 where
  done : Status
  failed : Status
