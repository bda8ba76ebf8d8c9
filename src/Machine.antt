-- ===== src/Machine.antt =====
-- What a call of the crates runs in: the state of the kernel, the memory of the C caller and the
-- lines given to the logger, with the ways in which Rust code ends. No file of the repository
-- declares these; nsm-driver/src/lib.rs and nsm-lib/src/lib.rs act on them.
pub mod Memory
use aws_nitro_enclaves_nsm_a.Base.{ℕ, Option, none, some, List, ◌∷◌, Result}
use aws_nitro_enclaves_nsm_a.Base.Ints.{ℤ}

-- `log::debug!` and `log::error!` of nsm_init and nsm_exit; an error of the system is its number.
pub data LogLine : Type 0 where
  opened : LogLine
  failed_to_open : ℕ → LogLine
  closed : ℤ → LogLine
  failed_to_close : ℤ → ℕ → LogLine

pub record World (K : Type 0) : Type 0 where
  pub kernel : K
  pub memory : Memory.Memory ℕ
  pub log : List LogLine

pub data Panic : Type 0 where
  unwrap_failed index_out_of_bounds assertion_failed overflow : Panic

-- `ok` returns; `panic` unwinds with what was done before it; `fault` is undefined behaviour.
pub data Outcome (K A : Type 0) : Type 0 where
  ok : A → World K → Outcome K A
  panic : Panic → World K → Outcome K A
  fault : Outcome K A

abbrev pub Cmd : Type 0 → Type 0 → Type 0
Cmd K A = World K → Outcome K A

module _ {K A : Type 0} where
  abbrev pub pure : A → Cmd K A
  pure = ok

  abbrev pub panics : Panic → Cmd K A
  panics = panic

  abbrev pub faults : Cmd K A
  faults w = fault

  -- `option.unwrap()` and `result.unwrap()`.
  abbrev pub unwrap : Option A → Cmd K A
  unwrap none = panics unwrap_failed
  unwrap (some a) = pure a

  abbrev pub unwrap_ok {κ} : {E : Type κ} → Result A E → Cmd K A
  unwrap_ok (Result.ok a) = pure a
  unwrap_ok (Result.err e) = panics unwrap_failed

  -- An access that is undefined behaviour unless there is a value.
  abbrev pub access : Option A → Cmd K A
  access none = faults
  access (some a) = pure a

abbrev pub and_then : {K A B : Type 0} → Outcome K A → (A → Cmd K B) → Outcome K B
and_then (ok a w) f = f a w
and_then (panic p w) f = panic p w
and_then fault f = fault

infixl 5 ◌>>=◌ ◌>>◌
abbrev pub ◌>>=◌ : {K A B : Type 0} → Cmd K A → (A → Cmd K B) → Cmd K B
m >>= f = λ w. and_then (m w) f

abbrev pub ◌>>◌ : {K A B : Type 0} → Cmd K A → Cmd K B → Cmd K B
m >> k = m >>= λ _. k

abbrev pub log_line : {K : Type 0} → LogLine → Cmd K (Unit {0})
log_line l w = ok tt (record w { log = l ∷ w.log })

abbrev pub get_memory : {K : Type 0} → Cmd K (Memory.Memory ℕ)
get_memory w = ok w.memory w

abbrev pub set_memory : {K : Type 0} → Memory.Memory ℕ → Cmd K (Unit {0})
set_memory m w = ok tt (record w { memory = m })
