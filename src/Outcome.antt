-- ===== src/Outcome.antt =====
-- Fallible code and code with effects, for both crates.
-- `Result` is `anyhow::Result`; the constructors of `Error` are the messages that the source builds
-- itself, `library` is an error of a crate that the source only calls, and `panicked` is a panic of
-- `unwrap`, which ends the task instead of returning.
-- `Run` is a computation whose visible effects (a sleep, a forwarded request, a command) stand in
-- front of its result, in the order in which they happen.
pub mod Results
pub mod Runs
pub mod Effects
pub mod Adds
use chaos_tproxy.Prelude.{Bool, true, false, String}

pub data Error : Type 0 where
  abort_applied empty_key invalid_cert invalid_key no_default_ipv4 ports_exhausted : Error
  no_valid_interface no_gateway config_file_required invalid_extension panicked : Error
  library : String → Error
  stderr : String → Error

-- A panic unwinds past the code that handles an error.
abbrev pub is_panic : Error → Bool
is_panic panicked = true
is_panic _ = false

pub data Result {ℓ} (X : Type ℓ) : Type ℓ where
  err : Error → Result X
  ok : X → Result X

pub data Run (E A : Type 0) : Type 0 where
  done : A → Run E A
  failed : Error → Run E A
  after : E → Run E A → Run E A
