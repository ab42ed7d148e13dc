-- ===== src/Scorer/Errors.antt =====
-- The errors of the scorer: an error with its message, or the panic of a nil pointer.
use notmanytuples.Prelude.{String, Option, none, some}
use notmanytuples.Prelude.Text.{◌<>◌}
use notmanytuples.Result.{Result, ok, err}

pub data Error : Type 0 where
  failed : String → Error
  nil_pointer : Error

-- `errors.Wrap(err, message)`; a panic is not an error that can be wrapped.
unfoldable pub wrap_error : String → Error → Error
wrap_error message (failed e) = failed (message <> ": " <> e)
wrap_error message nil_pointer = nil_pointer

unfoldable pub wrap {ℓ} : {A : Type ℓ} → String → Result Error A → Result Error A
unfolding wrap_error
wrap message (ok a) = ok a
wrap message (err e) = err (wrap_error message e)

-- `*p`.
unfoldable pub deref {ℓ} : {A : Type ℓ} → Option A → Result Error A
deref none = err nil_pointer
deref (some a) = ok a
