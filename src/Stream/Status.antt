-- ===== src/Stream/Status.antt =====
-- crates/lightr-cri-stream/src/status.rs: the `metav1.Status` that ends an exec or attach session.
-- `serde_json::to_vec` is a parameter.
use lightr_cri.Prelude.{List, [], ◌∷◌, ◌++◌, ℕ, zero, suc, Option, none, some}
use lightr_cri.Prelude.Text.{Text, codes, decimal}
use lightr_cri.Backend.{ℤ, pos, negsuc}

pub record Cause : Type 0 where
  pub typ : Text
  pub message : Text

pub record Details : Type 0 where
  pub causes : List Cause

-- `metadata` is the empty object, always.
pub record Status : Type 0 where
  pub status : Text
  pub message : Option Text
  pub reason : Option Text
  pub details : Option Details

-- `{n}` of an i32.
unfoldable pub decimal_int : ℤ → Text
decimal_int (pos n) = decimal n
decimal_int (negsuc n) = codes "-" ++ decimal (suc n)

abbrev pub success : Status
success = record { status = codes "Success"; message = none; reason = none; details = none }

abbrev pub failure : ℤ → Status
failure exit_code = record {
  status = codes "Failure";
  message = some (
      codes "command terminated with non-zero exit code: error executing command, exit status "
      ++ decimal_int exit_code);
  reason = some (codes "NonZeroExitCode");
  details = some (record {
    causes = (record { typ = codes "ExitCode"; message = decimal_int exit_code }) ∷ [];
  });
}

unfoldable pub exit_status : ℤ → Status
exit_status (pos zero) = success
exit_status (pos (suc n)) = failure (pos (suc n))
exit_status (negsuc n) = failure (negsuc n)

unfoldable pub exit_status_json : (Status → List ℕ) → ℤ → List ℕ
exit_status_json to_vec exit_code = to_vec (exit_status exit_code)
