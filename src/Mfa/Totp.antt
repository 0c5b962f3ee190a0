-- ===== src/Mfa/Totp.antt =====
-- crates/knox-core/src/mfa.rs: the drift window of TOTP codes and the normalisation of backup codes.
use Prim.Native.Char.{code}
use knox_iam_public.Base.{
  ℕ, ◌+◌, ◌-◌, ◌/◌, String, Option, none, some, List, [], ◌∷◌, ◌++◌, ◌==◌, nat_eq, string_eq, leb,
  if◌then◌else◌,
}
use knox_iam_public.Common.Error.{ServiceError}
use knox_iam_public.Externals.{Externals}
use knox_iam_public.World.{Action, pure, or_fail, ◌>>=◌}

abbrev pub totp_step_seconds : ℕ
totp_step_seconds = 30

-- The times `at_unix + offset * 30` for the offsets -1, 0 and 1, less a negative one.
abbrev pub window : ℕ → List ℕ
window at_unix =
    (if leb totp_step_seconds at_unix then (at_unix - totp_step_seconds) ∷ [] else [])
    ++ at_unix ∷ (at_unix + totp_step_seconds) ∷ []

module _ (ext : Externals) where
  -- The loop over the window.
  unfoldable pub first_match : String → String → List ℕ → Option ℕ
  first_match secret code [] = none
  first_match secret code (t ∷ ts) =
      if ext.totp_generate secret t == code
      then some (t / totp_step_seconds)
      else first_match secret code ts

  unfoldable pub totp_matched_step : String → String → ℕ → Action ext (Option ℕ)
  unfolding first_match
  totp_matched_step secret_b32 code at_unix = do
    secret ← or_fail (ext.totp_bytes secret_b32) (ServiceError.internal "Corrupt TOTP secret")
    pure (first_match secret code (window at_unix))

  -- `replace('-', "")`
  unfoldable pub remove_dashes : String → String
  remove_dashes String.[] = String.[]
  remove_dashes (String.◌∷◌ c s) =
      let rest = remove_dashes s in if code c == b'-' then rest else String.◌∷◌ c rest

  unfoldable pub hash_backup_code : String → String
  unfolding remove_dashes
  hash_backup_code code = ext.sha256_hex (ext.to_uppercase (remove_dashes (ext.trim code)))
