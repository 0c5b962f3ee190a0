-- ===== src/Mfa/Store.antt =====
-- crates/knox-storage/src/mfa/store.rs: `PgMfaStore`, the tables mfa_methods and mfa_backup_codes.
-- The cache of verified methods in front of it is left out.
use knox_iam_public.Base.{
  ℕ, suc, String, Bool, true, false, ◌&&◌, not, Option, none, some, List, [], ◌∷◌, ◌++◌, ◌==◌,
  nat_eq, string_eq, find_latest, filter, map, count, update_where, any, is_some, ltb,
  if◌then◌else◌, any,
}
use knox_iam_public.Common.Error.{RepositoryError, ServiceError}
use knox_iam_public.Common.Directory.{Uuid}
use knox_iam_public.Common.Mfa.{MfaMethod, MfaMethodKind, BackupCode}
use knox_iam_public.Externals.{Externals}
use knox_iam_public.World.{Action, storage, ok, err}

abbrev pub same_kind : MfaMethodKind → MfaMethodKind → Bool
same_kind MfaMethodKind.totp MfaMethodKind.totp = true
same_kind MfaMethodKind.web_authn MfaMethodKind.web_authn = true
same_kind MfaMethodKind.sms MfaMethodKind.sms = true
same_kind _ _ = false

-- Totp and Sms: at most one row for an identity, by unique indexes.
abbrev pub is_singleton : MfaMethodKind → Bool
is_singleton MfaMethodKind.web_authn = false
is_singleton _ = true

abbrev pub is_verified : MfaMethod → Bool
is_verified m = is_some m.verified_at

abbrev pub of_identity : Uuid → Uuid → MfaMethod → Bool
of_identity tenant_id identity_id m = m.tenant_id == tenant_id && m.identity_id == identity_id

abbrev pub with_id : Uuid → Uuid → MfaMethod → Bool
with_id tenant_id method_id m = m.tenant_id == tenant_id && m.id == method_id

-- last_used_step IS NULL OR last_used_step < $3
abbrev pub is_older : Option ℕ → ℕ → Bool
is_older none step = true
is_older (some last) step = ltb last step

abbrev pub claimable : Uuid → Uuid → ℕ → MfaMethod → Bool
claimable tenant_id method_id step m =
    with_id tenant_id method_id m && is_older m.last_used_step step

abbrev pub claim : ℕ → ℕ → MfaMethod → MfaMethod
claim now step m = record m { last_used_step = some step; last_used_at = some now }

abbrev pub code_of : Uuid → Uuid → BackupCode → Bool
code_of tenant_id identity_id c = c.tenant_id == tenant_id && c.identity_id == identity_id

abbrev pub unused_code : Uuid → Uuid → String → BackupCode → Bool
unused_code tenant_id identity_id code_hash c =
    code_of tenant_id identity_id c && c.code_hash == code_hash && not (is_some c.used_at)

abbrev pub replaced_by : Uuid → Uuid → MfaMethodKind → MfaMethod → Bool
replaced_by tenant_id identity_id kind m =
    of_identity tenant_id identity_id m && same_kind m.method kind && not (is_verified m)

module _ (ext : Externals) where
  -- DELETE of the unverified rows and INSERT, in one transaction. The row's id is a fresh UUID.
  unfoldable pub create_method : Uuid → Uuid → MfaMethodKind → Option String → Action ext MfaMethod
  create_method tenant_id identity_id kind secret_enc = storage λ w.
      let kept =
        if is_singleton kind
        then filter (λ m. not (replaced_by tenant_id identity_id kind m)) w.mfa_methods
        else w.mfa_methods in
      let created : MfaMethod = record {
        id = ext.new_v4 w.draws;
        tenant_id = tenant_id;
        identity_id = identity_id;
        method = kind;
        secret_enc = secret_enc;
        last_used_step = none;
        verified_at = none;
        last_used_at = none;
        created_at = w.now;
      } in
      if is_singleton kind
        && any (λ m. of_identity tenant_id identity_id m && same_kind m.method kind) kept
      then (err (ServiceError.repository RepositoryError.duplicate), w)
      else (ok created, record w { draws = suc w.draws; mfa_methods = kept ++ created ∷ [] })

  unfoldable pub get_method_by_kind : Uuid → Uuid → MfaMethodKind → Action ext (Option MfaMethod)
  get_method_by_kind tenant_id identity_id kind = storage λ w. (
    ok (
        find_latest (λ m. of_identity tenant_id identity_id m && same_kind m.method kind)
          (λ m. m.created_at) w.mfa_methods),
    w,
  )

  -- The rows stand in the order of their insertion, which is that of created_at.
  unfoldable pub list_methods : Uuid → Uuid → Action ext (List MfaMethod)
  list_methods tenant_id identity_id =
      storage λ w. (ok (filter (of_identity tenant_id identity_id) w.mfa_methods), w)

  unfoldable pub list_verified_methods : Uuid → Uuid → Action ext (List MfaMethod)
  list_verified_methods tenant_id identity_id = storage λ w.
      (ok (filter (λ m. of_identity tenant_id identity_id m && is_verified m) w.mfa_methods), w)

  unfoldable pub mark_verified : Uuid → Uuid → Action ext (Unit {0})
  mark_verified tenant_id method_id = storage λ w.
      if any (with_id tenant_id method_id) w.mfa_methods
      then (
        ok tt,
        record w {
          mfa_methods =
              update_where (with_id tenant_id method_id)
                (λ m. record m { verified_at = some w.now }) w.mfa_methods;
        },
      )
      else (err (ServiceError.repository RepositoryError.not_found), w)

  unfoldable pub delete_method : Uuid → Uuid → Uuid → Action ext (Unit {0})
  delete_method tenant_id identity_id method_id = storage λ w.
      let hit = λ (m : MfaMethod). of_identity tenant_id identity_id m && m.id == method_id in
      if any hit w.mfa_methods
      then (ok tt, record w { mfa_methods = filter (λ m. not (hit m)) w.mfa_methods })
      else (err (ServiceError.repository RepositoryError.not_found), w)

  unfoldable pub claim_totp_step : Uuid → Uuid → ℕ → Action ext Bool
  claim_totp_step tenant_id method_id step = storage λ w. (
    ok (any (claimable tenant_id method_id step) w.mfa_methods),
    record w {
      mfa_methods =
          update_where (claimable tenant_id method_id step) (claim w.now step) w.mfa_methods;
    },
  )

  -- DELETE and INSERT of unused rows, in one transaction.
  unfoldable pub replace_backup_codes : Uuid → Uuid → List String → Action ext (Unit {0})
  replace_backup_codes tenant_id identity_id code_hashes = storage λ w.
      let fresh : List BackupCode =
        map
          (λ h. record {
            tenant_id = tenant_id;
            identity_id = identity_id;
            code_hash = h;
            used_at = none;
          })
          code_hashes in
      (
        ok tt,
        record w {
          backup_codes =
              filter (λ c. not (code_of tenant_id identity_id c)) w.backup_codes ++ fresh;
        },
      )

  unfoldable pub consume_backup_code : Uuid → Uuid → String → Action ext Bool
  consume_backup_code tenant_id identity_id code_hash = storage λ w. (
    ok (any (unused_code tenant_id identity_id code_hash) w.backup_codes),
    record w {
      backup_codes =
          update_where (unused_code tenant_id identity_id code_hash)
            (λ c. record c { used_at = some w.now }) w.backup_codes;
    },
  )

  unfoldable pub count_unused_backup_codes : Uuid → Uuid → Action ext ℕ
  count_unused_backup_codes tenant_id identity_id = storage λ w. (
    ok (count (λ c. code_of tenant_id identity_id c && not (is_some c.used_at)) w.backup_codes),
    w,
  )

  unfoldable pub delete_backup_codes : Uuid → Uuid → Action ext (Unit {0})
  delete_backup_codes tenant_id identity_id = storage λ w. (
    ok tt,
    record w { backup_codes = filter (λ c. not (code_of tenant_id identity_id c)) w.backup_codes },
  )
