-- ===== src/Mfa/Replay.antt =====
-- crates/knox-core/src/mfa.rs: second factors are accepted once.
use knox_iam_public.Base.{
  ◌≡◌, refl, sym, ◌∙◌, ap, ℕ, Bool, false, some, String, List, [], ◌∷◌, arith, any, update_where,
  nat_eq, string_eq, Bool-cases, inl, inr,
}
use knox_iam_public.Common.Directory.{Uuid}
use knox_iam_public.Common.Mfa.{BackupCode}
use knox_iam_public.Externals.{Externals}
use knox_iam_public.World.{World, ok}
use knox_iam_public.World.Laws.{>>=-eq-ok, storage-eq-ok, fail_if-eq-ok}
use knox_iam_public.Mfa.Store.{unused_code, consume_backup_code}
use knox_iam_public.Mfa.Totp.{hash_backup_code}
use knox_iam_public.Mfa.Service.{verify_backup_code}

-- Once a code has been used, no row of it is unused.
used_once :
    (tenant_id identity_id : Uuid) (hash : String) (now : ℕ) (rows : List BackupCode)
    → any (unused_code tenant_id identity_id hash) (
        update_where
          (unused_code tenant_id identity_id hash)
          (λ c. record c { used_at = some now })
          rows)
      ≡ false
used_once tenant_id identity_id hash now [] = refl
used_once tenant_id identity_id hash now (c ∷ rows) =
    let ih = used_once tenant_id identity_id hash now rows in
    elim (Bool-cases (unused_code tenant_id identity_id hash c)) [
      | inl e ↦ rw e (ground arith)
      | inr e ↦ rw (e, e, ih) refl
    ]

module _ {ext : Externals} where
  consume_backup_code-eq-ok :
      (tenant_id identity_id : Uuid) (hash : String) (w : World ext) {b : Bool} {w' : World ext}
      → consume_backup_code ext tenant_id identity_id hash w ≡ (ok b, w')
      → (b ≡ any (unused_code tenant_id identity_id hash) w.backup_codes)
        × (w'.backup_codes
            ≡ update_where
                (unused_code tenant_id identity_id hash)
                (λ c. record c { used_at = some w.now })
                w.backup_codes)
  unfolding consume_backup_code
  consume_backup_code-eq-ok tenant_id identity_id hash w h =
      let (rest, e) = storage-eq-ok _ w h in (cc, ap (λ p. p.1.backup_codes) (sym e))

  -- A backup code that was accepted is not accepted again, however it is written, while the table
  -- of codes is otherwise unchanged.
  pub verify_backup_code_once :
      (tenant_id identity_id : Uuid) (code code2 : String) (w v : World ext) {u : Unit {0}}
      {w' : World ext}
      → verify_backup_code ext tenant_id identity_id code w ≡ (ok u, w')
      → v.backup_codes ≡ w'.backup_codes
      → hash_backup_code ext code2 ≡ hash_backup_code ext code
      → (v' : World ext) → ¬ (verify_backup_code ext tenant_id identity_id code2 v ≡ (ok tt, v'))
  unfolding verify_backup_code
  verify_backup_code_once tenant_id identity_id code code2 w v h same hash v' k =
      let (b, w1, h1, k1) = >>=-eq-ok _ _ w h in
      let (c, v1, h2, k2) = >>=-eq-ok _ _ v k in
      let (_, s1) = fail_if-eq-ok _ _ w1 k1 in
      let (e2, _) = fail_if-eq-ok _ _ v1 k2 in
      let (_, e) =
        consume_backup_code-eq-ok tenant_id identity_id (hash_backup_code ext code) w h1 in
      let (e', _) =
        consume_backup_code-eq-ok tenant_id identity_id (hash_backup_code ext code2) v h2 in
      let spent =
        used_once tenant_id identity_id (hash_backup_code ext code) w.now w.backup_codes in
      let unused : c ≡ false =
        e'
        ∙ (λ i.
            any (unused_code tenant_id identity_id (hash i))
              ((same ∙ ap (λ x. x.backup_codes) s1 ∙ e) i))
        ∙ spent in
      ground arith
