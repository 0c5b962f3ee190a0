-- ===== src/Token/Families.antt =====
-- crates/knox-storage/src/token/store.rs: what the commands do to the live tokens of a family.
use knox_iam_public.Base.{
  ◌≡◌, ◌≢◌, refl, sym, subst, ℕ, suc, ◌≤◌, Bool, false, some, List, [], ◌∷◌, count, find,
  update_where, nat_eq, string_eq, arith, Bool-cases, inl, inr, is_some,
}
use knox_iam_public.Base.Rows.{count-update_where_none}
use knox_iam_public.Common.Directory.{Uuid}
use knox_iam_public.Common.Token.{RefreshToken}
use knox_iam_public.Token.Store.{set_revoked, live_with_id, live_in_family}

-- The live tokens of a family.
abbrev pub live_count : Uuid → List RefreshToken → ℕ
live_count family_id rows = count (live_in_family family_id) rows

-- Revoking rows makes no row live.
pub live_count-revoke :
    (p : RefreshToken → Bool) (now : ℕ) (family_id : Uuid) (rows : List RefreshToken)
    → live_count family_id (update_where p (set_revoked now) rows) ≤ live_count family_id rows
live_count-revoke p now f [] = omega arith
live_count-revoke p now f (r ∷ rows) = let ih = live_count-revoke p now f rows in ground arith

-- Revoking a family leaves no live token in it.
pub live_count-revoke_family :
    (now : ℕ) (family_id : Uuid) (rows : List RefreshToken)
    → live_count family_id (update_where (live_in_family family_id) (set_revoked now) rows) ≡ 0
live_count-revoke_family now f rows =
    count-update_where_none (live_in_family f) (set_revoked now) (λ r _. ground arith) rows

-- Revoking a live token takes it from its family's live tokens.
live_count-revoke_head :
    (now : ℕ) (token : RefreshToken) (rows : List RefreshToken)
    → is_some token.revoked_at ≡ false
    → suc (
        live_count token.family_id
          (update_where (live_with_id token.id) (set_revoked now) (token ∷ rows)))
      ≤ live_count token.family_id (token ∷ rows)
live_count-revoke_head now token rows live =
    let h = live_count-revoke (live_with_id token.id) now token.family_id rows in
    let i = (nat_eq.eqb_iff token.id token.id).1 refl in
    let j = (nat_eq.eqb_iff token.family_id token.family_id).1 refl in
    simp (i, j, live) (omega (arith, h))

pub live_count-revoke_found :
    (now : ℕ) (p : RefreshToken → Bool) (token : RefreshToken) (rows : List RefreshToken)
    → find p rows ≡ some token
    → is_some token.revoked_at ≡ false
    → suc (live_count token.family_id (update_where (live_with_id token.id) (set_revoked now) rows))
      ≤ live_count token.family_id rows
live_count-revoke_found now p token [] e live = cc
live_count-revoke_found now p token (r ∷ rows) e live = elim (Bool-cases (p r)) [
  | inl h ↦
      let r_is_token : r ≡ token = ground arith in
      subst
        (λ r.
          suc (
            live_count token.family_id
              (update_where (live_with_id token.id) (set_revoked now) (r ∷ rows)))
          ≤ live_count token.family_id (r ∷ rows))
        (sym r_is_token) (live_count-revoke_head now token rows live)
  | inr h ↦ let ih = live_count-revoke_found now p token rows (ground arith) live in ground arith
]

pub live_count-other :
    (token : RefreshToken) (rows : List RefreshToken) (g : Uuid)
    → token.family_id ≢ g
    → live_count g (token ∷ rows) ≡ live_count g rows
live_count-other token rows g ne = ground (arith, (nat_eq.eqb_iff token.family_id g).0)

pub live_count-add :
    (token : RefreshToken) (rows : List RefreshToken) (g : Uuid)
    → live_count g (token ∷ rows) ≤ suc (live_count g rows)
live_count-add token rows g = ground arith
