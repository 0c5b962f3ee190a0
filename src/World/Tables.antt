-- ===== src/World/Tables.antt =====
-- The tables that a call leaves as they were.
use knox_iam_public.Base.{◌≡◌, refl, ◌∙◌, ◌≤◌, arith}
use knox_iam_public.Externals.{Externals}
use knox_iam_public.World.{World, held_by}
use knox_iam_public.World.Frame.{Relation}

module _ {ext : Externals} where
  -- Time stands still, the draws go on, and none of these tables changes.
  pub record SameTables (w w' : World ext) : Type 0 where
    pub draws : w.draws ≤ w'.draws
    pub now : w'.now ≡ w.now
    pub refresh_tokens : w'.refresh_tokens ≡ w.refresh_tokens
    pub identities : w'.identities ≡ w.identities
    pub clients : w'.clients ≡ w.clients
    pub permissions : held_by w' ≡ held_by w
    pub mfa_methods : w'.mfa_methods ≡ w.mfa_methods

  pub SameTables-trans : (u v w : World ext) → SameTables u v → SameTables v w → SameTables u w
  SameTables-trans u v w h k =
      let d1 = h.draws in
      let d2 = k.draws in
      record {
        draws = omega arith;
        now = k.now ∙ h.now;
        refresh_tokens = k.refresh_tokens ∙ h.refresh_tokens;
        identities = k.identities ∙ h.identities;
        clients = k.clients ∙ h.clients;
        permissions = k.permissions ∙ h.permissions;
        mfa_methods = k.mfa_methods ∙ h.mfa_methods;
      }

  pub SameTables-refl : (w : World ext) → SameTables w w
  SameTables-refl w = record {
    draws = omega arith;
    now = refl;
    refresh_tokens = refl;
    identities = refl;
    clients = refl;
    permissions = refl;
    mfa_methods = refl;
  }

abbrev pub same_tables : (ext : Externals) → Relation ext
same_tables ext = record {
  rel = SameTables;
  rel_refl = SameTables-refl;
  rel_trans = SameTables-trans;
  rel_outages = λ w os. record {
    draws = omega arith;
    now = refl;
    refresh_tokens = refl;
    identities = refl;
    clients = refl;
    permissions = refl;
    mfa_methods = refl;
  };
}
