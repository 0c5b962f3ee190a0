-- ===== src/Mfa/Window.antt =====
-- crates/knox-core/src/mfa.rs: which TOTP codes `totp_matched_step` finds.
use knox_iam_public.Base.{
  ◌≡◌, refl, sym, ◌∙◌, ap, subst, ℕ, ◌+◌, ◌-◌, ◌/◌, Bool, true, false, Option, none, some, String,
  List, [], ◌∷◌, ◌++◌, arith, ◌==◌, string_eq, leb, Bool-cases, ◌⊎◌, ◌↔◌, inl, inr, if◌then◌else◌,
  All,
}
use knox_iam_public.Externals.{Externals}
use knox_iam_public.World.{World, ok}
use knox_iam_public.World.Laws.{>>=-eq-ok, pure-eq-ok, or_fail-eq-ok}
use knox_iam_public.Mfa.Totp.{first_match, totp_matched_step, window}

-- The times one step before, at and one step after `now`.
abbrev pub IsCandidate : ℕ → ℕ → Type 0
IsCandidate now t = (t + 30 ≡ now) ⊎ (t ≡ now) ⊎ (t ≡ now + 30)

-- The window as one condition on its times.
window-All :
    (P : ℕ → Type 0) (now : ℕ)
    → All P (window now) ↔ (((leb 30 now ≡ true) → P (now - 30)) × P now × P (now + 30))
window-All P now = go (leb 30 now)
  where
    go :
        (b : Bool)
        → All P ((if b then (now - 30) ∷ [] else []) ++ now ∷ (now + 30) ∷ [])
          ↔ (((b ≡ true) → P (now - 30)) × P now × P (now + 30))
    go true = (λ h. (λ _. h.0, h.1.0, h.1.1.0), λ h. (h.0 refl, (h.1, (h.2, tt))))
    go false = (λ h. (λ e. absurd (ground arith), h.0, h.1.0), λ h. (h.1, (h.2, tt)))

candidates : (now : ℕ) → All (IsCandidate now) (window now)
candidates now =
    (window-All (IsCandidate now) now).1 (λ e. inl (ground arith), inr (inl refl), inr (inr refl))

All-candidate : (P : ℕ → Type 0) (now t : ℕ) → All P (window now) → IsCandidate now t → P t
All-candidate P now t h (inl e) = subst P (ground arith) (((window-All P now).0 h).0 (ground arith))
All-candidate P now t h (inr (inl e)) = subst P (sym e) (((window-All P now).0 h).1)
All-candidate P now t h (inr (inr e)) = subst P (sym e) (((window-All P now).0 h).2)

module _ (ext : Externals) where
  -- What an answer of the drift window says: the step of a time whose code it is, or that no time
  -- of the three has this code.
  pub data IsMatch (secret code : String) (now : ℕ) : Option ℕ → Type 0 where
    found :
        (t : ℕ)
        → IsCandidate now t
        → ext.totp_generate secret t ≡ code
        → IsMatch secret code now (some (t / 30))
    missed :
        ((t : ℕ) → IsCandidate now t → ¬ (ext.totp_generate secret t ≡ code))
        → IsMatch secret code now none

  found-IsMatch :
      (secret code : String) (now step : ℕ) (ts : List ℕ)
      → All (IsCandidate now) ts
      → first_match ext secret code ts ≡ some step
      → IsMatch secret code now (some step)
  unfolding first_match
  found-IsMatch secret code now step [] near h = cc
  found-IsMatch secret code now step (t ∷ ts) (c, near) h =
      let ih = found-IsMatch secret code now step ts near in
      elim (Bool-cases (ext.totp_generate secret t == code)) [
        | inl e ↦
            let here : some (t / 30) ≡ some step =
              sym (ap (λ b. if b then some (t / 30) else first_match ext secret code ts) e) ∙ h in
            subst (IsMatch secret code now) here
              (IsMatch.found t c ((string_eq.eqb_iff (ext.totp_generate secret t) code).0 e))
        | inr e ↦
            ih (sym (ap (λ b. if b then some (t / 30) else first_match ext secret code ts) e) ∙ h)
      ]

  missed-All :
      (secret code : String) (ts : List ℕ)
      → first_match ext secret code ts ≡ none
      → All (λ t. ¬ (ext.totp_generate secret t ≡ code)) ts
  unfolding first_match
  missed-All secret code [] h = tt
  missed-All secret code (t ∷ ts) h =
      let ih = missed-All secret code ts in
      elim (Bool-cases (ext.totp_generate secret t == code)) [
        | inl e ↦
            let q =
              sym (ap (λ b. if b then some (t / 30) else first_match ext secret code ts) e) ∙ h in
            cc
        | inr e ↦ (
          λ k. let q = (string_eq.eqb_iff (ext.totp_generate secret t) code).1 k in cc,
          ih (sym (ap (λ b. if b then some (t / 30) else first_match ext secret code ts) e) ∙ h),
        )
      ]

  answer-IsMatch :
      (secret code : String) (now : ℕ) (o : Option ℕ)
      → first_match ext secret code (window now) ≡ o
      → IsMatch secret code now o
  answer-IsMatch secret code now none h = IsMatch.missed (λ t.
      All-candidate (λ u. ¬ (ext.totp_generate secret u ≡ code)) now t
        (missed-All secret code (window now) h))
  answer-IsMatch secret code now (some step) h =
      found-IsMatch secret code now step (window now) (candidates now) h

module _ {ext : Externals} where
  -- The step that a TOTP check answers is that of a time at most one step before or after the
  -- present whose code is the given one, and where it answers none, no such time has this code.
  pub totp_matched_step-IsMatch :
      (secret_b32 code : String) (now : ℕ) (w : World ext) {o : Option ℕ} {w' : World ext}
      → totp_matched_step ext secret_b32 code now w ≡ (ok o, w')
      → (secret : String) × (ext.totp_bytes secret_b32 ≡ some secret)
        × IsMatch ext secret code now o
        × (w' ≡ w)
  unfolding totp_matched_step
  totp_matched_step-IsMatch secret_b32 code now w h =
      let (secret, w1, h1, k1) = >>=-eq-ok _ _ w h in
      let (e, s) = or_fail-eq-ok _ _ w h1 in
      let (answer, s') = pure-eq-ok _ w1 k1 in
      (secret, e, answer-IsMatch ext secret code now _ (sym answer), s' ∙ s)
