-- ===== src/Server/Same.antt =====
-- States between which storage calls only failed or answered.
use knox_iam_public.Base.{◌≡◌, refl, ap, ◌∙◌, Bool, true, false, not, List, nat_eq, string_eq}
use knox_iam_public.Externals.{Externals}
use knox_iam_public.World.{World}

-- Nothing but storage calls that failed or answered.
abbrev pub Same : {ext : Externals} → World ext → World ext → Type 0
Same w w' = (os : List Bool) × (w' ≡ record w { outages = os })

-- Nothing at all has changed.
pub Same-eq : {ext : Externals} {w w' : World ext} → w' ≡ w → Same w w'
Same-eq {w = w} e = (w.outages, e)

pub Same-trans : {ext : Externals} (u v w : World ext) → Same u v → Same v w → Same u w
Same-trans {ext} u v w (a, e) (b, f) =
    (b, f ∙ ap {A = World ext} {B = World ext} (λ x. record x { outages = b }) e)

pub not-false : (b : Bool) → not b ≡ false → b ≡ true
not-false true h = refl
not-false false h = cc
