-- ===== src/Base/Pages.antt =====
-- The pages of a listing: `let offset = ((page - 1) * page_size) as i64`, in u32 without overflow
-- checks, then LIMIT page_size OFFSET offset.
use Prim.Native.Nat.{ℕ, ◌+◌, ◌-◌, ◌*◌, ◌%◌}
use mathlib.Core.List.{List}
use package.knox_iam_public.Base.Lists.{take, drop}

abbrev pub u32_modulus : ℕ
u32_modulus = 4294967296

unfoldable pub page_offset : ℕ → ℕ → ℕ
page_offset page page_size = ((page + (u32_modulus - 1)) % u32_modulus * page_size) % u32_modulus

unfoldable pub page_rows : {A : Type 0} → ℕ → ℕ → List A → List A
unfolding page_offset
page_rows page page_size rows = take page_size (drop (page_offset page page_size) rows)
