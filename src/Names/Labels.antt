-- ===== src/Names/Labels.antt =====
-- crates/knox-core/src/tenant.rs and client.rs: the labels that slugs and client names are.
use Prim.Native.Char.{Char, code}
use Prim.Native.String.{len}
use knox_iam_public.Base.{
  all_chars, ◌≡◌, refl, ◌≤◌, ◌↔◌, String, true, false, arith, nat_eq, Bool-cases, inl, inr,
}
use knox_iam_public.Names.{
  is_dash, is_lower_alphanumeric, is_label_char, is_ascii_digit, starts_with, starts_with_dash,
  ends_with_dash, has_double_dash, is_valid_client_name, is_valid_slug,
}

-- Words of small letters and digits with single dashes between them.
pub data IsLabel : String → Type 0 where
  one : (c : Char) → is_lower_alphanumeric (code c) ≡ true → IsLabel (String.◌∷◌ c String.[])
  more :
      (c d : Char) (s : String)
      → is_lower_alphanumeric (code c) ≡ true
      → IsLabel (String.◌∷◌ d s)
      → IsLabel (String.◌∷◌ c (String.◌∷◌ d s))
  dash :
      (c d e : Char) (s : String)
      → is_lower_alphanumeric (code c) ≡ true
      → code d ≡ b'-'
      → IsLabel (String.◌∷◌ e s)
      → IsLabel (String.◌∷◌ c (String.◌∷◌ d (String.◌∷◌ e s)))

-- What the checks on dashes and characters say together.
pub record IsChecked (s : String) : Type 0 where
  pub starts : starts_with_dash s ≡ false
  pub ends : ends_with_dash s ≡ false
  pub double : has_double_dash s ≡ false
  pub chars : all_chars is_label_char s ≡ true

label-IsChecked : (s : String) → IsLabel s → IsChecked s
unfolding ends_with_dash has_double_dash all_chars
label-IsChecked _ (IsLabel.one c h) = record {
  starts = ground arith;
  ends = ground arith;
  double = refl;
  chars = ground arith;
}
label-IsChecked _ (IsLabel.more c d s h l) =
    let ih = label-IsChecked _ l in
    let starts = ih.starts in
    let double = ih.double in
    let chars = ih.chars in
    record { starts = ground arith; ends = ih.ends; double = ground arith; chars = ground arith }
label-IsChecked _ (IsLabel.dash c d e s h k l) =
    let ih = label-IsChecked _ l in
    let starts = ih.starts in
    let double = ih.double in
    let chars = ih.chars in
    record { starts = ground arith; ends = ih.ends; double = ground arith; chars = ground arith }

checked-IsLabel : (c : Char) (s : String) → IsChecked (String.◌∷◌ c s) → IsLabel (String.◌∷◌ c s)
unfolding ends_with_dash has_double_dash all_chars
checked-IsLabel c String.[] h =
    let starts = h.starts in let chars = h.chars in IsLabel.one c (ground arith)
checked-IsLabel c (String.◌∷◌ d String.[]) h =
    let starts = h.starts in
    let chars = h.chars in
    let ends = h.ends in IsLabel.more c d String.[] (ground arith) (IsLabel.one d (ground arith))
checked-IsLabel c (String.◌∷◌ d (String.◌∷◌ e s)) h =
    let starts = h.starts in
    let chars = h.chars in
    let double = h.double in
    let ends = h.ends in
    let next = checked-IsLabel d (String.◌∷◌ e s) in
    let after = checked-IsLabel e s in
    elim (Bool-cases (is_dash (code d))) [
      | inl k ↦ IsLabel.dash c d e s (ground arith) (ground arith) (
          after (record {
            starts = ground arith;
            ends = ends;
            double = ground arith;
            chars = ground arith;
          }))
      | inr k ↦
          IsLabel.more c d (String.◌∷◌ e s) (ground arith)
            (next (record { starts = k; ends = ends; double = ground arith; chars = ground arith }))
    ]

long-IsLabel : (s : String) → 3 ≤ len s → IsChecked s → IsLabel s
long-IsLabel String.[] h k = absurd (omega arith)
long-IsLabel (String.◌∷◌ c s) h k = checked-IsLabel c s k

-- The accepted client names are exactly the words of small letters and digits with single dashes
-- between them, of 3 to 63 bytes.
pub is_valid_client_name-IsLabel :
    (name : String)
    → (is_valid_client_name name ≡ true) ↔ (IsLabel name × (3 ≤ len name) × (len name ≤ 63))
unfolding is_valid_client_name
is_valid_client_name-IsLabel name = (forth, back)
  where
    forth : is_valid_client_name name ≡ true → IsLabel name × (3 ≤ len name) × (len name ≤ 63)
    forth h =
        let low : 3 ≤ len name = ground arith in
        (
          long-IsLabel name low (record {
            starts = ground arith;
            ends = ground arith;
            double = ground arith;
            chars = ground arith;
          }),
          low,
          ground arith,
        )

    back : IsLabel name × (3 ≤ len name) × (len name ≤ 63) → is_valid_client_name name ≡ true
    back (label, low, high) =
        let k = label-IsChecked name label in
        let starts = k.starts in
        let ends = k.ends in let double = k.double in let chars = k.chars in ground arith

-- The accepted slugs are exactly the words of small letters and digits with single dashes between
-- them, of 3 to 63 bytes, that do not start with `xn-` and are not all digits.
pub is_valid_slug-IsLabel :
    (slug : String)
    → (is_valid_slug slug ≡ true) ↔ (
        IsLabel slug
        × (3 ≤ len slug)
        × (len slug ≤ 63)
        × (starts_with "xn-" slug ≡ false)
        × (all_chars is_ascii_digit slug ≡ false))
unfolding is_valid_slug
is_valid_slug-IsLabel slug = (forth, back)
  where
    forth :
        is_valid_slug slug ≡ true
        → IsLabel slug
          × (3 ≤ len slug)
          × (len slug ≤ 63)
          × (starts_with "xn-" slug ≡ false)
          × (all_chars is_ascii_digit slug ≡ false)
    forth h =
        let low : 3 ≤ len slug = ground arith in
        (
          long-IsLabel slug low (record {
            starts = ground arith;
            ends = ground arith;
            double = ground arith;
            chars = ground arith;
          }),
          low,
          ground arith,
          ground arith,
          ground arith,
        )

    back :
        IsLabel slug
          × (3 ≤ len slug)
          × (len slug ≤ 63)
          × (starts_with "xn-" slug ≡ false)
          × (all_chars is_ascii_digit slug ≡ false)
        → is_valid_slug slug ≡ true
    back (label, low, high, no_punycode, not_numeric) =
        let k = label-IsChecked slug label in
        let starts = k.starts in
        let ends = k.ends in let double = k.double in let chars = k.chars in ground arith
