-- ===== src/Prelude/Strings.antt =====
-- Go strings as lists of bytes, with the operations of package strings that the program calls.
-- Case folding is that of ASCII: bytes from 128 on are left alone.
use Prim.Native.Char.{code}
use Prim.Native.String.{String}
use Prim.Native.Nat.{ℕ, zero, suc, ◌+◌, ◌-◌, ◌*◌, ◌/◌, ◌%◌, ◌≤◌}
use mathlib.Core.Path.{◌≡◌, refl, ap₂}
use mathlib.Core.Logic.{◌↔◌, ◌≢◌}
use mathlib.Core.Bool.{Bool, true, false, ◌&&◌, ◌||◌}
use mathlib.Core.Option.{Option, none, some}
use mathlib.Core.List.{List, [], ◌∷◌, ◌++◌, map, reverse}
use native.Mathlib.Omega.{arith}
use mathlib.Core.Path.{◌∙◌}
use mathlib.Core.Logic.{inl, inr}
use action_runner_cluster.Prelude.Tests.{
  if◌then◌else◌, leb, nat_beq, Comparable, Bool-cases, nat_beq_iff,
}

abbrev pub Text : Type 0
Text = List ℕ

-- The bytes of a literal in ASCII.
abbrev pub codes : String → Text
codes String.[] = []
codes (String.◌∷◌ c s) = code c ∷ codes s

abbrev pub text_beq : Text → Text → Bool
text_beq [] [] = true
text_beq [] (d ∷ t) = false
text_beq (c ∷ s) [] = false
text_beq (c ∷ s) (d ∷ t) = if nat_beq c d then text_beq s t else false

text_beq_sound : (s t : Text) → text_beq s t ≡ true → s ≡ t
text_beq_sound [] [] h = refl
text_beq_sound [] (d ∷ t) h = cc
text_beq_sound (c ∷ s) [] h = cc
text_beq_sound (c ∷ s) (d ∷ t) h = ground (arith, text_beq_sound s t)

text_beq_refl : (s : Text) → text_beq s s ≡ true
text_beq_refl [] = refl
text_beq_refl (c ∷ s) = ground (arith, text_beq_refl s)

pub text_beq_iff : (s t : Text) → (text_beq s t ≡ true) ↔ (s ≡ t)
text_beq_iff s t = (text_beq_sound s t, λ e. rw e (text_beq_refl t))

instance abbrev pub text_eq : Comparable Text
text_eq = record { same = text_beq; same_iff = text_beq_iff }

-- strings.ToLower
abbrev lower_byte : ℕ → ℕ
lower_byte c = if leb b'A' c && leb c b'Z' then c + 32 else c

unfoldable pub to_lower : Text → Text
to_lower = map lower_byte

lower_byte_idem : (c : ℕ) → lower_byte (lower_byte c) ≡ lower_byte c
lower_byte_idem c = ground arith

pub to_lower_idem : (s : Text) → to_lower (to_lower s) ≡ to_lower s
unfolding to_lower
to_lower_idem [] = refl
to_lower_idem (c ∷ s) = ap₂ ◌∷◌ (lower_byte_idem c) (to_lower_idem s)

-- strings.EqualFold
unfoldable pub equal_fold : Text → Text → Bool
equal_fold s t = text_beq (to_lower s) (to_lower t)

pub equal_fold_iff : (s t : Text) → (equal_fold s t ≡ true) ↔ (to_lower s ≡ to_lower t)
unfolding equal_fold
equal_fold_iff s t = text_beq_iff (to_lower s) (to_lower t)

-- What is left of `s` after the prefix `p`: strings.HasPrefix and `s[len(p):]` in one.
unfoldable pub strip_prefix : Text → Text → Option Text
strip_prefix [] s = some s
strip_prefix (c ∷ p) [] = none
strip_prefix (c ∷ p) (d ∷ s) = if nat_beq c d then strip_prefix p s else none

pub strip_prefix-append : (p s : Text) → strip_prefix p (p ++ s) ≡ some s
unfolding strip_prefix
strip_prefix-append [] s = refl
strip_prefix-append (c ∷ p) s = ground (arith, strip_prefix-append p s)

pub strip_prefix_sound : (p s : Text) {r : Text} → strip_prefix p s ≡ some r → s ≡ p ++ r
unfolding strip_prefix
strip_prefix_sound [] s h = ground arith
strip_prefix_sound (c ∷ p) [] h = cc
strip_prefix_sound (c ∷ p) (d ∷ s) {r} h = ground (arith, strip_prefix_sound p s {r = r})

unfoldable pub has_prefix : Text → Text → Bool
unfolding strip_prefix
has_prefix s p = elim (strip_prefix p s) [ none ↦ false | some r ↦ true ]

unfoldable pub has_suffix : Text → Text → Bool
unfolding has_prefix
has_suffix s p = has_prefix (reverse s) (reverse p)

-- strings.TrimSpace, on the ASCII spaces.
abbrev is_space : ℕ → Bool
is_space c = nat_beq c b' ' || (leb 9 c && leb c 13)

unfoldable pub trim_left : Text → Text
trim_left [] = []
trim_left (c ∷ s) = if is_space c then trim_left s else c ∷ s

unfoldable pub trim_space : Text → Text
unfolding trim_left
trim_space s = reverse (trim_left (reverse (trim_left s)))

-- strings.Contains: `t` starts at some place of `s`.
unfoldable pub has_part : Text → Text → Bool
unfolding has_prefix
has_part [] t = has_prefix [] t
has_part (c ∷ s) t = if has_prefix (c ∷ s) t then true else has_part s t

-- strings.TrimPrefix and strings.TrimSuffix
unfoldable pub trim_prefix : Text → Text → Text
unfolding strip_prefix
trim_prefix s p = elim (strip_prefix p s) [ none ↦ s | some r ↦ r ]

unfoldable pub trim_suffix : Text → Text → Text
unfolding trim_prefix
trim_suffix s p = reverse (trim_prefix (reverse s) (reverse p))

has_prefix-append : (p s : Text) → has_prefix (p ++ s) p ≡ true
unfolding has_prefix
has_prefix-append p s = rw (strip_prefix-append, has_prefix) refl

has_part-start : (t s : Text) → has_part (t ++ s) t ≡ true
unfolding has_part
has_part-start [] [] = has_prefix-append [] []
has_part-start [] (c ∷ s) = rw (has_prefix-append [] (c ∷ s)) refl
has_part-start (d ∷ t) s = rw (has_prefix-append (d ∷ t) s) refl

-- A text has each text that stands in it as a part.
pub has_part-append : (front t back : Text) → has_part (front ++ (t ++ back)) t ≡ true
unfolding has_part
has_part-append [] t back = has_part-start t back
has_part-append (c ∷ front) t back = rw (has_part-append front t back) (ground arith)

-- The part before the first `sep`, and the rest after it, where there is one.
unfoldable pub cut : ℕ → Text → Text × Option Text
cut sep [] = ([], none)
cut sep (c ∷ s) = if nat_beq c sep then ([], some s) else (c ∷ (cut sep s).0, (cut sep s).1)

-- strings.Split at one byte.
unfoldable pub split_at : ℕ → Text → List Text
split_at sep [] = [] ∷ []
split_at sep (c ∷ s) = elim (split_at sep s) [
  | [] ↦ []
  | field ∷ fields ↦ if nat_beq c sep then [] ∷ field ∷ fields else (c ∷ field) ∷ fields
]

-- strings.Join
unfoldable pub join_with : Text → List Text → Text
join_with sep [] = []
join_with sep (t ∷ []) = t
join_with sep (t ∷ u ∷ ts) = t ++ (sep ++ join_with sep (u ∷ ts))

digits : ℕ → ℕ → Text → Text
digits zero n out = out
digits (suc fuel) n out =
    let rest = digits fuel (n / 10) ((b'0' + n % 10) ∷ out) in if nat_beq n 0 then out else rest

-- strconv.Itoa on a number that is not negative.
unfoldable pub decimal : ℕ → Text
unfolding digits
decimal n = if nat_beq n 0 then b'0' ∷ [] else digits n n []

-- The digits of a number in base ten, read from the left; none for a byte that is no digit.
unfoldable pub read_digits : ℕ → Text → Option ℕ
read_digits n [] = some n
read_digits n (c ∷ s) =
    if leb b'0' c && leb c b'9' then read_digits (n * 10 + (c - b'0')) s else none

read_digits-digits :
    (fuel n : ℕ) (out : Text) → n ≤ fuel → read_digits 0 (digits fuel n out) ≡ read_digits n out
unfolding digits read_digits
read_digits-digits zero n out enough = let e : n ≡ 0 = omega arith in rw e refl
read_digits-digits (suc fuel) n out enough = elim (Bool-cases (nat_beq n 0)) [
  | inl stop ↦ let e : n ≡ 0 = (nat_beq_iff n 0).0 stop in rw e refl
  | inr more ↦
      rw more (read_digits-digits fuel (n / 10) ((b'0' + n % 10) ∷ out) (ground arith) ∙ one_digit)
]
  where
    one_digit : read_digits (n / 10) ((b'0' + n % 10) ∷ out) ≡ read_digits n out
    one_digit =
        let value : n / 10 * 10 + (b'0' + n % 10 - b'0') ≡ n = omega arith in
        let is_digit : (leb b'0' (b'0' + n % 10) && leb (b'0' + n % 10) b'9') ≡ true =
          ground arith in
        rw (is_digit, value) refl

abbrev max_int64 : ℕ
max_int64 = 9223372036854775807

-- strconv.ParseUint(s, 10, 63), as ParseInt reads a number without a sign.
unfoldable pub parse_unsigned : Text → Option ℕ
unfolding read_digits
parse_unsigned [] = none
parse_unsigned (c ∷ s) = elim (read_digits 0 (c ∷ s)) [
  | none ↦ none
  | some n ↦ if leb n max_int64 then some n else none
]

-- strconv.ParseInt(s, 10, 64), on numbers that are not negative.
unfoldable pub parse_int : Text → Option ℕ
unfolding parse_unsigned
parse_int [] = none
parse_int (c ∷ s) = if nat_beq c b'+' then parse_unsigned s else parse_unsigned (c ∷ s)

digits-nonempty : (fuel n c : ℕ) (out : Text) → digits fuel n (c ∷ out) ≢ []
unfolding digits
digits-nonempty zero n c out e = cc
digits-nonempty (suc fuel) n c out e = elim (Bool-cases (nat_beq n 0)) [
  | inl stop ↦ absurd (let q : c ∷ out ≡ [] = rw (stop, digits) at e in cc)
  | inr more ↦ digits-nonempty fuel (n / 10) (b'0' + n % 10) (c ∷ out) (rw (more, digits) at e)
]

decimal-nonempty : (n : ℕ) → decimal n ≢ []
unfolding decimal digits
decimal-nonempty zero e = cc
decimal-nonempty (suc n) e =
    let positive : nat_beq (suc n) 0 ≡ false = ground arith in
    digits-nonempty n (suc n / 10) (b'0' + suc n % 10) [] (rw (positive, decimal, digits) at e)

read_digits-decimal : (n : ℕ) → read_digits 0 (decimal n) ≡ some n
unfolding decimal read_digits
read_digits-decimal n = elim (Bool-cases (nat_beq n 0)) [
  | inl stop ↦ let e : n ≡ 0 = (nat_beq_iff n 0).0 stop in rw e refl
  | inr more ↦ rw more (read_digits-digits n n [] (omega arith))
]

read_number :
    (s : Text) (n : ℕ) → s ≢ [] → n ≤ max_int64 → read_digits 0 s ≡ some n → parse_int s ≡ some n
unfolding parse_int read_digits
read_number [] n given small e = absurd (given refl)
read_number (c ∷ s) n given small e = ground arith

-- A number that is written in decimal is read back.
pub parse_int-decimal : (n : ℕ) → n ≤ 9223372036854775807 → parse_int (decimal n) ≡ some n
parse_int-decimal n small =
    read_number (decimal n) n (decimal-nonempty n) small (read_digits-decimal n)
