-- ===== src/Ghapi/Globs/Consumed.antt =====
-- The fuel for reading a pattern is enough: every round takes a byte at least.
use action_runner_cluster.Prelude.{
  Bool-cases, List, Option, Option-cases, Text, [], arith, codes, false, inl, inr, length, nat_beq,
  none, refl, some, strip_prefix, strip_prefix_sound, suc, true, zero, ℕ, ◌++◌, ◌<◌, ◌||◌, ◌∷◌, ◌≡◌,
  ◌≤◌,
}
use action_runner_cluster.Ghapi.Globs.{
  GlobItem, any_run, any_one, one_of, exactly, class_byte, class_ranges, class_item, glob_item,
  glob_items,
}

strip_byte-length :
    (c : ℕ) (s : Text) {rest : Text} → strip_prefix (c ∷ []) s ≡ some rest → length rest < length s
strip_byte-length c s {rest} e =
    let same : s ≡ c ∷ [] ++ rest = strip_prefix_sound (c ∷ []) s e in rw same (omega arith)

class_byte-length : (s : Text) {r : ℕ × Text} → class_byte s ≡ some r → length (r.1) < length s
unfolding class_byte
class_byte-length [] {r} e = absurd (let q : none ≡ some r = e in cc)
class_byte-length (c ∷ s) {r} e = elim (Bool-cases (nat_beq c b'-' || nat_beq c b']')) [
  | inl bad ↦ absurd (let q : none ≡ some r = rw (bad, class_byte) at e in cc)
  | inr good ↦ elim (Bool-cases (nat_beq c b'\\')) [
    | inr plain ↦
        let q : some (c, s) ≡ some r = rw (good, plain, class_byte) at e in
        let same : s ≡ r.1 = cc in rw (← same) (omega arith)
    | inl escape ↦ escaped s (rw (good, escape, class_byte) at e)
  ]
]
  where
    escaped :
        (t : Text)
        → elim t as (λ x. Option (ℕ × Text)) [ [] ↦ none | d ∷ rest ↦ some (d, rest) ] ≡ some r
        → length (r.1) < suc (length t)
    escaped [] q = absurd (let w : none ≡ some r = q in cc)
    escaped (d ∷ t) q =
        let w : some (d, t) ≡ some r = q in let same : t ≡ r.1 = cc in rw (← same) (omega arith)

-- Any two amounts of fuel above the length of what is left give the same class.
class_ranges_enough :
    (more less : ℕ) (acc : List (ℕ × ℕ)) (s : Text)
    → length s < more
    → length s < less
    → class_ranges more acc s ≡ class_ranges less acc s
unfolding class_ranges
class_ranges_enough zero less acc s m l = absurd (omega arith)
class_ranges_enough (suc more) zero acc s m l = absurd (omega arith)
class_ranges_enough (suc more) (suc less) acc s m l =
    elim (Option-cases (strip_prefix (codes "]") s)) [
      | inr (rest, closed) ↦ rw (closed, class_ranges) refl
      | inl longer ↦ elim (Option-cases (class_byte s)) [
        | inl bad ↦ rw (longer, bad, class_ranges) refl
        | inr (low, first) ↦
            let b1 : length (low.1) < length s = class_byte-length s first in
            elim (Option-cases (strip_prefix (codes "-") (low.1))) [
              | inl single ↦
                  rw (longer, first, single, class_ranges)
                    (class_ranges_enough more less ((low.0, low.0) ∷ acc) (low.1) (omega arith)
                      (omega arith))
              | inr (after, dash) ↦
                  let b2 : length after < length (low.1) = strip_byte-length b'-' (low.1) dash in
                  elim (Option-cases (class_byte after)) [
                    | inl broken ↦ rw (longer, first, dash, broken, class_ranges) refl
                    | inr (high, last) ↦
                        let b3 : length (high.1) < length after = class_byte-length after last in
                        rw (longer, first, dash, last, class_ranges)
                          (class_ranges_enough more less ((low.0, high.0) ∷ acc) (high.1)
                            (omega arith) (omega arith))
                  ]
            ]
      ]
    ]

-- What is left after a class is shorter than the class.
class_ranges-length :
    (fuel : ℕ) (acc : List (ℕ × ℕ)) (s : Text) {r : List (ℕ × ℕ) × Text}
    → class_ranges fuel acc s ≡ some r
    → length (r.1) < length s
unfolding class_ranges
class_ranges-length zero acc s {r} e = absurd (let q : none ≡ some r = e in cc)
class_ranges-length (suc fuel) acc s {r} e = elim (Option-cases (strip_prefix (codes "]") s)) [
  | inr (rest, closed) ↦
      let b0 : length rest < length s = strip_byte-length b']' s closed in
      ended acc rest b0 (rw (closed, class_ranges) at e)
  | inl longer ↦ elim (Option-cases (class_byte s)) [
    | inl bad ↦ absurd (let q : none ≡ some r = rw (longer, bad, class_ranges) at e in cc)
    | inr (low, first) ↦
        let b1 : length (low.1) < length s = class_byte-length s first in
        elim (Option-cases (strip_prefix (codes "-") (low.1))) [
          | inl single ↦
              let b : length (r.1) < length (low.1) =
                class_ranges-length fuel ((low.0, low.0) ∷ acc) (low.1)
                  (rw (longer, first, single, class_ranges) at e) in
              omega arith
          | inr (after, dash) ↦
              let b2 : length after < length (low.1) = strip_byte-length b'-' (low.1) dash in
              elim (Option-cases (class_byte after)) [
                | inl broken ↦ absurd (
                    let q : none ≡ some r = rw (longer, first, dash, broken, class_ranges) at e in
                    cc)
                | inr (high, last) ↦
                    let b3 : length (high.1) < length after = class_byte-length after last in
                    let b : length (r.1) < length (high.1) =
                      class_ranges-length fuel ((low.0, high.0) ∷ acc) (high.1)
                        (rw (longer, first, dash, last, class_ranges) at e) in
                    omega arith
              ]
        ]
  ]
]
  where
    ended :
        (acc : List (ℕ × ℕ)) (rest : Text)
        → length rest < length s
        → elim acc as (λ x. Option (List (ℕ × ℕ) × Text)) [
          | x ∷ xs ↦ some (x ∷ xs, rest)
          | [] ↦ none
        ]
          ≡ some r
        → length (r.1) < length s
    ended [] rest b q = absurd (let w : none ≡ some r = q in cc)
    ended (x ∷ xs) rest b q =
        let w : some (x ∷ xs, rest) ≡ some r = q in let same : rest ≡ r.1 = cc in rw (← same) b

class_item-length :
    (s : Text) {r : GlobItem × Text} → class_item s ≡ some r → length (r.1) < length s
unfolding class_item
class_item-length s {r} e = elim (Option-cases (strip_prefix (codes "^") s)) [
  | inl positive ↦ elim (Option-cases (class_ranges (suc (length s)) [] s)) [
    | inl bad ↦ absurd (let q : none ≡ some r = rw (positive, bad, class_item) at e in cc)
    | inr (c, read) ↦
        let q : some (one_of false (c.0), c.1) ≡ some r = rw (positive, read, class_item) at e in
        let same : c.1 ≡ r.1 = cc in rw (← same) (class_ranges-length (suc (length s)) [] s read)
  ]
  | inr (inner, negated) ↦
      let b0 : length inner < length s = strip_byte-length b'^' s negated in
      elim (Option-cases (class_ranges (suc (length inner)) [] inner)) [
        | inl bad ↦ absurd (let q : none ≡ some r = rw (negated, bad, class_item) at e in cc)
        | inr (c, read) ↦
            let q : some (one_of true (c.0), c.1) ≡ some r = rw (negated, read, class_item) at e in
            let same : c.1 ≡ r.1 = cc in
            let b : length (c.1) < length inner =
              class_ranges-length (suc (length inner)) [] inner read in
            rw (← same) (omega arith)
      ]
]

glob_item-length :
    (c : ℕ) (s : Text) {r : GlobItem × Text} → glob_item c s ≡ some r → length (r.1) ≤ length s
unfolding glob_item
glob_item-length c s {r} e = elim (Bool-cases (nat_beq c b'*')) [
  | inl run ↦
      let q : some (any_run, s) ≡ some r = rw (run, glob_item) at e in
      let same : s ≡ r.1 = cc in rw (← same) (omega arith)
  | inr n1 ↦ elim (Bool-cases (nat_beq c b'?')) [
    | inl one ↦
        let q : some (any_one, s) ≡ some r = rw (n1, one, glob_item) at e in
        let same : s ≡ r.1 = cc in rw (← same) (omega arith)
    | inr n2 ↦ elim (Bool-cases (nat_beq c b'[')) [
      | inl class ↦
          let b : length (r.1) < length s =
            class_item-length s (rw (n1, n2, class, glob_item) at e) in
          omega arith
      | inr n3 ↦ elim (Bool-cases (nat_beq c b'\\')) [
        | inl escape ↦ escaped s (rw (n1, n2, n3, escape, glob_item) at e)
        | inr plain ↦
            let q : some (exactly c, s) ≡ some r = rw (n1, n2, n3, plain, glob_item) at e in
            let same : s ≡ r.1 = cc in rw (← same) (omega arith)
      ]
    ]
  ]
]
  where
    escaped :
        (t : Text)
        → elim t as (λ x. Option (GlobItem × Text)) [
          | [] ↦ none
          | d ∷ rest ↦ some (exactly d, rest)
        ]
          ≡ some r
        → length (r.1) ≤ length t
    escaped [] q = absurd (let w : none ≡ some r = q in cc)
    escaped (d ∷ t) q =
        let w : some (exactly d, t) ≡ some r = q in
        let same : t ≡ r.1 = cc in rw (← same) (omega arith)

-- Any two amounts of fuel above the length of a pattern read it alike.
glob_items_enough :
    (more less : ℕ) (s : Text)
    → length s < more
    → length s < less
    → glob_items more s ≡ glob_items less s
unfolding glob_items
glob_items_enough zero less s m l = absurd (omega arith)
glob_items_enough (suc more) zero s m l = absurd (omega arith)
glob_items_enough (suc more) (suc less) [] m l = refl
glob_items_enough (suc more) (suc less) (c ∷ s) m l = elim (Option-cases (glob_item c s)) [
  | inl bad ↦ rw (bad, glob_items) refl
  | inr (one, read) ↦
      let below : length (one.1) ≤ length s = glob_item-length c s read in
      rw (read, glob_items, glob_items_enough more less (one.1) (omega arith) (omega arith)) refl
]
