-- ===== src/Ghapi/Globs.antt =====
-- The patterns of path.Match, as internal/ghapi/jobs.go uses them: what a name must look like. Bytes
-- stand for characters, as in the names that GitHub allows.
pub mod Consumed
use action_runner_cluster.Prelude.{
  Bool, List, Option, Text, [], any, codes, false, if◌then◌else◌, leb, length, nat_beq, none, not,
  some, strip_prefix, suc, true, zero, ℕ, ◌&&◌, ◌||◌, ◌∷◌,
}

-- What a pattern of path.Match is made of: a run of bytes that are no slash, one byte that is no
-- slash, one of a class or one that is none of it, or a byte.
pub data GlobItem : Type 0 where
  any_run any_one : GlobItem
  one_of : (negated : Bool) → List (ℕ × ℕ) → GlobItem
  exactly : ℕ → GlobItem

-- A byte of a class, with its escape; none for a pattern that is malformed there.
class_byte : Text → Option (ℕ × Text)
class_byte [] = none
class_byte (c ∷ s) =
    if nat_beq c b'-' || nat_beq c b']'
    then none
    else if nat_beq c b'\\'
    then elim s [ [] ↦ none | d ∷ rest ↦ some (d, rest) ]
    else some (c, s)

-- The ranges of a class up to its bracket, with fuel for the bytes; at least one.
class_ranges : ℕ → List (ℕ × ℕ) → Text → Option (List (ℕ × ℕ) × Text)
unfolding class_byte strip_prefix
class_ranges zero acc s = none
class_ranges (suc fuel) acc s = elim (strip_prefix (codes "]") s) [
  | some rest ↦ elim acc [ x ∷ xs ↦ some (x ∷ xs, rest) | [] ↦ none ]
  | none ↦ elim (class_byte s) [
    | none ↦ none
    | some low ↦ elim (strip_prefix (codes "-") low.1) [
      | none ↦ class_ranges fuel ((low.0, low.0) ∷ acc) low.1
      | some after ↦ elim (class_byte after) [
        | none ↦ none
        | some high ↦ class_ranges fuel ((low.0, high.0) ∷ acc) high.1
      ]
    ]
  ]
]

class_item : Text → Option (GlobItem × Text)
unfolding class_ranges strip_prefix
class_item s = elim (strip_prefix (codes "^") s) [
  | none ↦ elim (class_ranges (suc (length s)) [] s) [
    | none ↦ none
    | some r ↦ some (one_of false r.0, r.1)
  ]
  | some inner ↦ elim (class_ranges (suc (length inner)) [] inner) [
    | none ↦ none
    | some r ↦ some (one_of true r.0, r.1)
  ]
]

glob_item : ℕ → Text → Option (GlobItem × Text)
unfolding class_item
glob_item c s =
    if nat_beq c b'*'
    then some (any_run, s)
    else if nat_beq c b'?'
    then some (any_one, s)
    else if nat_beq c b'['
    then class_item s
    else if nat_beq c b'\\'
    then elim s [ [] ↦ none | d ∷ rest ↦ some (exactly d, rest) ]
    else some (exactly c, s)

-- The items of a pattern, with fuel for its bytes; none is ErrBadPattern.
glob_items : ℕ → Text → Option (List GlobItem)
unfolding glob_item
glob_items zero s = none
glob_items (suc fuel) [] = some []
glob_items (suc fuel) (c ∷ s) = elim (glob_item c s) [
  | none ↦ none
  | some one ↦ elim (glob_items fuel one.1) [ none ↦ none | some more ↦ some (one.0 ∷ more) ]
]

in_ranges : ℕ → List (ℕ × ℕ) → Bool
unfolding any
in_ranges b ranges = any (λ r. leb r.0 b && leb b r.1) ranges

item_takes : GlobItem → ℕ → Bool
unfolding in_ranges
item_takes any_run b = not (nat_beq b b'/')
item_takes any_one b = not (nat_beq b b'/')
item_takes (one_of negated ranges) b =
    if negated then not (in_ranges b ranges) else in_ranges b ranges
item_takes (exactly c) b = nat_beq b c

-- A run takes no byte, or one more that is no slash: `go` matches what follows the run.
run_then : (Text → Bool) → Text → Bool
run_then go [] = go []
run_then go (b ∷ s) = go (b ∷ s) || (not (nat_beq b b'/') && run_then go s)

one_then : (ℕ → Bool) → (Text → Bool) → Text → Bool
one_then takes go [] = false
one_then takes go (b ∷ s) = takes b && go s

glob_matches : List GlobItem → Text → Bool
unfolding item_takes run_then one_then
glob_matches [] [] = true
glob_matches [] (b ∷ s) = false
glob_matches (any_run ∷ more) s = run_then (glob_matches more) s
glob_matches (any_one ∷ more) s = one_then (item_takes any_one) (glob_matches more) s
glob_matches (one_of n r ∷ more) s = one_then (item_takes (one_of n r)) (glob_matches more) s
glob_matches (exactly c ∷ more) s = one_then (item_takes (exactly c)) (glob_matches more) s

-- path.Match, without its error.
unfoldable pub path_match : Text → Text → Bool
unfolding glob_items glob_matches
path_match pattern_text name = elim (glob_items (suc (length pattern_text)) pattern_text) [
  | none ↦ false
  | some items ↦ glob_matches items name
]
