-- ===== src/Names/Ownership.antt =====
-- internal/orchestrator/orchestrator.go: a runner's name tells its pool and its host.
use action_runner_cluster.Prelude.{
  All, List, Option-cases, Text, [], ap, arith, codes, false, inl, inr, length, length-append,
  length-take, refl, strip_prefix, strip_prefix-append, strip_prefix_sound, sym, true, ℕ, ◌%◌, ◌*◌,
  ◌++◌, ◌/◌, ◌<◌, ◌∙◌, ◌∷◌, ◌≡◌, ◌≤◌,
}
use action_runner_cluster.Names.{
  hex_digit, hex_encode, host_id, name_prefix, runner_name, is_hex, all_hex, belongs_to_pool,
}

abbrev IsByte : ℕ → Type 0
IsByte b = b < 256

hex_digit-is_hex : (n : ℕ) → n < 16 → is_hex (hex_digit n) ≡ true
unfolding hex_digit is_hex
hex_digit-is_hex n h = ground arith

all_hex-hex_encode : (bs : List ℕ) → All IsByte bs → all_hex (hex_encode bs) ≡ true
unfolding all_hex hex_encode
all_hex-hex_encode [] h = refl
all_hex-hex_encode (b ∷ bs) h =
    ground (arith, hex_digit-is_hex (b / 16), hex_digit-is_hex (b % 16), all_hex-hex_encode bs)

length-hex_encode : (bs : List ℕ) → length (hex_encode bs) ≡ 2 * length bs
unfolding hex_encode
length-hex_encode [] = omega arith
length-hex_encode (b ∷ bs) = omega (arith, length-hex_encode bs)

-- A name minted for a pool on a host belongs to that pool on that host.
pub belongs_to_pool-runner_name :
    (host pool : Text) (random : List ℕ)
    → length random ≡ 4
    → All IsByte random
    → belongs_to_pool host (runner_name host pool random) pool ≡ true
unfolding belongs_to_pool runner_name
belongs_to_pool-runner_name host pool random l h = ground (
  arith,
  strip_prefix-append (name_prefix host pool) (hex_encode random),
  length-hex_encode random,
  all_hex-hex_encode random,
)

append_split : (p q s t : Text) → length s ≡ length t → p ++ s ≡ q ++ t → (p ≡ q) × (s ≡ t)
append_split [] [] s t l e = (refl, e)
append_split [] (d ∷ q) s t l e = absurd (omega (arith, ap length e, length-append q t))
append_split (c ∷ p) [] s t l e = absurd (omega (arith, ap length e, length-append p s))
append_split (c ∷ p) (d ∷ q) s t l e = let (same, rest) = append_split p q s t l (cc) in (cc, rest)

belongs_to_pool_sound :
    (host runner pool : Text)
    → belongs_to_pool host runner pool ≡ true
    → (suffix : Text) × (runner ≡ name_prefix host pool ++ suffix) × (length suffix ≡ 8)
unfolding belongs_to_pool
belongs_to_pool_sound host runner pool h =
    elim (Option-cases (strip_prefix (name_prefix host pool) runner)) [
      | inl e ↦ absurd (let q : false ≡ true = rw (e, belongs_to_pool) at h in cc)
      | inr (r, e) ↦ (r, strip_prefix_sound (name_prefix host pool) runner e, ground arith)
    ]

prefix_unique :
    (host host' pool pool' : Text)
    → length host ≡ length host'
    → name_prefix host pool ≡ name_prefix host' pool'
    → (pool ≡ pool') × (host ≡ host')
unfolding name_prefix
prefix_unique host host' pool pool' l e =
    let (_, named) =
      append_split (codes "arc-") (codes "arc-") _ _ (omega (arith, ap length e)) e in
    let (same, rest) =
      append_split pool pool' (codes "-" ++ (host ++ codes "-")) (codes "-" ++ (host' ++ codes "-"))
        (omega (arith, length-append host (codes "-"), length-append host' (codes "-"))) named in
    (same, (append_split host host' (codes "-") (codes "-") refl (cc)).0)

-- A runner's name belongs to one pool of one host only, where host ids have one length: pools
-- whose names extend one another are told apart, and no host claims another's runner.
pub belongs_to_pool_unique :
    (host host' runner pool pool' : Text)
    → length host ≡ length host'
    → belongs_to_pool host runner pool ≡ true
    → belongs_to_pool host' runner pool' ≡ true
    → (pool ≡ pool') × (host ≡ host')
unfolding name_prefix
belongs_to_pool_unique host host' runner pool pool' l h h' =
    let (s, e, n) = belongs_to_pool_sound host runner pool h in
    let (s', e', n') = belongs_to_pool_sound host' runner pool' h' in
    let (pre, _) =
      append_split (name_prefix host pool) (name_prefix host' pool') s s' (n ∙ sym n')
        (sym e ∙ e') in
    prefix_unique host host' pool pool' l pre

-- The host id is six characters, where the digest has at least three bytes.
length-host_id :
    (sha256 : List ℕ → List ℕ) (name : Text)
    → ((s : List ℕ) → 3 ≤ length (sha256 s))
    → length (host_id sha256 name) ≡ 6
unfolding host_id
length-host_id sha256 [] h = refl
length-host_id sha256 (c ∷ name) h =
    length-take 6 (hex_encode (sha256 (c ∷ name)))
      (omega (arith, length-hex_encode (sha256 (c ∷ name)), h (c ∷ name)))
