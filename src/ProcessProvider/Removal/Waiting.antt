-- ===== src/ProcessProvider/Removal/Waiting.antt =====
-- waitForExit: it ends, and what its answer says.
use action_runner_cluster.Prelude.{
  Bool, Bool-cases, arith, false, inl, inr, ltb, ltb→lt, not, refl, some, suc, true, zero, ℕ, ◌*◌,
  ◌+◌, ◌<◌, ◌≡◌, ◌≤◌,
}
use action_runner_cluster.ProcessProvider.Removal.{wait_for_exit, rounds}

-- A process that is reported gone was found gone at one of the looks; one that is not, at none.
pub record IsAnswer (alive : ℕ → Bool) (now deadline : ℕ) (b : Bool) : Type 0 where
  pub found_gone : b ≡ true → (t : ℕ) × (now ≤ t) × (t < deadline + 200) × (alive t ≡ false)
  pub always_there :
      b ≡ false → (i : ℕ) → now + 200 * i < deadline + 200 → alive (now + 200 * i) ≡ true

-- One look before the deadline that finds the process, and the looks that follow.
IsAnswer-later :
    (alive : ℕ → Bool) (now deadline : ℕ) (b : Bool)
    → alive now ≡ true
    → IsAnswer alive (now + 200) deadline b
    → IsAnswer alive now deadline b
IsAnswer-later alive now deadline b here later = record {
  found_gone =
      λ e. let (t, after, before, gone) = later.found_gone e in (t, omega arith, before, gone);
  always_there = there;
}
  where
    there : b ≡ false → (i : ℕ) → now + 200 * i < deadline + 200 → alive (now + 200 * i) ≡ true
    there e zero h = let at : now + 200 * 0 ≡ now = omega arith in rw at here
    there e (suc i) h =
        let at : now + 200 * suc i ≡ now + 200 + 200 * i = omega arith in
        rw at (later.always_there e i (omega arith))

IsAnswer-last :
    (alive : ℕ → Bool) (now deadline : ℕ)
    → deadline ≤ now
    → now < deadline + 200
    → IsAnswer alive now deadline (not (alive now))
IsAnswer-last alive now deadline past near = record {
  found_gone = λ e. (now, omega arith, near, ground (arith, e));
  always_there = there;
}
  where
    there :
        not (alive now) ≡ false
        → (i : ℕ) → now + 200 * i < deadline + 200
        → alive (now + 200 * i) ≡ true
    there e zero h = let at : now + 200 * 0 ≡ now = omega arith in rw at (ground (arith, e))
    there e (suc i) h = absurd (omega arith)

wait_from :
    (fuel : ℕ) (alive : ℕ → Bool) (now deadline : ℕ)
    → deadline + 200 ≤ now + 200 * fuel
    → now < deadline + 200
    → (b : Bool) × (wait_for_exit fuel alive now deadline ≡ some b) × IsAnswer alive now deadline b
unfolding wait_for_exit
wait_from zero alive now deadline enough near = absurd (omega arith)
wait_from (suc fuel) alive now deadline enough near = elim (Bool-cases (ltb now deadline)) [
  | inr past ↦
      (not (alive now), rw past refl, IsAnswer-last alive now deadline (ground (arith, past)) near)
  | inl before ↦ elim (Bool-cases (alive now)) [
    | inr gone ↦ (
      true,
      rw (before, gone) refl,
      record {
        found_gone = λ _. (now, omega arith, near, gone);
        always_there = λ e. absurd (let q : true ≡ false = e in cc);
      },
    )
    | inl there ↦
        let (b, same, answer) =
          wait_from fuel alive (now + 200) deadline (omega arith)
            (omega (arith, ltb→lt now deadline before)) in
        (b, rw (before, there) same, IsAnswer-later alive now deadline b there answer)
  ]
]

-- waitForExit always returns, within one look for each 200 ms of the timeout and two more. It
-- answers that the process is gone if it found it gone at a look, at the latest 200 ms after the
-- timeout; otherwise the process was there at every look.
pub wait_for_exit_ends :
    (alive : ℕ → Bool) (timeout : ℕ)
    → (b : Bool) × (wait_for_exit (rounds timeout) alive 0 timeout ≡ some b)
      × IsAnswer alive 0 timeout b
wait_for_exit_ends alive timeout =
    wait_from (rounds timeout) alive 0 timeout (omega arith) (omega arith)
