-- ===== src/Credentials/Refreshing.antt =====
-- What a refresh of the credential promises its caller, and how often it reads the vault.
use action_runner_cluster.Prelude.{
  Bool-cases, List, Option, Option-cases, Text, [], ap, arith, false, inl, inr, ltb, nat_eq, none,
  not, refl, some, sym, text_beq_iff, text_eq, true, ℕ, ◌&&◌, ◌+◌, ◌<◌, ◌==◌, ◌↔◌, ◌∙◌, ◌∷◌, ◌≡◌,
  ◌≢◌, ◌≤◌, ◌⊎◌,
}
use action_runner_cluster.Credentials.{
  Item, VaultAuth, changed, unchanged, unread, Refresh, refresh, refresh_cooldown, is_cooling,
  with_read, failed_read, take_fresh, unread_refresh, read_times, AppToken, Minting, minted,
  not_minted, app_token, token_minute, read_minted,
}

-- What holds after a refresh of the token `stale`.
pub record IsRefresh (now : ℕ) (load : Option Item) (stale : Text) (v : VaultAuth) (r : Refresh)
    : Type 0 where
  pub honest : (r.answer ≡ changed) ↔ (r.auth.item.token ≢ stale)
  pub same_account : r.auth.item.account_type ≡ v.item.account_type
  pub from_vault :
      r.auth.item.token ≡ v.item.token
      ⊎ ((fresh : Item) × (load ≡ some fresh) × (r.auth.item.token ≡ fresh.token))
  pub kept_copy :
      ((r.auth.item.token ≡ v.item.token) × (r.cached ≡ none)) ⊎ (r.cached ≡ some r.auth.item)

-- The three ends of the last read: an error, the refused token again, or another one.
kept_lem :
    (now : ℕ) (load : Option Item) (stale : Text) (v : VaultAuth) (r : Refresh)
    → v.item.token ≡ stale
    → r.answer ≢ changed
    → r.auth.item ≡ v.item
    → r.cached ≡ none
    → IsRefresh now load stale v r
kept_lem now load stale v r refused answer same quiet = record {
  honest = (λ e. absurd (answer e), λ n. absurd (n (ap (λ (i : Item). i.token) same ∙ refused)));
  same_account = ap (λ (i : Item). i.account_type) same;
  from_vault = inl (ap (λ (i : Item). i.token) same);
  kept_copy = inl (ap (λ (i : Item). i.token) same, quiet);
}

with_read-IsRefresh :
    (now : ℕ) (load : Option Item) (stale : Text) (v : VaultAuth)
    → v.item.token ≡ stale
    → IsRefresh now load stale v (with_read now stale v load)
unfolding with_read failed_read take_fresh
with_read-IsRefresh now none stale v refused =
    kept_lem now none stale v (failed_read now unread v) refused (λ e. cc) refl refl
with_read-IsRefresh now (some fresh) stale v refused = elim (Bool-cases (fresh.token == stale)) [
  | inl again ↦
      simp (again, with_read)
        (kept_lem now (some fresh) stale v (failed_read now unchanged v) refused (λ e. cc) refl
          refl)
  | inr other ↦
      simp (other, with_read)
        (record {
          honest = (
            λ _ e. let t : true ≡ false = sym ((text_beq_iff fresh.token stale).1 e) ∙ other in cc,
            λ _. refl,
          );
          same_account = refl;
          from_vault = inr (fresh, refl, refl);
          kept_copy = inr refl;
        })
]

-- Refresh keeps its promise on every branch: it answers that the credential has changed exactly if
-- the token now in hand is another than the refused one; the token in hand is the old one or what
-- the vault gave; the account's type is carried over; and
-- the item in hand is handed to WriteCache, unless its token is the one that was there before.
pub refresh-IsRefresh :
    (now : ℕ) (load : Option Item) (stale : Text) (v : VaultAuth)
    → IsRefresh now load stale v (refresh now load stale v)
unfolding refresh unread_refresh
refresh-IsRefresh now load stale v = elim (Bool-cases (v.item.token == stale)) [
  | inr other ↦
      simp (other, refresh)
        (record {
          honest = (
            λ _ e. let t : true ≡ false = sym ((text_beq_iff v.item.token stale).1 e) ∙ other in cc,
            λ _. refl,
          );
          same_account = refl;
          from_vault = inl refl;
          kept_copy = inl (refl, refl);
        })
  | inl refused ↦
      let same : v.item.token ≡ stale = (text_beq_iff v.item.token stale).0 refused in
      elim (Bool-cases (is_cooling now v.last_failed)) [
        | inl cooling ↦
            simp (refused, cooling, refresh)
              (kept_lem now load stale v (unread_refresh unchanged v) same (λ e. cc) refl refl)
        | inr due ↦ simp (refused, due, refresh) (with_read-IsRefresh now load stale v same)
      ]
]

-- Each time is at least the cooldown after the one before it.
abbrev pub Spaced : Option ℕ → List ℕ → Type 0
Spaced before [] = Unit
Spaced none (t ∷ more) = Spaced (some t) more
Spaced (some b) (t ∷ more) = (b + refresh_cooldown ≤ t) × Spaced (some t) more

-- Once another token is in hand, no call for the refused one reads the vault.
settled :
    (stale : Text) (v : VaultAuth) (calls : List (ℕ × Option Item))
    → (v.item.token == stale) ≡ false
    → read_times stale v calls ≡ []
unfolding read_times refresh unread_refresh
settled stale v [] other = refl
settled stale v ((now, load) ∷ more) other =
    simp (other, read_times, settled stale v more other) refl

due_lem :
    (now : ℕ) (before : Option ℕ) (times : List ℕ)
    → is_cooling now before ≡ false
    → Spaced (some now) times
    → Spaced before (now ∷ times)
unfolding is_cooling
due_lem now none times due h = h
due_lem now (some b) times due h = (ground arith, h)

-- However often GitHub refuses one token, the reads of the vault that this causes are at least five
-- minutes apart, the first of them from the last failed read before; what each read gives does not
-- matter.
pub read_times-Spaced :
    (stale : Text) (v : VaultAuth) (calls : List (ℕ × Option Item))
    → Spaced v.last_failed (read_times stale v calls)
unfolding read_times refresh unread_refresh with_read failed_read take_fresh
read_times-Spaced stale v [] = tt
read_times-Spaced stale v ((now, load) ∷ more) = elim (Bool-cases (v.item.token == stale)) [
  | inr other ↦ simp (other, read_times, settled stale v more other) tt
  | inl refused ↦ elim (Bool-cases (is_cooling now v.last_failed)) [
    | inl cooling ↦ simp (refused, cooling, read_times) (read_times-Spaced stale v more)
    | inr due ↦ elim (Option-cases load) [
      | inl broken ↦
          simp (refused, due, broken, read_times)
            (due_lem now v.last_failed _ due
              (read_times-Spaced stale (record v { last_failed = some now }) more))
      | inr (fresh, got) ↦ elim (Bool-cases (fresh.token == stale)) [
        | inl again ↦
            simp (refused, due, got, again, read_times)
              (due_lem now v.last_failed _ due
                (read_times-Spaced stale (record v { last_failed = some now }) more))
        | inr other ↦
            let v' : VaultAuth = record {
              item = record fresh { account_type = v.item.account_type };
              last_failed = none;
            } in
            let none_left : Spaced (some now) (read_times stale v' more) =
              rw (settled stale v' more other) tt in
            simp (refused, due, got, other, read_times) (due_lem now v.last_failed _ due none_left)
      ]
    ]
  ]
]

read_minted_lem :
    (reply : Minting) (a : AppToken)
    → ((b : AppToken) × (reply ≡ minted 201 (some b)) × (read_minted reply a ≡ (some b.token, b)))
      ⊎ (read_minted reply a ≡ (none, a))
unfolding read_minted
read_minted_lem not_minted a = inr refl
read_minted_lem (minted status none) a = inr refl
read_minted_lem (minted status (some b)) a = elim (Bool-cases (status == 201)) [
  | inl created ↦
      let same : status ≡ 201 = ground (arith, created) in
      inl (b, ap (λ n. minted n (some b)) same, rw created refl)
  | inr other ↦ inr (rw other refl)
]

-- The token of a GitHub App: the one in hand is used only while it has more than a minute left, and
-- then nothing is asked; else the token is the one of GitHub's answer, which has status 201 and is
-- kept, or there is none and what is kept is as before.
pub app_token_lem :
    (now : ℕ) (reply : Minting) (a : AppToken)
    → ((app_token now reply a ≡ (false, (some a.token, a)))
        × (a.token ≢ [])
        × (now + token_minute < a.expires))
      ⊎ ((b : AppToken) × (reply ≡ minted 201 (some b))
          × (app_token now reply a ≡ (true, (some b.token, b))))
      ⊎ (app_token now reply a ≡ (true, (none, a)))
unfolding app_token
app_token_lem now reply a =
    elim (Bool-cases (not (a.token == []) && ltb (now + token_minute) a.expires)) [
      | inl fresh ↦ inl (simp (fresh, app_token) refl, ground (arith, fresh), ground (arith, fresh))
      | inr old ↦ elim (read_minted_lem reply a) [
        | inl (b, got, read) ↦ inr (inl (b, got, simp (old, app_token, read) refl))
        | inr bad ↦ inr (inr (simp (old, app_token, bad) refl))
      ]
    ]
