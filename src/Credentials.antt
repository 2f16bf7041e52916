-- ===== src/Credentials.antt =====
-- internal/opconfig/opconfig.go: Load and ReadCache; cmd/arc/vaultauth.go: the credential of
-- 1Password mode; internal/ghapi/auth.go: the token of a GitHub App. What `op`, the cache's file and
-- GitHub give is an argument, and times are nanoseconds.
pub mod Refreshing
use action_runner_cluster.Prelude.{
  Bool, List, Option, Text, [], codes, false, if◌then◌else◌, ltb, nat_eq, none, not, some, text_eq,
  true, ℕ, ◌&&◌, ◌*◌, ◌+◌, ◌==◌, ◌^◌, ◌∷◌,
}

-- opconfig.Item
pub record Item : Type 0 where
  pub token : Text
  pub login : Text
  pub account_type : Text
  pub fetched_at : ℕ

pub record VaultField : Type 0 where
  pub label : Text
  pub val : Text

-- The loop over the fields: the last of a label counts.
unfoldable pub take_fields : List VaultField → Item → Item
take_fields [] item = item
take_fields (f ∷ more) item =
    if f.label == codes "credential"
    then take_fields more (record item { token = f.val })
    else if f.label == codes "username"
    then take_fields more (record item { login = f.val })
    else take_fields more item

unfoldable pub is_complete : Item → Bool
is_complete item = not (item.token == []) && not (item.login == [])

unfoldable pub blank_item : Item
blank_item = record { token = []; login = []; account_type = []; fetched_at = 0 }

unfoldable pub stamped : ℕ → Item → Option Item
unfolding is_complete
stamped now item = if is_complete item then some (record item { fetched_at = now }) else none

-- `Load`, of the fields that `op` prints, none if it fails or prints no JSON.
unfoldable pub load_item : ℕ → Option (List VaultField) → Option Item
unfolding take_fields stamped blank_item
load_item now none = none
load_item now (some fields) = stamped now (take_fields fields blank_item)

-- `ReadCache`, of what the file decodes to.
unfoldable pub read_cache : Option Item → Option Item
unfolding is_complete
read_cache none = none
read_cache (some item) = if is_complete item then some item else none

-- vaultAuth: the item, and when a read last gave what GitHub had refused already.
pub record VaultAuth : Type 0 where
  pub item : Item
  pub last_failed : Option ℕ

unfoldable pub refresh_cooldown : ℕ
refresh_cooldown = 300 * 10 ^ 9

-- How Refresh ends: with its two answers, or with the error of the read.
pub data RefreshAnswer : Type 0 where
  changed unchanged unread : RefreshAnswer

-- `cached` is the item that WriteCache is called with.
pub record Refresh : Type 0 where
  pub answer : RefreshAnswer
  pub vault_read : Bool
  pub cached : Option Item
  pub auth : VaultAuth

is_cooling : ℕ → Option ℕ → Bool
unfolding refresh_cooldown
is_cooling now none = false
is_cooling now (some t) = ltb now (t + refresh_cooldown)

failed_read : ℕ → RefreshAnswer → VaultAuth → Refresh
failed_read now answer v = record {
  answer = answer;
  vault_read = true;
  cached = none;
  auth = record v { last_failed = some now };
}

take_fresh : Item → VaultAuth → Refresh
take_fresh fresh v =
    let item : Item = record fresh { account_type = v.item.account_type } in
    record {
      answer = changed;
      vault_read = true;
      cached = some item;
      auth = record { item = item; last_failed = none };
    }

with_read : ℕ → Text → VaultAuth → Option Item → Refresh
unfolding failed_read take_fresh
with_read now stale v none = failed_read now unread v
with_read now stale v (some fresh) =
    if fresh.token == stale then failed_read now unchanged v else take_fresh fresh v

unread_refresh : RefreshAnswer → VaultAuth → Refresh
unread_refresh answer v = record { answer = answer; vault_read = false; cached = none; auth = v }

-- `Refresh` of a token that GitHub has refused; `load` is what a read of the vault would give.
unfoldable pub refresh : ℕ → Option Item → Text → VaultAuth → Refresh
unfolding with_read unread_refresh is_cooling
refresh now load stale v =
    if not (v.item.token == stale)
    then unread_refresh changed v
    else if is_cooling now v.last_failed
    then unread_refresh unchanged v
    else with_read now stale v load

-- The times at which calls of Refresh for one token read the vault, one call after the other, each
-- with its time and what a read would give then.
unfoldable pub read_times : Text → VaultAuth → List (ℕ × Option Item) → List ℕ
unfolding refresh
read_times stale v [] = []
read_times stale v ((now, load) ∷ more) =
    let r : Refresh = refresh now load stale v in
    let rest : List ℕ = read_times stale r.auth more in if r.vault_read then now ∷ rest else rest

-- AppAuth: the installation's token.
pub record AppToken : Type 0 where
  pub token : Text
  pub expires : ℕ

-- What the exchange for a new token comes to.
pub data Minting : Type 0 where
  minted : (status : ℕ) (body : Option AppToken) → Minting
  not_minted : Minting

unfoldable pub token_minute : ℕ
token_minute = 60 * 10 ^ 9

read_minted : Minting → AppToken → Option Text × AppToken
read_minted not_minted a = (none, a)
read_minted (minted status none) a = (none, a)
read_minted (minted status (some b)) a = if status == 201 then (some b.token, b) else (none, a)

-- `AppAuth.Token`, and whether GitHub was asked.
unfoldable pub app_token : ℕ → Minting → AppToken → Bool × (Option Text × AppToken)
unfolding read_minted token_minute
app_token now reply a =
    if not (a.token == []) && ltb (now + token_minute) a.expires
    then (false, (some a.token, a))
    else (true, read_minted reply a)
