-- ===== src/Startup.antt =====
-- cmd/arc/run.go: autoConfig, with isAuthError, and which file loadConfigMax takes. What GitHub says
-- of an account, what the vault and the cache hold and which files there are is an argument. So is
-- the YAML library, by which the configuration that is made up goes through a text.
pub mod Vouched
pub mod Valid
use action_runner_cluster.Prelude.{
  Bool, List, Option, Text, [], codes, false, if◌then◌else◌, int_eq, nat_eq, none, not, pair_eq,
  pos, some, text_eq, true, ℕ, ℤ, ◌&&◌, ◌++◌, ◌==◌, ◌||◌, ◌∷◌,
}
use action_runner_cluster.Config.{GitHub, Config}
use action_runner_cluster.Config.Validation.{ConfigError}
use action_runner_cluster.Config.Defaults.{
  Machine, Parsed, loaded, rejected, unset, undecoded, parse, host_pool,
}
use action_runner_cluster.Credentials.{Item, VaultField, load_item, read_cache}

-- What the question for the account's type comes to: the type, another status, or no answer.
pub data Probe : Type 0 where
  account : Text → Probe
  api_answer : (status : ℕ) → Probe
  no_contact : Probe

-- `isAuthError`
unfoldable pub is_auth_error : Probe → Bool
is_auth_error (account t) = false
is_auth_error (api_answer status) = status == 401 || status == 403
is_auth_error no_contact = false

-- The item to start with, none for an error, where it is from, and how often the vault was read.
pub record Chosen : Type 0 where
  pub item : Option Item
  pub from_cache : Bool
  pub reads : ℕ

unfoldable pub with_account : Item → Text → Item
with_account item t = record item { account_type = t }

-- An item of the vault is taken only with GitHub's word.
vault_item : Item → Probe → Chosen
unfolding with_account
vault_item item (account t) = record {
  item = some (with_account item t);
  from_cache = false;
  reads = 1;
}
vault_item item (api_answer status) = record { item = none; from_cache = false; reads = 1 }
vault_item item no_contact = record { item = none; from_cache = false; reads = 1 }

from_vault : (Item → Probe) → Option Item → Chosen
unfolding vault_item
from_vault probe none = record { item = none; from_cache = false; reads = 1 }
from_vault probe (some item) = vault_item item (probe item)

-- The cases of the switch that are left for a cached item without GitHub's word.
cached_item : Item → Chosen
cached_item item = record {
  item = if item.account_type == [] then none else some item;
  from_cache = true;
  reads = 0;
}

with_cache : (Item → Probe) → Option Item → Item → Probe → Chosen
unfolding cached_item from_vault is_auth_error with_account
with_cache probe load item (account t) = record {
  item = some (with_account item t);
  from_cache = true;
  reads = 0;
}
with_cache probe load item (api_answer status) =
    if is_auth_error (api_answer status) then from_vault probe load else cached_item item
with_cache probe load item no_contact = cached_item item

-- autoConfig up to the writing of the cache.
unfoldable pub choose_item : (Item → Probe) → Option Item → Option Item → Chosen
unfolding with_cache from_vault
choose_item probe none load = from_vault probe load
choose_item probe (some item) load = with_cache probe load item (probe item)

-- The configuration of an item: its account, webhooks, and one pool for this machine.
unfoldable pub item_config : Machine → ℤ → Text → Item → Config
unfolding host_pool
item_config m max include_url item =
    let is_org : Bool = item.account_type == codes "Organization" in
    record {
      github = record {
        org = if is_org then item.login else [];
        owner = if is_org then [] else item.login;
        token = item.token;
        app = none;
        webhook = true;
        api_url = [];
        web_url = [];
        runner_group = [];
        poll_interval = pos 0;
        repos = record {
          include = [];
          include_url = include_url;
          exclude = [];
          active_within = pos 0;
          refresh_interval = pos 0;
          archived = false;
        };
      };
      server = record { addr = []; state_dir = []; token = [] };
      pools = some (host_pool m max) ∷ [];
      log = record { level = []; format = [] };
      path = [];
    }

unfoldable pub vault_path : Bool → Text
vault_path from_cache =
    codes "1Password op://arc/github" ++ (if from_cache then codes " (cached)" else [])

-- The YAML library: a configuration's text, none for an error, and what a text decodes to.
pub record Yaml : Type 0 where
  pub marshal : Config → Option Text
  pub decode : Text → Option Config

-- How autoConfig ends: with a configuration and the item that is cached, or with an error.
pub data AutoConfig : Type 0 where
  made : Config → Item → AutoConfig
  invalid : List ConfigError → AutoConfig
  refers_to : List Text → AutoConfig
  unreadable unverified : AutoConfig

unfoldable pub parsed_config : Bool → Item → Parsed → AutoConfig
unfolding vault_path
parsed_config from_cache item (loaded c) = made (record c { path = vault_path from_cache }) item
parsed_config from_cache item (rejected es) = invalid es
parsed_config from_cache item (unset names) = refers_to names
parsed_config from_cache item undecoded = unreadable

-- The made-up configuration's way through Marshal and Parse.
unfoldable pub marshalled :
    Machine → (Text → Option Text) → Yaml → Bool → Item → Option Text → AutoConfig
unfolding parsed_config parse
marshalled m env yaml from_cache item none = unreadable
marshalled m env yaml from_cache item (some raw) =
    parsed_config from_cache item (parse m env yaml.decode raw)

unfoldable pub chosen_config :
    Machine → (Text → Option Text) → Yaml → ℤ → Text → Bool → Option Item → AutoConfig
unfolding marshalled item_config
chosen_config m env yaml max include_url from_cache none = unverified
chosen_config m env yaml max include_url from_cache (some item) =
    marshalled m env yaml from_cache item (yaml.marshal (item_config m max include_url item))

-- `autoConfig`, on the file of the cache and the fields of the vault.
unfoldable pub auto_config :
    Machine
    → (Text → Option Text)
    → Yaml
    → ℤ
    → Text
    → (Item → Probe)
    → ℕ
    → Option Item
    → Option (List VaultField)
    → AutoConfig
unfolding choose_item chosen_config load_item read_cache
auto_config m env yaml max include_url probe now file fields =
    let c : Chosen = choose_item probe (read_cache file) (load_item now fields) in
    chosen_config m env yaml max include_url c.from_cache c.item

-- Where loadConfigMax takes the configuration from.
pub data ConfigSource : Type 0 where
  config_file : Text → ConfigSource
  missing_file : Text → ConfigSource
  vault : ConfigSource

-- The path that is asked for by the flag or by ARC_CONFIG must be there; else `arc.yaml`, the user's
-- file, or the vault.
unfoldable pub config_source : (Text → Bool) → Text → Text → Text → ConfigSource
config_source exists flag variable user_path =
    let asked : Text = if flag == [] then variable else flag in
    if not (asked == [])
    then (if exists asked then config_file asked else missing_file asked)
    else if exists (codes "arc.yaml")
    then config_file (codes "arc.yaml")
    else if not (user_path == []) && exists user_path
    then config_file user_path
    else vault
