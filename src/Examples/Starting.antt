-- ===== src/Examples/Starting.antt =====
-- Starts of arc from 1Password, a token that is refused, and an uninstall.
use mathlib.Core.Option.{some-injective}
use action_runner_cluster.Prelude.{
  List, Option, Text, [], any, ap, codes, false, if◌then◌else◌, nat_eq, none, pos, refl, some,
  split_at, sym, text_eq, to_lower, trim_left, trim_space, true, ◌==◌, ◌∙◌, ◌∷◌, ◌≡◌, ◌⊎◌,
}
use action_runner_cluster.Config.{Config}
use action_runner_cluster.Config.Validation.{validate}
use action_runner_cluster.Config.Expansion.{
  expanded, scan_step, scan_comment, dedupe_from, is_name_start, is_name_byte, span_name,
  after_name, starts_name, replacement, expand_code, expand_lines, expanded_or, split_yaml_comment,
  dedupe, env_ref, expand_line, expand_env,
}
use action_runner_cluster.Config.Defaults.{Machine}
use action_runner_cluster.Credentials.{
  Item, VaultField, VaultAuth, refresh, load_item, read_cache, take_fields, stamped, blank_item,
  is_complete,
}
use action_runner_cluster.Credentials.Refreshing.{IsRefresh, refresh-IsRefresh}
use action_runner_cluster.Startup.{
  Probe, account, api_answer, choose_item, with_account, is_auth_error, item_config, Yaml, made,
  unverified, auto_config,
}
use action_runner_cluster.Startup.Vouched.{IsChosen, choose_item-IsChosen}
use action_runner_cluster.Startup.Valid.{auto_config_valid}
use action_runner_cluster.Uninstall.{ArcPaths, Uninstalling, confirms}

abbrev fields : List VaultField
fields =
    record { label = codes "credential"; val = codes "ghp_new" }
    ∷ record { label = codes "username"; val = codes "me" }
    ∷ []

loads :
    load_item 9 (some fields)
    ≡ some
        (record { token = codes "ghp_new"; login = codes "me"; account_type = []; fetched_at = 9 })
unfolding load_item take_fields stamped blank_item is_complete
loads = refl

abbrev old : Item
old = record {
  token = codes "ghp_old";
  login = codes "me";
  account_type = codes "User";
  fetched_at = 1;
}

-- GitHub refuses the old token.
abbrev probe : Item → Probe
probe i = if i.token == codes "ghp_old" then api_answer 401 else account (codes "User")

abbrev mac : Machine
mac = record {
  goos = codes "darwin";
  goarch = codes "arm64";
  home = some (codes "/Users/me");
  config_dir = none;
  docker_host = [];
}

choose_item-IsChosen_example :
    IsChosen probe
      (some old)
      (load_item 9 (some fields))
      (choose_item probe (some old) (load_item 9 (some fields)))
choose_item-IsChosen_example = choose_item-IsChosen probe (some old) (load_item 9 (some fields))

trimmed : trim_space (codes "arm64") ≡ codes "arm64"
unfolding trim_space trim_left
trimmed = refl

-- The item of the vault, with GitHub's word for its account.
abbrev verified : Item
verified = record {
  token = codes "ghp_new";
  login = codes "me";
  account_type = codes "User";
  fetched_at = 9;
}

abbrev written : Text
written = codes "owner: me"

-- A YAML library that knows the one configuration of that item.
abbrev yaml : Yaml
yaml = record {
  marshal = λ c. some written;
  decode = λ text. some (item_config mac (pos 2) [] verified);
}

abbrev no_variable : Text → Option Text
no_variable name = none

plain : expand_env no_variable written ≡ expanded written
unfolding scan_step scan_comment dedupe_from is_name_start is_name_byte span_name after_name
    starts_name replacement expand_code expand_lines expanded_or split_yaml_comment dedupe env_ref
    expand_line expand_env split_at any
plain = refl

chooses :
    (choose_item probe (read_cache (some old)) (load_item 9 (some fields))).item ≡ some verified
unfolding choose_item read_cache load_item take_fields stamped blank_item is_complete with_account
    is_auth_error
chooses = refl

auto_config_valid_example :
    (auto_config mac no_variable yaml (pos 2) [] probe 9 (some old) (some fields) ≡ unverified)
    ⊎ ((c : Config) × (j : Item) × ((choose_item probe
            (read_cache (some old))
            (load_item 9 (some fields))).item
          ≡ some j)
        × (validate c ≡ [])
        × (auto_config mac no_variable yaml (pos 2) [] probe 9 (some old) (some fields) ≡ made c j))
auto_config_valid_example =
    auto_config_valid mac no_variable yaml (pos 2) [] trimmed (λ e. cc) probe 9 (some old)
      (some fields)
      (λ j e.
        let same : verified ≡ j = some-injective _ _ (sym chooses ∙ e) in
        (written, refl, plain, ap (λ i. some (item_config mac (pos 2) [] i)) same))

abbrev auth : VaultAuth
auth = record { item = old; last_failed = none }

refresh-IsRefresh_example :
    IsRefresh 9
      (load_item 9 (some fields))
      (codes "ghp_old")
      auth
      (refresh 9 (load_item 9 (some fields)) (codes "ghp_old") auth)
refresh-IsRefresh_example = refresh-IsRefresh 9 (load_item 9 (some fields)) (codes "ghp_old") auth

abbrev paths : ArcPaths
paths = record {
  arc_dir = codes "/h/.arc";
  local_log = [];
  default_state_dir = codes "/h/state";
  user_path = codes "/h/.config/arc/arc.yaml";
  cache_path = codes "/h/.arc/credentials.json";
}

-- The configuration does not load, and the person says yes.
abbrev broken_host : Uninstalling
broken_host = record {
  yes = false;
  force = false;
  keep_config = false;
  needs_root = false;
  config = none;
  reachable = false;
  busy = none;
  answer = some (codes " Yes");
  service_stops = true;
  answers = λ t. false;
  exists = λ path. true;
  removable = λ path. true;
}

says_yes : confirms (some (codes " Yes")) ≡ true
unfolding confirms trim_space trim_left to_lower
says_yes = refl
