-- ===== src/Examples/Settings.antt =====
-- Files of configuration and the webhooks of two hosts.
use action_runner_cluster.Prelude.{
  List, Option, Text, [], any, codes, has_prefix, has_suffix, if◌then◌else◌, nat_eq, none, refl,
  some, split_at, strip_prefix, text_eq, ◌==◌, ◌∷◌, ◌≡◌,
}
use action_runner_cluster.Config.Expansion.{
  undefined, scan_step, scan_comment, dedupe_from, is_name_start, is_name_byte, span_name,
  after_name, starts_name, replacement, expand_code, expand_lines, expanded_or, split_yaml_comment,
  dedupe, env_ref, expand_line, expand_env,
}
use action_runner_cluster.Ghapi.Hooks.{
  hook_marker, is_own, fine, deleted, delete_webhook, delete_listed,
}
use action_runner_cluster.Webhook.Manager.{HookClient, host_url, unregister}

-- Only HOME is set.
abbrev env : Text → Option Text
env name = if name == codes "HOME" then some (codes "/root") else none

abbrev file : Text
file = codes "dir: ${HOME}/${ARC} # ${NOTE}"

expands : expand_env env file ≡ undefined (codes "ARC" ∷ [])
unfolding scan_step scan_comment dedupe_from is_name_start is_name_byte span_name after_name
    starts_name replacement expand_code expand_lines expanded_or split_yaml_comment dedupe env_ref
    expand_line expand_env split_at any
expands = refl

-- One repository with a hook of each of two hosts; GitHub deletes what it is asked to.
abbrev github : HookClient
github = record {
  hooks_of = λ repo. some (
      record { id = 1; url = host_url (codes "https://x.example") (codes "aa") }
      ∷ record { id = 2; url = host_url (codes "https://y.example") (codes "bb") }
      ∷ []);
  answers = λ repo call. fine;
}

abbrev apps : Option (List Text)
apps = some (codes "app" ∷ [])

deletes_one :
    (unregister github (codes "aa") (codes "me") apps).calls ≡ (codes "app", deleted 1) ∷ []
unfolding unregister delete_webhook delete_listed is_own hook_marker has_suffix has_prefix
    strip_prefix
deletes_one = refl
