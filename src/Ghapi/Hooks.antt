-- ===== src/Ghapi/Hooks.antt =====
-- internal/ghapi/hooks.go: the webhooks of a host on GitHub. What the listing and each request come
-- to is an argument; the requests that are sent are kept as a list.
pub mod Apart
use action_runner_cluster.Prelude.{
  Bool, List, Option, Text, [], codes, false, has_prefix, has_suffix, if◌then◌else◌, none, or_else,
  some, suc, true, ℕ, ◌∷◌,
}

pub record Hook : Type 0 where
  pub id : ℕ
  pub url : Text

abbrev pub webhook_path : Text
webhook_path = codes "/arc/webhook"

-- strings.Index and the text from there on.
from_part : Text → Text → Option Text
unfolding has_prefix
from_part [] t = if has_prefix [] t then some [] else none
from_part (c ∷ s) t = if has_prefix (c ∷ s) t then some (c ∷ s) else from_part s t

-- `hookMarker`
unfoldable pub hook_marker : Text → Text
unfolding from_part
hook_marker url = or_else url (from_part url webhook_path)

unfoldable pub is_own : Text → Hook → Bool
unfolding has_suffix
is_own marker h = has_suffix h.url marker

pub data HookCall : Type 0 where
  patched deleted : ℕ → HookCall
  posted : HookCall

-- How a request ends: well, with not found, or with another error.
pub data HookReply : Type 0 where
  fine not_found other_error : HookReply

unfoldable pub is_fine : HookReply → Bool
is_fine fine = true
is_fine not_found = false
is_fine other_error = false

-- The loop of EnsureWebhook: the first hook that is ours is written over; without one, a new hook.
unfoldable pub ensure_listed : (HookCall → HookReply) → Text → List Hook → Bool × List HookCall
unfolding is_fine is_own
ensure_listed answers marker [] = (is_fine (answers posted), posted ∷ [])
ensure_listed answers marker (h ∷ more) =
    if is_own marker h
    then (is_fine (answers (patched h.id)), patched h.id ∷ [])
    else ensure_listed answers marker more

-- `EnsureWebhook`, its success and its writes; no listing is the error of listHooks.
unfoldable pub ensure_webhook :
    (HookCall → HookReply) → Text → Option (List Hook) → Bool × List HookCall
unfolding ensure_listed hook_marker
ensure_webhook answers url none = (false, [])
ensure_webhook answers url (some hooks) = ensure_listed answers (hook_marker url) hooks

pub record Deleted : Type 0 where
  pub count : ℕ
  pub done : Bool
  pub calls : List HookCall

-- What the loop does with one hook that is ours.
deleted_then : HookReply → ℕ → Deleted → Deleted
deleted_then fine id rest = record rest { count = suc rest.count; calls = deleted id ∷ rest.calls }
deleted_then not_found id rest = record rest { calls = deleted id ∷ rest.calls }
deleted_then other_error id rest = record { count = 0; done = false; calls = deleted id ∷ [] }

-- The loop of DeleteWebhook, from the hooks that are left to look at on.
unfoldable pub delete_listed : (HookCall → HookReply) → Text → List Hook → Deleted
unfolding deleted_then is_own
delete_listed answers marker [] = record { count = 0; done = true; calls = [] }
delete_listed answers marker (h ∷ more) =
    let rest : Deleted = delete_listed answers marker more in
    if is_own marker h then deleted_then (answers (deleted h.id)) h.id rest else rest

-- `DeleteWebhook`
unfoldable pub delete_webhook : (HookCall → HookReply) → Text → Option (List Hook) → Deleted
unfolding delete_listed hook_marker
delete_webhook answers url none = record { count = 0; done = false; calls = [] }
delete_webhook answers url (some hooks) = delete_listed answers (hook_marker url) hooks
