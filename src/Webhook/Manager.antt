-- ===== src/Webhook/Manager.antt =====
-- internal/webhook/manager.go: register, Unregister and the supervision in Run. What GitHub answers
-- is an argument; the supervision is over the events that it waits for.
pub mod Supervision
pub mod Ownership
pub mod Apart
use action_runner_cluster.Prelude.{
  Bool, List, Option, Text, [], false, if◌then◌else◌, ltb, map, nat_eq, none, some, text_eq, true,
  ℕ, ◌&&◌, ◌*◌, ◌++◌, ◌+◌, ◌==◌, ◌∷◌,
}
use action_runner_cluster.Ghapi.Hooks.{
  Hook, webhook_path, HookCall, HookReply, ensure_webhook, Deleted, delete_webhook,
}

-- GitHub's answers: the hooks that it lists for a repository, the empty one for the organization,
-- none for an error, and what each request for it comes to.
pub record HookClient : Type 0 where
  pub hooks_of : Text → Option (List Hook)
  pub answers : Text → HookCall → HookReply

-- The URL of this host's hooks behind a tunnel; without one, what Unregister looks for.
abbrev pub host_url : Text → Text → Text
host_url tunnel host = tunnel ++ (webhook_path ++ (b'/' ∷ host))

pub record Registered : Type 0 where
  pub fine : Bool
  pub tried : List Text

-- The loop over the repositories of a personal account: an error is kept, and the loop goes on.
register_each : (Text → Bool) → List Text → Registered
register_each ensure [] = record { fine = true; tried = [] }
register_each ensure (repo ∷ more) =
    let rest : Registered = register_each ensure more in
    record { fine = ensure repo && rest.fine; tried = repo ∷ rest.tried }

-- EnsureWebhook of one repository, its success.
abbrev pub ensured_at : HookClient → Text → Text → Bool
ensured_at c url repo = (ensure_webhook (c.answers repo) url (c.hooks_of repo)).0

-- `register`, of the organization or of each repository of the account; no repositories is the error
-- of listing them.
unfoldable pub register : HookClient → Text → Text → Text → Option (List Text) → Registered
unfolding register_each ensure_webhook
register c tunnel host owner repos =
    let ensure : Text → Bool = ensured_at c (host_url tunnel host) in
    if owner == [] then record { fine = ensure []; tried = [] ∷ [] } else elim repos [
      | none ↦ record { fine = false; tried = [] }
      | some names ↦ register_each ensure names
    ]

-- The count, whether there was no error, and the requests that were sent, each with its repository.
pub record Unregistered : Type 0 where
  pub total : ℕ
  pub fine : Bool
  pub calls : List (Text × HookCall)

-- DeleteWebhook of one repository.
abbrev pub delete_at : HookClient → Text → Text → Deleted
delete_at c url repo = delete_webhook (c.answers repo) url (c.hooks_of repo)

abbrev pub placed : Text → List HookCall → List (Text × HookCall)
placed repo calls = map (λ k. (repo, k)) calls

-- The loop of Unregister: an error is kept, and the loop goes on.
unregister_each : HookClient → Text → List Text → Unregistered
unfolding delete_webhook
unregister_each c url [] = record { total = 0; fine = true; calls = [] }
unregister_each c url (repo ∷ more) =
    let rest : Unregistered = unregister_each c url more in
    let d : Deleted = delete_at c url repo in
    record {
      total = if d.done then d.count + rest.total else rest.total;
      fine = d.done && rest.fine;
      calls = placed repo d.calls ++ rest.calls;
    }

-- `Unregister`
unfoldable pub unregister : HookClient → Text → Text → Option (List Text) → Unregistered
unfolding unregister_each
unregister c host owner repos =
    let url : Text = host_url [] host in
    let d : Deleted = delete_at c url [] in
    if owner == []
    then record { total = if d.done then d.count else 0; fine = d.done; calls = placed [] d.calls }
    else elim repos [
      | none ↦ record { total = 0; fine = false; calls = [] }
      | some names ↦ unregister_each c url names
    ]

-- What the loop of Run waits for: a tunnel that does not start, one that is up and later exits, and
-- the end of the context.
pub data TunnelEvent : Type 0 where
  no_tunnel done : TunnelEvent
  tunnel_up : Text → TunnelEvent

pub data Action : Type 0 where
  waits : ℕ → Action
  registers : Text → Action

-- Seconds: doubled below two minutes.
unfoldable pub longer_wait : ℕ → ℕ
longer_wait backoff = if ltb backoff 120 then backoff * 2 else backoff

supervise_from : ℕ → List TunnelEvent → List Action
unfolding longer_wait
supervise_from backoff [] = []
supervise_from backoff (done ∷ more) = []
supervise_from backoff (no_tunnel ∷ more) =
    waits backoff ∷ supervise_from (longer_wait backoff) more
supervise_from backoff (tunnel_up url ∷ more) = registers url ∷ supervise_from 1 more

-- The loop of `Run`.
unfoldable pub supervise : List TunnelEvent → List Action
unfolding supervise_from
supervise events = supervise_from 1 events
