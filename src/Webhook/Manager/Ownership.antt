-- ===== src/Webhook/Manager/Ownership.antt =====
-- Which hooks are of a host: those that DeleteWebhook takes for its own, and of no other host.
use mathlib.Core.List.{append_assoc, reverse-reverse, reverse-append}
use action_runner_cluster.Prelude.{
  Text, [], ap, length, reverse, sym, true, ◌++◌, ◌∙◌, ◌∷◌, ◌≡◌, ◌≢◌,
}
use action_runner_cluster.Ghapi.Hooks.{Hook, webhook_path, hook_marker, is_own}
use action_runner_cluster.Ghapi.Hooks.Apart.{marker_lem, suffix_sound, suffix_complete, ends_apart}
use action_runner_cluster.Webhook.Manager.{host_url}

-- The hook is registered for this host, through whichever tunnel.
abbrev pub IsOfHost : Text → Hook → Type 0
IsOfHost host h = (tunnel : Text) × (h.url ≡ host_url tunnel host)

pub own-IsOfHost :
    (host : Text) (h : Hook) → is_own (hook_marker (host_url [] host)) h ≡ true → IsOfHost host h
unfolding is_own
own-IsOfHost host h e =
    let (r, same) = suffix_sound h.url (host_url [] host) (rw (marker_lem host) at e) in
    (
      reverse r,
      sym (reverse-reverse h.url)
          ∙ (ap reverse same
              ∙ (reverse-append (reverse (host_url [] host)) r
                  ∙ ap (λ t. reverse r ++ t) (reverse-reverse (host_url [] host)))),
    )

pub own_complete :
    (host : Text) (h : Hook) → IsOfHost host h → is_own (hook_marker (host_url [] host)) h ≡ true
unfolding is_own
own_complete host h (tunnel, e) =
    rw (marker_lem host, e) (suffix_complete tunnel (host_url [] host))

same_host :
    (a b host other : Text)
    → length other ≡ length host
    → host_url a host ≡ host_url b other
    → host ≡ other
same_host a b host other l e =
    let front : Text → Text = λ tunnel. tunnel ++ (webhook_path ++ b'/' ∷ []) in
    let split : (tunnel id : Text) → front tunnel ++ id ≡ host_url tunnel id =
      λ tunnel id. append_assoc tunnel (webhook_path ++ b'/' ∷ []) id in
    ends_apart (front b) (front a) host other (sym l)
      (rw (split b other, split a host, e) (suffix_complete [] (host_url b other)))

pub only_host :
    (host : Text) (h : Hook)
    → IsOfHost host h
    → (other : Text) → length other ≡ length host
    → other ≢ host
    → ¬ IsOfHost other h
only_host host h (a, e) other l apart (b, d) = apart (sym (same_host a b host other l (sym e ∙ d)))
