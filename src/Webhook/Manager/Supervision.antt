-- ===== src/Webhook/Manager/Supervision.antt =====
-- Every tunnel that comes up is registered, and no wait is longer than 128 seconds.
use action_runner_cluster.Prelude.{
  All, Bool, List, Text, [], ap, arith, false, inl, nat_eq, refl, some, text_beq_iff, text_eq, true,
  ℕ, ◌==◌, ◌↔◌, ◌∷◌, ◌≡◌, ◌≢◌, ◌≤◌, ◌⊎◌,
}
use action_runner_cluster.Webhook.Manager.{
  HookClient, host_url, ensured_at, register_each, register, TunnelEvent, no_tunnel, done,
  tunnel_up, Action, waits, registers, longer_wait, supervise_from, supervise,
}

-- The URLs of the tunnels that come up before the context ends.
abbrev pub urls_up : List TunnelEvent → List Text
urls_up [] = []
urls_up (done ∷ more) = []
urls_up (no_tunnel ∷ more) = urls_up more
urls_up (tunnel_up url ∷ more) = url ∷ urls_up more

abbrev pub registered : List Action → List Text
registered [] = []
registered (waits n ∷ more) = registered more
registered (registers url ∷ more) = url ∷ registered more

abbrev pub IsShort : Action → Type 0
IsShort (waits n) = (1 ≤ n) × (n ≤ 128)
IsShort (registers url) = Unit

-- The waits that occur.
abbrev IsBackoff : ℕ → Type 0
IsBackoff n =
    (n ≡ 1) ⊎ ((n ≡ 2) ⊎ ((n ≡ 4) ⊎ ((n ≡ 8) ⊎ ((n ≡ 16) ⊎ ((n ≡ 32) ⊎ ((n ≡ 64) ⊎ (n ≡ 128)))))))

longer-IsBackoff : (n : ℕ) → IsBackoff n → IsBackoff (longer_wait n)
unfolding longer_wait
longer-IsBackoff n b = ground arith

longer_wait-IsShort : (n : ℕ) → IsBackoff n → IsShort (waits n)
longer_wait-IsShort n b = ground arith

supervised :
    (n : ℕ) (events : List TunnelEvent)
    → IsBackoff n
    → (registered (supervise_from n events) ≡ urls_up events)
      × All IsShort (supervise_from n events)
unfolding supervise_from
supervised n [] b = (refl, tt)
supervised n (done ∷ more) b = (refl, tt)
supervised n (no_tunnel ∷ more) b =
    let (same, short) = supervised (longer_wait n) more (longer-IsBackoff n b) in
    (same, (longer_wait-IsShort n b, short))
supervised n (tunnel_up url ∷ more) b =
    let (same, short) = supervised 1 more (inl refl) in (ap (λ t. url ∷ t) same, (tt, short))

-- The supervision registers every tunnel that comes up, in their order and each once, and every
-- wait for the next attempt is from 1 to 128 seconds long, however many attempts fail.
pub supervise_lem :
    (events : List TunnelEvent)
    → (registered (supervise events) ≡ urls_up events) × All IsShort (supervise events)
unfolding supervise
supervise_lem events = supervised 1 events (inl refl)

register_each_lem :
    (ensure : Text → Bool) (names : List Text)
    → ((register_each ensure names).tried ≡ names)
      × (((register_each ensure names).fine ≡ true) ↔ All (λ n. ensure n ≡ true) names)
unfolding register_each
register_each_lem ensure [] = (refl, (λ _. tt, λ _. refl))
register_each_lem ensure (n ∷ more) =
    let (tried, all) = register_each_lem ensure more in
    (
      ap (λ t. n ∷ t) tried,
      (λ e. (ground arith, all.0 (ground arith)), λ a. ground (arith, a.0, all.1 a.1)),
    )

-- On a personal account register tries every repository, also behind one that fails, and reports
-- success exactly if EnsureWebhook of this host's URL succeeded for all of them.
pub register_lem :
    (c : HookClient) (tunnel host owner : Text) (names : List Text)
    → owner ≢ []
    → ((register c tunnel host owner (some names)).tried ≡ names)
      × (((register c tunnel host owner (some names)).fine ≡ true)
          ↔ All (λ n. ensured_at c (host_url tunnel host) n ≡ true) names)
unfolding register
register_lem c tunnel host owner names personal =
    let q : (owner == []) ≡ false = ground (arith, personal, text_beq_iff owner []) in
    rw q (register_each_lem (ensured_at c (host_url tunnel host)) names)
