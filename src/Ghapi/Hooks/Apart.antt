-- ===== src/Ghapi/Hooks/Apart.antt =====
-- Which hooks a host writes over and deletes: its own, and never another host's.
use mathlib.Core.List.{reverse-reverse, reverse-append, append_assoc}
use action_runner_cluster.Prelude.{
  All, All-map, Any, Bool-cases, List, Option-cases, Text, [], ap, arith, false, has_prefix,
  has_suffix, inl, inr, length, length-append, map, refl, reverse, select, some, strip_prefix,
  strip_prefix-append, strip_prefix_sound, suc, sym, true, ◌++◌, ◌∙◌, ◌∷◌, ◌≡◌, ◌≢◌,
}
use action_runner_cluster.Ghapi.Hooks.{
  Hook, webhook_path, from_part, hook_marker, is_own, HookCall, patched, deleted, posted, HookReply,
  fine, not_found, other_error, is_fine, ensure_listed, ensure_webhook, Deleted, deleted_then,
  delete_listed, delete_webhook,
}

length-reverse : (s : Text) → length (reverse s) ≡ length s
length-reverse [] = refl
length-reverse (c ∷ s) =
    rw (reverse-append (c ∷ []) s)
      (omega (arith, length-append (reverse s) (c ∷ []), length-reverse s))

same_front : (p q s t : Text) → length p ≡ length q → p ++ s ≡ q ++ t → p ≡ q
same_front [] [] s t l e = refl
same_front [] (d ∷ q) s t l e = absurd (omega arith)
same_front (c ∷ p) [] s t l e = absurd (omega arith)
same_front (c ∷ p) (d ∷ q) s t l e = let rest : p ≡ q = same_front p q s t (omega arith) (cc) in cc

pub suffix_sound : (s t : Text) → has_suffix s t ≡ true → (r : Text) × (reverse s ≡ reverse t ++ r)
unfolding has_suffix has_prefix
suffix_sound s t e = elim (Option-cases (strip_prefix (reverse t) (reverse s))) [
  | inl no_match ↦ absurd (let q : false ≡ true = rw (no_match, has_suffix, has_prefix) at e in cc)
  | inr (r, found) ↦ (r, strip_prefix_sound (reverse t) (reverse s) found)
]

pub suffix_complete : (front t : Text) → has_suffix (front ++ t) t ≡ true
unfolding has_suffix has_prefix
suffix_complete front t =
    rw (reverse-append front t, has_prefix, strip_prefix-append (reverse t) (reverse front)) refl

-- The URL that Unregister looks for is its own marker.
pub marker_lem :
    (host : Text) → hook_marker (webhook_path ++ (b'/' ∷ host)) ≡ webhook_path ++ (b'/' ∷ host)
unfolding hook_marker from_part has_prefix strip_prefix
marker_lem host = refl

-- Both texts end with a host's id.
pub ends_apart :
    (x y a b : Text) → length a ≡ length b → has_suffix (x ++ b) (y ++ a) ≡ true → a ≡ b
ends_apart x y a b l e =
    let (r, same) = suffix_sound (x ++ b) (y ++ a) e in
    let both : reverse b ++ reverse x ≡ reverse a ++ (reverse y ++ r) =
      sym (reverse-append x b)
      ∙ (same ∙ (ap (λ t. t ++ r) (reverse-append y a) ∙ append_assoc (reverse a) (reverse y) r)) in
    let q : reverse b ≡ reverse a =
      same_front (reverse b) (reverse a) (reverse x) (reverse y ++ r)
        (omega (arith, length-reverse a, length-reverse b)) both in
    sym (reverse-reverse a) ∙ (ap reverse (sym q) ∙ reverse-reverse b)

-- The hooks of a listing that are this host's.
abbrev pub own_hooks : Text → List Hook → List Hook
own_hooks marker hooks = select (is_own marker) hooks

unfoldable pub first_write : List Hook → HookCall
first_write [] = posted
first_write (h ∷ more) = patched h.id

listed_lem :
    (answers : HookCall → HookReply) (marker : Text) (hs : List Hook)
    → ensure_listed answers marker hs ≡ (
      is_fine (answers (first_write (own_hooks marker hs))),
      first_write (own_hooks marker hs) ∷ [],
    )
unfolding ensure_listed first_write select
listed_lem answers marker [] = refl
listed_lem answers marker (h ∷ more) = elim (Bool-cases (is_own marker h)) [
  | inl own ↦ rw (own, select) refl
  | inr other ↦ rw (other, select) (listed_lem answers marker more)
]

-- EnsureWebhook sends one write: over the first hook that is this host's, and a new hook if there
-- is none; it succeeds exactly if that write does.
pub ensure_webhook_lem :
    (answers : HookCall → HookReply) (url : Text) (hooks : List Hook)
    → ensure_webhook answers url (some hooks) ≡ (
      is_fine (answers (first_write (own_hooks (hook_marker url) hooks))),
      first_write (own_hooks (hook_marker url) hooks) ∷ [],
    )
unfolding ensure_webhook
ensure_webhook_lem answers url hooks = listed_lem answers (hook_marker url) hooks

-- What DeleteWebhook does to the hooks that are this host's.
pub record IsDeletion (answers : HookCall → HookReply) (own : List Hook) (d : Deleted)
    : Type 0 where
  pub whole :
      d.done ≡ true
      → (d.calls ≡ map (λ h. deleted h.id) own)
        × (d.count ≡ length (select (λ h. is_fine (answers (deleted h.id))) own))
        × All (λ h. answers (deleted h.id) ≢ other_error) own
  pub broken : d.done ≡ false → Any (λ h. answers (deleted h.id) ≡ other_error) own
  pub only_own : All (λ c. Any (λ h. c ≡ deleted h.id) own) d.calls

deleted_then_lem :
    (answers : HookCall → HookReply) (h : Hook) (own : List Hook) (d : Deleted)
    → IsDeletion answers own d
    → (r : HookReply) → answers (deleted h.id) ≡ r
    → IsDeletion answers (h ∷ own) (deleted_then r h.id d)
unfolding deleted_then is_fine select
deleted_then_lem answers h own d i fine e = record {
  whole = λ q.
      let (calls, count, good) = i.whole q in
      let counted : is_fine (answers (deleted h.id)) ≡ true = rw e refl in
      (
        ap (λ t. deleted h.id ∷ t) calls,
        rw (counted, select) (ap suc count),
        ((λ bad. apart (sym e ∙ bad)), good),
      );
  broken = λ q. inr (i.broken q);
  only_own = (inl refl, All-map _ _ d.calls (λ c a. inr a) i.only_own);
}
  where
    apart : fine ≢ other_error
    apart q = cc
deleted_then_lem answers h own d i not_found e = record {
  whole = λ q.
      let (calls, count, good) = i.whole q in
      let missed : is_fine (answers (deleted h.id)) ≡ false = rw e refl in
      (
        ap (λ t. deleted h.id ∷ t) calls,
        rw (missed, select) count,
        ((λ bad. apart (sym e ∙ bad)), good),
      );
  broken = λ q. inr (i.broken q);
  only_own = (inl refl, All-map _ _ d.calls (λ c a. inr a) i.only_own);
}
  where
    apart : not_found ≢ other_error
    apart q = cc
deleted_then_lem answers h own d i other_error e = record {
  whole = λ q. absurd (let w : false ≡ true = q in cc);
  broken = λ _. inl e;
  only_own = (inl refl, tt);
}

delete_listed_lem :
    (answers : HookCall → HookReply) (marker : Text) (hs : List Hook)
    → IsDeletion answers (own_hooks marker hs) (delete_listed answers marker hs)
unfolding delete_listed select
delete_listed_lem answers marker [] = record {
  whole = λ _. (refl, refl, tt);
  broken = λ q. absurd (let w : true ≡ false = q in cc);
  only_own = tt;
}
delete_listed_lem answers marker (h ∷ more) =
    let rest : IsDeletion answers (own_hooks marker more) (delete_listed answers marker more) =
      delete_listed_lem answers marker more in
    elim (Bool-cases (is_own marker h)) [
      | inl own ↦
          simp (own, delete_listed, select)
            (deleted_then_lem answers h (own_hooks marker more) (delete_listed answers marker more)
              rest (answers (deleted h.id)) refl)
      | inr other ↦ simp (other, delete_listed, select) rest
    ]

-- DeleteWebhook, of hooks that are listed: if it succeeds, every hook of this host has been asked to
-- be deleted, each once and in the order of the listing, the count is of those that were there, and
-- no answer was an error; if it fails, some answer was one; and in both cases no other hook is
-- touched.
pub delete_webhook-IsDeletion :
    (answers : HookCall → HookReply) (url : Text) (hooks : List Hook)
    → IsDeletion answers
        (own_hooks (hook_marker url) hooks)
        (delete_webhook answers url (some hooks))
unfolding delete_webhook
delete_webhook-IsDeletion answers url hooks = delete_listed_lem answers (hook_marker url) hooks
