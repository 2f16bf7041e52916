-- ===== src/Webhook/Doorbell.antt =====
-- internal/webhook/server.go: which deliveries ring the orchestrator.
use mathlib.Core.Option.{some-injective}
use action_runner_cluster.Prelude.{
  Bool-cases, List, Option, Option-cases, Text, ap, arith, codes, inl, inr, length, nat_eq, none,
  refl, some, subst, sym, text_beq_iff, text_eq, true, ℕ, ◌++◌, ◌<◌, ◌==◌, ◌↔◌, ◌∙◌, ◌≡◌, ◌⊎◌,
}
use action_runner_cluster.Names.{hex_encode}
use action_runner_cluster.Webhook.{Delivery, valid_signature, rings, dispatch, handle}

valid_signature_iff :
    (hmac : Text → Text → List ℕ) (action_of : Text → Option Text) (secret header body : Text)
    → (valid_signature hmac action_of secret header body ≡ true)
      ↔ ((header ≡ codes "sha256=" ++ hex_encode (hmac secret body)) × (7 < length header))
unfolding valid_signature
valid_signature_iff hmac action_of secret header body =
    ground (arith, text_beq_iff header (codes "sha256=" ++ hex_encode (hmac secret body)))

rings_iff :
    (hmac : Text → Text → List ℕ) (action_of : Text → Option Text) (secret action : Text)
    → (rings hmac action_of secret action ≡ true)
      ↔ ((action ≡ codes "queued") ⊎ (action ≡ codes "completed"))
unfolding rings
rings_iff hmac action_of secret action =
    ground (arith, text_beq_iff action (codes "queued"), text_beq_iff action (codes "completed"))

told :
    (action : Text)
    → (action ≡ codes "queued") ⊎ (action ≡ codes "completed")
    → (some action ≡ some (codes "queued")) ⊎ (some action ≡ some (codes "completed"))
told action (inl e) = inl (ap some e)
told action (inr e) = inr (ap some e)

tells :
    (action : Text)
    → (some action ≡ some (codes "queued")) ⊎ (some action ≡ some (codes "completed"))
    → (action ≡ codes "queued") ⊎ (action ≡ codes "completed")
tells action (inl e) = inl (some-injective _ _ e)
tells action (inr e) = inr (some-injective _ _ e)

dispatch_iff :
    (hmac : Text → Text → List ℕ) (action_of : Text → Option Text) (secret event body : Text)
    → ((dispatch hmac action_of secret event body).0 ≡ true) ↔ (
        (event ≡ codes "workflow_job")
        × ((action_of body ≡ some (codes "queued")) ⊎ (action_of body ≡ some (codes "completed"))))
unfolding dispatch
dispatch_iff hmac action_of secret event body = elim (Bool-cases (event == codes "workflow_job")) [
  | inl job ↦
      let same = (text_beq_iff event (codes "workflow_job")).0 job in
      elim (Option-cases (action_of body)) [
        | inl e ↦ rw (same, e, dispatch) (λ h. cc, λ h. absurd (ground arith))
        | inr (action, e) ↦
            rw (same, e, dispatch)
              (
                λ h. (refl, told action ((rings_iff hmac action_of secret action).0 h)),
                λ (_, h). (rings_iff hmac action_of secret action).1 (tells action h),
              )
      ]
  | inr other ↦ (
    λ h. absurd (ground arith),
    λ h. absurd (ground (arith, text_beq_iff event (codes "workflow_job"))),
  )
]

no_body : (body : Text) → ◌≡◌ {A = Option Text} none (some body) → ⊥
no_body body e = cc

-- The handler rings the orchestrator exactly for a delivery that can be read, that is signed with
-- the secret, and that tells of a workflow job that is queued or completed.
pub handle_iff :
    (hmac : Text → Text → List ℕ) (action_of : Text → Option Text) (secret : Text) (d : Delivery)
    → ((handle hmac action_of secret d).0 ≡ true) ↔ (
        (body : Text) × (d.body ≡ some body)
        × (d.signature ≡ codes "sha256=" ++ hex_encode (hmac secret body))
        × (7 < length d.signature)
        × (d.event ≡ codes "workflow_job")
        × ((action_of body ≡ some (codes "queued")) ⊎ (action_of body ≡ some (codes "completed"))))
unfolding handle
handle_iff hmac action_of secret d = elim (Option-cases d.body) [
  | inl e ↦ rw (e, handle) (λ h. cc, λ (body, b, _, _, _, _). absurd (no_body body b))
  | inr (body, e) ↦ elim (Bool-cases (valid_signature hmac action_of secret d.signature body)) [
    | inl signed ↦
        let (same, long) = (valid_signature_iff hmac action_of secret d.signature body).0 signed in
        let (to, back) = dispatch_iff hmac action_of secret d.event body in
        rw (e, signed, handle)
          (
            λ h. let (event, action) = to h in (body, refl, same, long, event, action),
            λ (b, eb, _, _, event, action). back (
              event,
              subst
                  (λ (t : Text).
                    (action_of t ≡ some (codes "queued"))
                    ⊎ (action_of t ≡ some (codes "completed")))
                  (sym (some-injective _ _ eb)) action,
            ),
          )
    | inr unsigned ↦
        rw (e, unsigned, handle)
          (
            λ h. cc,
            λ (b, eb, same, long, _, _). absurd (
                let ok = (valid_signature_iff hmac action_of secret d.signature body).1 (
                  same
                      ∙ ap (λ (t : Text). codes "sha256=" ++ hex_encode (hmac secret t))
                          (sym (some-injective _ _ eb)),
                  long,
                ) in
                ground arith),
          )
  ]
]
