-- ===== src/Webhook.antt =====
-- internal/webhook/server.go: deliveries of GitHub's webhooks. HMAC-SHA256 and the decoding of JSON
-- are arguments; a body that cannot be read is none.
pub mod Doorbell
pub mod Manager
use action_runner_cluster.Prelude.{
  Bool, List, Option, Text, codes, false, if◌then◌else◌, leb, length, nat_eq, none, not, some,
  text_eq, ℕ, ◌++◌, ◌==◌, ◌||◌,
}
use action_runner_cluster.Names.{hex_encode}

pub record Delivery : Type 0 where
  pub body : Option Text
  pub signature : Text  -- the header X-Hub-Signature-256
  pub event : Text  -- the header X-GitHub-Event

-- What the handler writes, and whether it rings the orchestrator.
pub data Answer : Type 0 where
  unreadable unsigned malformed accepted : Answer

module _ (hmac : Text → Text → List ℕ) (action_of : Text → Option Text) (secret : Text) where
  -- `validSignature`
  unfoldable pub valid_signature : Text → Text → Bool
  unfolding hex_encode
  valid_signature header body =
      if leb (length header) 7
      then false
      else header == codes "sha256=" ++ hex_encode (hmac secret body)

  unfoldable pub rings : Text → Bool
  rings action = action == codes "queued" || action == codes "completed"

  -- The handler, once the signature is verified.
  unfoldable pub dispatch : Text → Text → Bool × Answer
  unfolding rings
  dispatch event body =
      if event == codes "ping"
      then (false, accepted)
      else if not (event == codes "workflow_job")
      then (false, accepted)
      else elim (action_of body) [
        | none ↦ (false, malformed)
        | some action ↦ (rings action, accepted)
      ]

  -- `Server.handle`: whether it pokes, and what it answers.
  unfoldable pub handle : Delivery → Bool × Answer
  unfolding valid_signature dispatch
  handle d = elim d.body [
    | none ↦ (false, unreadable)
    | some body ↦
        if not (valid_signature d.signature body) then (false, unsigned) else dispatch d.event body
  ]
