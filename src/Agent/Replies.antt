-- ===== src/Agent/Replies.antt =====
-- What a client of the agent gets back on its connection.
use credential_helper.Base.{ℕ, suc, ◌≡◌, refl, ap, none, some, List, [], ◌∷◌, length}
use credential_helper.Text.{Text}
use credential_helper.Api.{AgentRequest, Json, Cache}
use credential_helper.Agent.Service.{
  CachingAgent, Incoming, message, malformed, decode_into, handle_request, handle_conn,
}

-- the messages that are answered: all up to the first malformed one, and that
abbrev pub answered : {Raw : Type 0} → List (Incoming Raw × (Text → ℕ)) → ℕ
answered [] = 0
answered ((malformed, now) ∷ rest) = 1
answered ((message m p, now) ∷ rest) = suc (answered rest)

module _ {S Raw : Type 0} (cache : Cache S) (json : Json Raw) where
  -- Each message on a connection gets one response, up to and with the first malformed one.
  pub length-handle_conn :
      (req : AgentRequest Raw) (incoming : List (Incoming Raw × (Text → ℕ))) (a : CachingAgent S)
      → length (handle_conn cache json req incoming a).0 ≡ answered incoming
  unfolding handle_conn
  length-handle_conn req [] a = refl
  length-handle_conn req ((malformed, now) ∷ rest) a = refl
  length-handle_conn req ((message m p, now) ∷ rest) a =
      let req' = decode_into req m p in
      ap suc (length-handle_conn req' rest (handle_request cache json now req' a).1)

  -- A message with no payload is handled with the payload of the message before it.
  pub stale_payload :
      (m n : Text) (p : Raw) (req : AgentRequest Raw) (now now' : Text → ℕ)
      (rest : List (Incoming Raw × (Text → ℕ))) (a : CachingAgent S)
      → handle_conn cache json req
          ((message (some m) (some p), now) ∷ (message (some n) none, now') ∷ rest)
          a
        ≡ handle_conn cache json req
            ((message (some m) (some p), now) ∷ (message (some n) (some p), now') ∷ rest)
            a
  unfolding handle_conn decode_into
  stale_payload m n p req now now' rest a = refl
