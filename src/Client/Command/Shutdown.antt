-- ===== src/Client/Command/Shutdown.antt =====
-- The command for a shutdown, on an agent and without one.
use credential_helper.Base.{ℕ, ◌≡◌, refl, true, false, none, some, arith}
use credential_helper.Text.{Text, lit, text_eq, text_eq_refl}
use credential_helper.Errors.{Result, ok, err}
use credential_helper.Api.{
  Json, Cache, agent_request_shutdown, agent_request_retrieve, agent_request_store,
  agent_request_prune, agent_response_ok,
}
use credential_helper.Cache.Socket.{Peer}
use credential_helper.Agent.Service.{
  CachingAgent, no_request, decode_into, begin_shutdown, handle_shutdown, dispatch, respond,
  handle_request,
}
use credential_helper.Agent.Shutdown.{IsOrderly}
use credential_helper.Client.Command.{client_command_process}

module _ {S Raw : Type 0} (cache : Cache S) (json : Json Raw) (now : Text → ℕ) where
  -- an agent that accepts a connection and answers its first request
  abbrev pub first_answer : Peer Raw (CachingAgent S)
  first_answer sent a =
      let (resp, a') =
        handle_request cache json now (decode_into no_request (some sent.method) sent.payload) a in
      (ok resp, a')

  shutdown_differs :
      (text_eq agent_request_shutdown agent_request_retrieve ≡ false)
      × (text_eq agent_request_shutdown agent_request_store ≡ false)
      × (text_eq agent_request_shutdown agent_request_prune ≡ false)
  unfolding text_eq lit
  shutdown_differs = (refl, refl, refl)

  dispatch-shutdown :
      (a : CachingAgent S)
      → dispatch cache json now (record { method = agent_request_shutdown; payload = none }) a
        ≡ handle_shutdown a
  unfolding dispatch
  dispatch-shutdown a = ground (arith, shutdown_differs, text_eq_refl agent_request_shutdown)

  -- The command for a shutdown ends well and prints nothing, whether no agent can be reached or an
  -- orderly one answers; the agent that answers has then started to shut down, and has closed its
  -- channel once.
  pub client_command_process-shutdown :
      (dialed : Result (CachingAgent S))
      → ((a : CachingAgent S) → dialed ≡ ok a → IsOrderly a)
      → ((client_command_process first_answer agent_request_shutdown none dialed).0 ≡ ok none)
        × ((a : CachingAgent S)
            → (client_command_process first_answer agent_request_shutdown none dialed).1 ≡ some a
            → (a.shutdown_started ≡ true) × (a.closes ≡ 1))
  unfolding client_command_process handle_request handle_shutdown begin_shutdown decode_into respond
  client_command_process-shutdown (err e) orderly = (
    ground (arith, text_eq_refl agent_request_shutdown),
    λ a there. ground (arith, text_eq_refl agent_request_shutdown),
  )
  client_command_process-shutdown (ok a) orderly =
      let h = orderly a refl in
      let same = dispatch-shutdown (record a { idle_timer = a.idle_timeout }) in
      (
        ground (arith, same, text_eq_refl agent_response_ok),
        λ b there. ground (arith, same, there, h.closed_once),
      )
