-- ===== src/Dispatch/Reach.antt =====
-- Any number of requests, one after the other: the array of connected users stays well-formed.
use datacomm_chat_server.Dispatch.Serving.{handle_request-IsCache}
use datacomm_chat_server.Cache.{get_num_connected_users}
use datacomm_chat_server.CString.{Str}
use datacomm_chat_server.Records.{Server, Env}
use datacomm_chat_server.Ndbm.{Ndbm}
use datacomm_chat_server.Prelude.{sym, subst, arith, ◌≡◌, length, ℕ, some, arith, ℤ, ◌≡◌}
use datacomm_chat_server.Cache.{initial_users}
use datacomm_chat_server.Cache.View.{IsCache, connected, initial_users-IsCache, get_num-connected}
use datacomm_chat_server.Request.Holds.{Holds}
use datacomm_chat_server.Dispatch.Invariant.{CacheOf}
use datacomm_chat_server.Dispatch.{handle_request}

module _ ⦃N : Ndbm⦄ where
  -- The requests that a server answers one after the other.
  pub data Reaches : Server → Server → Type 0 where
    start : {s : Server} → Reaches s s
    request :
        {s s' s'' : Server} (env : Env) (fd : ℕ) (addr : Str) (code : ℤ)
        → handle_request env fd addr s ≡ some (code, s')
        → Reaches s' s''
        → Reaches s s''

  step-IsCache :
      (env : Env) (fd : ℕ) (addr : Str) (code : ℤ) (s s' : Server)
      → handle_request env fd addr s ≡ some (code, s')
      → CacheOf s
      → CacheOf s'
  unfolding Holds
  step-IsCache env fd addr code s s' e ok =
      subst (Holds (λ after. CacheOf after.1)) e (handle_request-IsCache env fd addr s ok)

  pub Reaches-IsCache : {s s' : Server} → Reaches s s' → CacheOf s → CacheOf s'
  Reaches-IsCache start ok = ok
  Reaches-IsCache (request env fd addr code e later) ok =
      Reaches-IsCache later (step-IsCache env fd addr code _ _ e ok)

  -- From a server whose array of connected users was just cleared, any sequence of requests leaves an
  -- array with all its places in which no entry stands behind a free one, and of which
  -- `get_num_connected_users` counts exactly the connected users.
  pub reachable-IsCache :
      (s s' : Server)
      → s.cache ≡ initial_users
      → Reaches s s'
      → IsCache s'.cache × (get_num_connected_users s'.cache ≡ length (connected s'.cache))
  reachable-IsCache s s' cleared steps =
      let ok = Reaches-IsCache steps (subst IsCache (sym cleared) initial_users-IsCache) in
      (ok, get_num-connected s'.cache (omega (arith, ok.size)))
