-- ===== src/PacketVerifier/Orgs.antt =====
-- iot_packet_verifier/src/verifier.rs: `CachedOrgClient` over the config service's `Orgs` client,
-- which stands outside the daemon: each of its calls may change the server and may fail.
pub mod Locks
pub mod Enabled
use oracles.Prelude.{
  Reply, done, failed, ℕ, Bool, true, false, not, List, [], ◌∷◌, map, Option, none, some, Outcome,
  ok, err, panic, Action, pure, raise, ◌>>=◌, ◌>>◌, Call, of_reply, Dict, lookup, insert,
  if◌then◌else◌, leb,
}
use oracles.PacketVerifier.Solana.{PublicKey, SolanaNetwork}
use oracles.PacketVerifier.Balances.{Cache, set_balance}

pub record Org : Type 0 where
  pub oui : ℕ
  pub payer : PublicKey
  pub locked : Bool

-- `get` answers with the payer of the organisation, if there is one.
pub record OrgService (Server Error : Type 0) : Type 0 where
  pub get : ℕ → Call Server Error (Option PublicKey)
  pub enable : ℕ → Call Server Error (Unit {0})
  pub disable : ℕ → Call Server Error (Unit {0})
  pub list : Call Server Error (List Org)

pub data ConfigServerError (E : Type 0) : Type 0 where
  org_error : E → ConfigServerError E
  not_found : ℕ → ConfigServerError E

-- An entry of the cache is true while the organisation counts as enabled.
pub record OrgClient (Server : Type 0) : Type 0 where
  pub server : Server
  pub locked_cache : Dict Bool

abbrev pub or_default : Bool → Option Bool → Bool
or_default d none = d
or_default d (some b) = b

module _ {Server : Type 0} where
  unfoldable pub on_server :
      {E F A : Type 0} → (E → F) → Call Server E A → Action (OrgClient Server) F A
  on_server f call c =
      let (r, server') = call c.server in (of_reply f r, record c { server = server' })

  -- `*locked_cache.entry(oui).or_insert(d)`.
  unfoldable pub locked_entry : {F : Type 0} → ℕ → Bool → Action (OrgClient Server) F Bool
  locked_entry oui d c =
      let b = or_default d (lookup oui c.locked_cache) in
      (ok b, record c { locked_cache = insert oui b c.locked_cache })

  -- The entry of the cache is set if the service has answered well.
  unfoldable pub answered :
      {E : Type 0}
      → ℕ
      → Bool
      → OrgClient Server
      → Reply E (Unit {0}) × Server
      → Outcome (ConfigServerError E) (Unit {0}) × OrgClient Server
  answered oui b c (done _, s) =
      (ok tt, record c { server = s; locked_cache = insert oui b c.locked_cache })
  answered oui b c (failed e, s) = (err (org_error e), record c { server = s })

module _ {Server E : Type 0} (service : OrgService Server E) where
  payer_or_not_found :
      ℕ → Option PublicKey → Action (OrgClient Server) (ConfigServerError E) PublicKey
  payer_or_not_found oui none = raise (not_found oui)
  payer_or_not_found oui (some payer) = pure payer

  -- The payer of an organisation, asked for once and then kept in `oui_cache`.
  unfoldable pub fetch_org :
      ℕ
      → Dict PublicKey
      → Action (OrgClient Server) (ConfigServerError E) (PublicKey × Dict PublicKey)
  unfolding on_server payer_or_not_found
  fetch_org oui oui_cache = elim (lookup oui oui_cache) [
    | some payer ↦ pure (payer, oui_cache)
    | none ↦ do
      org ← on_server org_error (service.get oui)
      payer ← payer_or_not_found oui org
      pure (payer, insert oui payer oui_cache)
  ]

  -- `orgs.disable(oui)` and the entry of the cache after it.
  unfoldable pub call_disable : ℕ → Action (OrgClient Server) (ConfigServerError E) (Unit {0})
  unfolding answered
  call_disable oui c = answered oui false c (service.disable oui c.server)

  unfoldable pub disable_entry :
      Bool → ℕ → Action (OrgClient Server) (ConfigServerError E) (Unit {0})
  unfolding call_disable
  disable_entry true oui = call_disable oui
  disable_entry false oui = pure tt

  unfoldable pub disable_org : ℕ → Action (OrgClient Server) (ConfigServerError E) (Unit {0})
  unfolding locked_entry disable_entry
  disable_org oui = do enabled ← locked_entry oui true; disable_entry enabled oui

  unfoldable pub call_enable : ℕ → Action (OrgClient Server) (ConfigServerError E) (Unit {0})
  unfolding answered
  call_enable oui c = answered oui true c (service.enable oui c.server)

  unfoldable pub enable_entry :
      Bool → ℕ → Action (OrgClient Server) (ConfigServerError E) (Unit {0})
  unfolding call_enable
  enable_entry true oui = pure tt
  enable_entry false oui = call_enable oui

  unfoldable pub enable_org : ℕ → Action (OrgClient Server) (ConfigServerError E) (Unit {0})
  unfolding locked_entry enable_entry
  enable_org oui = do enabled ← locked_entry oui false; enable_entry enabled oui

  unfoldable pub list_orgs : Action (OrgClient Server) (ConfigServerError E) (List Org)
  unfolding on_server
  list_orgs = on_server org_error service.list
