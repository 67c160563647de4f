-- ===== src/PacketVerifier/Monitor.antt =====
-- ConfigServer::monitor_funds of iot_packet_verifier/src/verifier.rs: one pass of its loop, which
-- enables the organisations whose payers have funds again. The sleep between two passes and the
-- shutdown are left out.
use oracles.Prelude.{ℕ, Bool, true, false, List, [], ◌∷◌, ok, Action, pure, ◌>>=◌, ◌>>◌, leb}
use oracles.PacketVerifier.Solana.{PublicKey, SolanaNetwork}
use oracles.PacketVerifier.Balances.{set_balance, ask_balance}
use oracles.PacketVerifier.Orgs.{Org, OrgService, ConfigServerError, enable_org, list_orgs}
use oracles.PacketVerifier.Verifier.{Daemon, on_cache, on_orgs}
pub mod Steady
pub mod Unlocks

pub data MonitorError (SE CE : Type 0) : Type 0 where
  config_client_error : ConfigServerError CE → MonitorError SE CE
  solana_error : SE → MonitorError SE CE

module _ {Chain Server : Type 0} where
  unfoldable pub store_balance :
      {F : Type 0} → PublicKey → ℕ → Action (Daemon Chain Server) F (Unit {0})
  unfolding set_balance
  store_balance payer balance d = (
    ok tt,
    record d { world = record d.world { cache = set_balance payer balance d.world.cache } },
  )

module _ {Chain E Transaction Server CE : Type 0} (net : SolanaNetwork Chain E Transaction)
    (service : OrgService Server CE) where
  unfoldable pub enable_if :
      Bool → Org → ℕ → Action (Daemon Chain Server) (MonitorError E CE) (Unit {0})
  unfolding store_balance on_orgs
  enable_if true org balance = do
    store_balance org.payer balance
    on_orgs config_client_error (enable_org service org.oui)
  enable_if false org balance = pure tt

  unfoldable pub check_funds :
      Bool → ℕ → Org → Action (Daemon Chain Server) (MonitorError E CE) (Unit {0})
  unfolding on_cache enable_if
  check_funds true minimum org = do
    balance ← on_cache solana_error (ask_balance net org.payer)
    enable_if (leb minimum balance) org balance
  check_funds false minimum org = pure tt

  unfoldable pub monitor_each :
      ℕ → List Org → Action (Daemon Chain Server) (MonitorError E CE) (Unit {0})
  unfolding check_funds
  monitor_each minimum [] = pure tt
  monitor_each minimum (org ∷ orgs) = do
    check_funds org.locked minimum org
    monitor_each minimum orgs

  unfoldable pub monitor_pass : ℕ → Action (Daemon Chain Server) (MonitorError E CE) (Unit {0})
  unfolding on_orgs monitor_each
  monitor_pass minimum = do
    orgs ← on_orgs config_client_error (list_orgs service)
    monitor_each minimum orgs
