-- ===== src/PacketVerifier/Orgs/Enabled.antt =====
-- `enable_org` of CachedOrgClient (iot_packet_verifier/src/verifier.rs) keeps its cache truthful.
use oracles.Prelude.{
  ℕ, Bool, true, false, Option, none, some, ◌≡◌, refl, lookup, arith, Reply, done, failed, subst,
}
use oracles.PacketVerifier.Orgs.{OrgService, OrgClient, enable_org, call_enable, answered}
use oracles.PacketVerifier.Orgs.Locks.{
  OrgLaws, IsTruthful, Agrees, TruthfulBut, WhenOk, answered-IsTruthful, inserted-TruthfulBut,
}

module _ {Server E : Type 0} (service : OrgService Server E) (laws : OrgLaws service) where
  call_enable-WhenOk :
      (oui : ℕ) (c : OrgClient Server)
      → TruthfulBut service laws oui c
      → WhenOk service laws (call_enable service oui c)
  unfolding call_enable
  call_enable-WhenOk oui c t = go (service.enable oui c.server) refl
    where
      go :
          (r : Reply E (Unit {0}) × Server)
          → service.enable oui c.server ≡ r
          → WhenOk service laws (answered {E = E} oui true c r)
      go (done u, s') e =
          answered-IsTruthful service laws oui true c s' t
            (λ q. laws.enable_done oui q c.server s' e)
      go (failed x, s') e = tt

  -- Where the cache is truthful, `enable_org` does not panic, and one that returns leaves it truthful.
  pub enable_org-IsTruthful :
      (oui : ℕ) (c : OrgClient Server)
      → IsTruthful service laws c
      → WhenOk service laws (enable_org service oui c)
  unfolding enable_org
  enable_org-IsTruthful oui c h = go (lookup oui c.locked_cache) refl
    where
      go :
          (o : Option Bool)
          → lookup oui c.locked_cache ≡ o
          → WhenOk service laws (enable_org service oui c)
      go none e = rw e (call_enable-WhenOk oui _ (inserted-TruthfulBut service laws oui false c h))
      go (some false) e =
          rw e (call_enable-WhenOk oui _ (inserted-TruthfulBut service laws oui false c h))
      go (some true) e = rw e (
          answered-IsTruthful service laws oui true c c.server (λ q _. h q)
            (λ q. ground (arith, already e)))
        where
          already : lookup oui c.locked_cache ≡ some true → laws.locked c.server oui ≡ false
          already e = subst (λ o. Agrees service laws oui o c.server) e (h oui)
