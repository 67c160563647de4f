-- ===== src/PacketVerifier/Orgs/Locks.antt =====
-- The locks that `CachedOrgClient` remembers are those of the config service.
use oracles.Prelude.{
  ℕ, Bool, true, false, not, Option, none, some, Outcome, ok, err, panic, ◌≡◌, refl, sym, subst,
  lookup, insert, lookup-insert, Bool-cases, inl, inr, ◌∙◌, arith, if◌then◌else◌, ◌==◌, ◌≢◌, Reply,
  done, failed,
}
use oracles.PacketVerifier.Orgs.{
  OrgService, OrgClient, disable_org, enable_org, call_disable, call_enable, answered,
}

-- What the service documents: a call that succeeds sets the lock of its organisation and no other. A
-- call that fails may have set it or not.
pub record OrgLaws {Server E : Type 0} (service : OrgService Server E) : Type 0 where
  pub locked : Server → ℕ → Bool
  pub disable_done :
      (oui q : ℕ) (s s' : Server)
      → service.disable oui s ≡ (done tt, s')
      → locked s' q ≡ (if oui == q then true else locked s q)
  pub enable_done :
      (oui q : ℕ) (s s' : Server)
      → service.enable oui s ≡ (done tt, s')
      → locked s' q ≡ (if oui == q then false else locked s q)

module _ {Server E : Type 0} (service : OrgService Server E) (laws : OrgLaws service) where
  -- What the cache remembers of an organisation is so.
  abbrev pub Agrees : ℕ → Option Bool → Server → Type 0
  Agrees q none s = Unit {0}
  Agrees q (some enabled) s = laws.locked s q ≡ not enabled

  abbrev pub IsTruthful : OrgClient Server → Type 0
  IsTruthful c = (q : ℕ) → Agrees q (lookup q c.locked_cache) c.server

  -- What a call for an organisation has done when it returns: the lock is set and no other has changed.
  abbrev pub Locks :
      {F : Type 0} → ℕ → Bool → OrgClient Server → Outcome F (Unit {0}) × OrgClient Server → Type 0
  Locks oui b c (ok _, c') =
      (q : ℕ) → laws.locked c'.server q ≡ (if oui == q then b else laws.locked c.server q)
  Locks oui b c (err _, c') = Unit {0}
  Locks oui b c (panic, c') = ⊥

  call_disable-Locks :
      (oui : ℕ) (c : OrgClient Server) → Locks oui true c (call_disable service oui c)
  unfolding call_disable
  call_disable-Locks oui c = go (service.disable oui c.server) refl
    where
      go :
          (r : Reply E (Unit {0}) × Server)
          → service.disable oui c.server ≡ r
          → Locks oui true c (answered {E = E} oui false c r)
      go (done u, s') e = λ q. laws.disable_done oui q c.server s' e
      go (failed x, s') e = tt

  call_enable-Locks :
      (oui : ℕ) (c : OrgClient Server) → Locks oui false c (call_enable service oui c)
  unfolding call_enable
  call_enable-Locks oui c = go (service.enable oui c.server) refl
    where
      go :
          (r : Reply E (Unit {0}) × Server)
          → service.enable oui c.server ≡ r
          → Locks oui false c (answered {E = E} oui true c r)
      go (done u, s') e = λ q. laws.enable_done oui q c.server s' e
      go (failed x, s') e = tt

  -- Where the cache is truthful, `disable_org` for any organisation returns with it locked and no
  -- other lock changed, or fails; it does not panic.
  pub disable_org-Locks :
      (oui : ℕ) (c : OrgClient Server) → IsTruthful c → Locks oui true c (disable_org service oui c)
  unfolding disable_org
  disable_org-Locks oui c h = go (lookup oui c.locked_cache) refl
    where
      go :
          (o : Option Bool)
          → lookup oui c.locked_cache ≡ o
          → Locks oui true c (disable_org service oui c)
      go none e = rw e (call_disable-Locks oui _)
      go (some true) e = rw e (call_disable-Locks oui _)
      go (some false) e = rw e (λ q. grind (arith, h oui))

  -- Where the cache is truthful, `enable_org` for any organisation returns with it unlocked and
  -- no other lock changed, or fails; it does not panic.
  pub enable_org-Locks :
      (oui : ℕ) (c : OrgClient Server) → IsTruthful c → Locks oui false c (enable_org service oui c)
  unfolding enable_org
  enable_org-Locks oui c h = go (lookup oui c.locked_cache) refl
    where
      go :
          (o : Option Bool)
          → lookup oui c.locked_cache ≡ o
          → Locks oui false c (enable_org service oui c)
      go none e = rw e (call_enable-Locks oui _)
      go (some false) e = rw e (call_enable-Locks oui _)
      go (some true) e = rw e (λ q. grind (arith, h oui))

  -- Truthful but for one organisation.
  abbrev pub TruthfulBut : ℕ → OrgClient Server → Type 0
  TruthfulBut oui c = (q : ℕ) → oui ≢ q → Agrees q (lookup q c.locked_cache) c.server

  abbrev pub WhenOk : {F : Type 0} → Outcome F (Unit {0}) × OrgClient Server → Type 0
  WhenOk (ok _, c') = IsTruthful c'
  WhenOk (err _, c') = Unit {0}
  WhenOk (panic, c') = ⊥

  pub answered-IsTruthful :
      (oui : ℕ) (b : Bool) (c : OrgClient Server) (s : Server)
      → TruthfulBut oui c
      → ((q : ℕ) → laws.locked s q ≡ (if oui == q then not b else laws.locked c.server q))
      → (q : ℕ) → Agrees q (lookup q (insert oui b c.locked_cache)) s
  answered-IsTruthful oui b c s t h q = elim (Bool-cases (oui == q)) [
    | inl same ↦ rw (lookup-insert oui q b c.locked_cache, same) (h q ∙ rw same)
    | inr other ↦
        rw (lookup-insert oui q b c.locked_cache, other)
          (kept other (lookup q c.locked_cache) (t q (ground arith)))
  ]
    where
      kept : (oui == q) ≡ false → (o : Option Bool) → Agrees q o c.server → Agrees q o s
      kept n none a = tt
      kept n (some x) a = h q ∙ rw n a

  call_disable-WhenOk :
      (oui : ℕ) (c : OrgClient Server) → TruthfulBut oui c → WhenOk (call_disable service oui c)
  unfolding call_disable
  call_disable-WhenOk oui c t = go (service.disable oui c.server) refl
    where
      go :
          (r : Reply E (Unit {0}) × Server)
          → service.disable oui c.server ≡ r
          → WhenOk (answered {E = E} oui false c r)
      go (done u, s') e =
          answered-IsTruthful oui false c s' t (λ q. laws.disable_done oui q c.server s' e)
      go (failed x, s') e = tt

  pub inserted-TruthfulBut :
      (oui : ℕ) (b : Bool) (c : OrgClient Server)
      → IsTruthful c
      → TruthfulBut oui (record c { locked_cache = insert oui b c.locked_cache })
  inserted-TruthfulBut oui b c h q n = rw (lookup-insert oui q b c.locked_cache) (
      subst (λ x. Agrees q (if x then some b else lookup q c.locked_cache) c.server)
        (sym (ne oui q n)) (h q))
    where
      ne : (m n : ℕ) → m ≢ n → (m == n) ≡ false
      ne m n h = ground arith

  -- Where the cache is truthful, `disable_org` does not panic, and one that returns leaves it truthful.
  pub disable_org-IsTruthful :
      (oui : ℕ) (c : OrgClient Server) → IsTruthful c → WhenOk (disable_org service oui c)
  unfolding disable_org
  disable_org-IsTruthful oui c h = go (lookup oui c.locked_cache) refl
    where
      go : (o : Option Bool) → lookup oui c.locked_cache ≡ o → WhenOk (disable_org service oui c)
      go none e = rw e (call_disable-WhenOk oui _ (inserted-TruthfulBut oui true c h))
      go (some true) e = rw e (call_disable-WhenOk oui _ (inserted-TruthfulBut oui true c h))
      go (some false) e =
          rw e
            (answered-IsTruthful oui false c c.server (λ q _. h q) (λ q. ground (arith, already e)))
        where
          already : lookup oui c.locked_cache ≡ some false → laws.locked c.server oui ≡ true
          already e = subst (λ o. Agrees oui o c.server) e (h oui)
