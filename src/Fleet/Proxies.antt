-- ===== src/Fleet/Proxies.antt =====
-- Where the proxies are while monitors are made, grow and end.
use lightspeed_trading_clean.Base.{
  ℕ, ◌+◌, ◌-◌, ◌≤◌, String, ◌≡◌, refl, ap, ◌⊎◌, inl, inr, Bool, true, false, some, List, [], ◌∷◌,
  ◌++◌, string_eq, arith, Bool-cases, Option-cases, map, take, drop, take-append-drop, length,
  length-append, length-drop, ==_refl, ltb, leb, nat_beq, ◌∙◌,
}
use lightspeed_trading_clean.Base.Dict.{insert, lookup-insert}
use lightspeed_trading_clean.Monitor.{ClientProxy, receive}
use lightspeed_trading_clean.Trader.Requests.{Asked, got, refused, crashed}
use lightspeed_trading_clean.Caches.Proxies.{
  next_group, return_group, count, count-append, next_group-append,
}
use lightspeed_trading_clean.Fleet.{
  Fleet, Monitor, prox_per_copy, prox_per_sign, webhook_count, get_monitor,
}
use lightspeed_trading_clean.Fleet.Clients.{made, create_clients, create_clients_lem, fresh_client}
use lightspeed_trading_clean.Fleet.Create.{World, new_monitor, settle_proxies, create_new_monitor}
use lightspeed_trading_clean.Fleet.Start.{add_proxies}
use lightspeed_trading_clean.Fleet.Stop.{recover_proxies}
use lightspeed_trading_clean.Fleet.Started.{Asked-cases, few_group, new_monitor-Fresh}

-- The proxies of some clients, and how often one of them is used.
abbrev pub proxies_of : List ClientProxy → List String
proxies_of cs = map (λ (c : ClientProxy). c.proxy) cs

abbrev pub used : String → List ClientProxy → ℕ
used p cs = count p (proxies_of cs)

proxies_of-fresh : (now : ℕ) (ps : List String) → proxies_of (map (fresh_client now) ps) ≡ ps
proxies_of-fresh now [] = refl
proxies_of-fresh now (p ∷ ps) = ap (◌∷◌ p) (proxies_of-fresh now ps)

pub create_clients-proxies :
    (url_is_ok : String → Bool) (now : ℕ) (ps : List String) (cs : List ClientProxy)
    → create_clients url_is_ok now ps ≡ made cs
    → proxies_of cs ≡ ps
create_clients-proxies url_is_ok now ps cs e =
    ap proxies_of (create_clients_lem url_is_ok now ps cs e) ∙ proxies_of-fresh now ps

pub used-append :
    (p : String) (cs ds : List ClientProxy) → used p (cs ++ ds) ≡ used p cs + used p ds
used-append p [] ds = omega arith
used-append p (c ∷ cs) ds = omega (arith, used-append p cs ds)

used-split :
    (p : String) (n : ℕ) (cs : List ClientProxy)
    → used p (take n cs) + used p (drop n cs) ≡ used p cs
used-split p n cs =
    omega (arith, used-append p (take n cs) (drop n cs), ap (used p) (take-append-drop n cs))

length-proxies_of : (cs : List ClientProxy) → length (proxies_of cs) ≡ length cs
length-proxies_of [] = refl
length-proxies_of (c ∷ cs) = omega (arith, length-proxies_of cs)

pub next_group-count :
    (p : String) (available rest group : List String) (want_num : ℕ)
    → next_group available want_num ≡ some (group, rest)
    → count p group + count p rest ≡ count p available
next_group-count p available rest group want_num e = omega (
  arith,
  count-append p group rest,
  ap (count p) (next_group-append available rest group want_num e).0,
)

module _ {F D : Type 0} where
  -- The proxies that a new monitor's clients use, if there is one.
  abbrev pub used_by : String → Asked (Monitor F D) → ℕ
  used_by p (got mon) = used p mon.http_clients
  used_by p (refused err) = 0
  used_by p crashed = 0

  -- createNewMonitor, unless it panics, loses no proxy and takes none twice: each is as often free or used by the
  -- new monitor's clients as it was free before.
  pub create_new_monitor-count :
      (w : World F D) (uid : String) (available : List String) (p : String)
      → ((create_new_monitor w uid available).0 ≡ crashed)
        ⊎ (count p (create_new_monitor w uid available).1
              + used_by p (create_new_monitor w uid available).0
            ≡ count p available)
  unfolding create_new_monitor settle_proxies return_group
  create_new_monitor-count w uid available p =
      elim (Bool-cases (ltb (length available) prox_per_copy)) [
        | inl few ↦ inr (ground (arith, few))
        | inr enough ↦ (elim (Option-cases (next_group available prox_per_copy)) [
          | inl n ↦ absurd (few_group available enough n)
          | inr ((group, rest), n) ↦ (elim (Asked-cases (new_monitor w uid group)) [
            | inl (m, a) ↦
                let (uid', own, clients, bots, hooks) = new_monitor-Fresh w uid group m a in
                inr (
                  ground (
                    arith,
                    enough,
                    n,
                    a,
                    ap (count p)
                        (create_clients-proxies w.url_is_ok w.now group m.http_clients clients),
                    next_group-count p available rest group prox_per_copy n,
                  ))
            | inr (inl (err, a)) ↦ inr (
                ground (
                  arith,
                  enough,
                  n,
                  a,
                  count-append p rest group,
                  next_group-count p available rest group prox_per_copy n,
                ))
            | inr (inr a) ↦ inl (ground (arith, enough, n, a))
          ])
        ])
      ]

  -- The proxies that are free, and those that the clients of a monitor use.
  abbrev pub held : String → Fleet F D → List ClientProxy → ℕ
  held p fleet cs = count p fleet.available + used p cs

  add_proxies-held :
      (w : World F D) (uid : String) (mon : Monitor F D) (fleet : Fleet F D)
      (group rest : List String) (cs : List ClientProxy) (p : String)
      → get_monitor uid fleet ≡ some mon
      → next_group fleet.available (prox_per_copy - prox_per_sign) ≡ some (group, rest)
      → create_clients w.url_is_ok w.now group ≡ made cs
      → (grown : Fleet F D) × (add_proxies w uid fleet ≡ some grown)
        × (get_monitor uid grown ≡ some (record mon { http_clients = mon.http_clients ++ cs }))
        × (held p grown (mon.http_clients ++ cs) ≡ held p fleet mon.http_clients)
  unfolding add_proxies get_monitor
  add_proxies-held w uid mon fleet group rest cs p at next clients =
      let more : Monitor F D = record mon { http_clients = mon.http_clients ++ cs } in
      let grown : Fleet F D = record fleet {
        available = rest;
        running_mons = insert uid more fleet.running_mons;
      } in
      (
        grown,
        rw (next, clients, at, add_proxies) refl,
        rw (lookup-insert uid uid more fleet.running_mons) (ground (arith, ==_refl uid)),
        omega (
          arith,
          used-append p mon.http_clients cs,
          ap (count p) (create_clients-proxies w.url_is_ok w.now group cs clients),
          next_group-count p fleet.available rest group (prox_per_copy - prox_per_sign) next,
        ),
      )

  recover_proxies-held :
      (uid : String) (mon : Monitor F D) (fleet : Fleet F D) (p : String)
      → nat_beq (webhook_count mon) 0 ≡ false
      → prox_per_copy - prox_per_sign ≤ length mon.http_clients
      → (after : Fleet F D) × (recover_proxies uid mon fleet ≡ some after)
        × (held p after (drop 4 mon.http_clients) ≡ held p fleet mon.http_clients)
  unfolding recover_proxies receive return_group
  recover_proxies-held uid mon fleet p hooks many =
      let enough : leb 4 (length mon.http_clients) ≡ true = ground (arith, many) in
      let after : Fleet F D = record fleet {
        running_mons =
            insert uid (record mon { http_clients = drop 4 mon.http_clients }) fleet.running_mons;
        available = return_group fleet.available (proxies_of (take 4 mon.http_clients));
      } in
      (
        after,
        rw (hooks, recover_proxies, enough, receive) refl,
        omega (
          arith,
          count-append p fleet.available (proxies_of (take 4 mon.http_clients)),
          used-split p 4 mon.http_clients,
        ),
      )

  -- A monitor with webhooks gets proxies for its first bot, and stopBot takes as many back with its last: it then
  -- has as many clients as before, and each proxy is as often free or used by it as before; this holds
  -- where there are enough free proxies and createClients accepts them.
  pub recover_proxies-add_proxies :
      (w : World F D) (uid : String) (mon : Monitor F D) (fleet : Fleet F D)
      (group rest : List String) (cs : List ClientProxy) (p : String)
      → get_monitor uid fleet ≡ some mon
      → nat_beq (webhook_count mon) 0 ≡ false
      → next_group fleet.available (prox_per_copy - prox_per_sign) ≡ some (group, rest)
      → create_clients w.url_is_ok w.now group ≡ made cs
      → (grown after : Fleet F D) × (more : Monitor F D) × (add_proxies w uid fleet ≡ some grown)
        × (get_monitor uid grown ≡ some more)
        × (recover_proxies uid more grown ≡ some after)
        × (length (drop 4 more.http_clients) ≡ length mon.http_clients)
        × (held p after (drop 4 more.http_clients) ≡ held p fleet mon.http_clients)
  unfolding webhook_count
  recover_proxies-add_proxies w uid mon fleet group rest cs p at hooks next clients =
      let more : Monitor F D = record mon { http_clients = mon.http_clients ++ cs } in
      let (grown, added, found, same) =
        add_proxies-held w uid mon fleet group rest cs p at next clients in
      let four : length cs ≡ 4 = omega (
        arith,
        length-proxies_of cs,
        ap length (create_clients-proxies w.url_is_ok w.now group cs clients),
        (next_group-append fleet.available rest group (prox_per_copy - prox_per_sign) next).1,
      ) in
      let many : 4 ≤ length (mon.http_clients ++ cs) =
        omega (arith, four, length-append mon.http_clients cs) in
      let (after, back, still) = recover_proxies-held uid more grown p hooks many in
      (
        grown,
        after,
        more,
        added,
        found,
        back,
        omega (
          arith,
          four,
          length-append mon.http_clients cs,
          length-drop 4 (mon.http_clients ++ cs),
        ),
        still ∙ same,
      )
