-- ===== src/Fleet/Clients.antt =====
-- monitor.go, createClients: the clients of some proxies. What url.Parse accepts is a parameter.
use Prim.Native.String.{◌++◌ as str_append}
use lightspeed_trading_clean.Base.{
  ℕ, ◌+◌, ◌≡◌, refl, inl, inr, String, Bool, true, false, Option, none, some, List, [], ◌∷◌, map,
  if◌then◌else◌, ◌&&◌, get_elem?, arith, Bool-cases, Option-cases,
}
use lightspeed_trading_clean.Base.Int.{pos, ltb_ℤ}
use lightspeed_trading_clean.Base.Texts.{split, trim_char, atoi}
use lightspeed_trading_clean.Monitor.{ClientProxy}

-- The indices hostInd and userInd of the parts of a proxy; `none` of the user is -1.
pub record Format : Type 0 where
  pub host_ind : ℕ
  pub user_ind : Option ℕ

-- A port number: `err == nil && port < 65536`.
unfoldable pub is_port : String → Bool
is_port s = elim (atoi s) [ none ↦ false | some n ↦ ltb_ℤ n (pos 65536) ]

-- The format of the first proxy, from its parts; `none` is "error parsing proxies".
unfoldable pub format_of : List String → Option Format
unfolding is_port
format_of (a ∷ b ∷ []) = some (record { host_ind = 0; user_ind = none })
format_of (a ∷ b ∷ c ∷ d ∷ []) =
    if is_port b
    then some (record { host_ind = 0; user_ind = some 2 })
    else if is_port (trim_char 13 d)
    then some (record { host_ind = 2; user_ind = some 0 })
    else none
format_of _ = none

-- What createClients returns: clients, an error, or a panic of an index out of range.
pub data Clients : Type 0 where
  made : List ClientProxy → Clients
  bad_proxies : Clients
  out_of_range : Clients

-- The host and the port of one proxy as a URL, if the indices are in range.
unfoldable pub proxy_url : Format → List String → Option String
proxy_url f parts = elim (get_elem? parts f.host_ind) [
  | none ↦ none
  | some host ↦ (elim (get_elem? parts (f.host_ind + 1)) [
    | none ↦ none
    | some port ↦ some (str_append "http://" (str_append host (str_append ":" (trim_char 13 port))))
  ])
]

-- The user and the password are in range.
unfoldable pub has_user : Format → List String → Bool
has_user f parts = elim f.user_ind [
  | none ↦ true
  | some i ↦ (elim (get_elem? parts (i + 1)) [ none ↦ false | some p ↦ true ])
]

abbrev pub add_client : ClientProxy → Clients → Clients
add_client c (made cs) = made (c ∷ cs)
add_client c bad_proxies = bad_proxies
add_client c out_of_range = out_of_range

abbrev pub ratelimit : ℕ
ratelimit = 2500

-- The loop over the proxies.
unfoldable pub load_clients : (String → Bool) → ℕ → Format → List String → Clients
load_clients url_is_ok now f [] = made []
load_clients url_is_ok now f (p ∷ ps) =
    let rest = load_clients url_is_ok now f ps in
    elim (proxy_url f (split 58 p)) [
      | none ↦ out_of_range
      | some url ↦
          (if url_is_ok url
            then if has_user f (split 58 p)
              then add_client (record { proxy = p; earliest_use = now; rate_limit = ratelimit })
                  rest
              else out_of_range
            else bad_proxies)
    ]

-- `createClients`.
unfoldable pub create_clients : (String → Bool) → ℕ → List String → Clients
unfolding format_of load_clients
create_clients url_is_ok now [] = out_of_range
create_clients url_is_ok now (p ∷ ps) = elim (format_of (split 58 p)) [
  | none ↦ bad_proxies
  | some f ↦ load_clients url_is_ok now f (p ∷ ps)
]

-- The client that createClients makes of a proxy at a time.
abbrev pub fresh_client : ℕ → String → ClientProxy
fresh_client now p = record { proxy = p; earliest_use = now; rate_limit = ratelimit }

add_client-made :
    (c : ClientProxy) (rest : Clients) (cs : List ClientProxy)
    → add_client c rest ≡ made cs
    → (ds : List ClientProxy) × (rest ≡ made ds) × (c ∷ ds ≡ cs)
add_client-made c (made ds) cs e = (ds, refl, ground (arith, e))
add_client-made c bad_proxies cs e = absurd (ground (arith, e))
add_client-made c out_of_range cs e = absurd (ground (arith, e))

load_clients_lem :
    (url_is_ok : String → Bool) (now : ℕ) (f : Format) (ps : List String) (cs : List ClientProxy)
    → load_clients url_is_ok now f ps ≡ made cs
    → cs ≡ map (fresh_client now) ps
unfolding load_clients
load_clients_lem url_is_ok now f [] cs e = ground (arith, e)
load_clients_lem url_is_ok now f (p ∷ ps) cs e = elim (Option-cases (proxy_url f (split 58 p))) [
  | inl n ↦ absurd (ground (arith, e, n))
  | inr (url, n) ↦ (elim (Bool-cases (url_is_ok url && has_user f (split 58 p))) [
    | inl ok ↦
        let got : add_client (fresh_client now p) (load_clients url_is_ok now f ps) ≡ made cs =
          ground (arith, e, n, ok) in
        let (ds, same, whole) =
          add_client-made (fresh_client now p) (load_clients url_is_ok now f ps) cs got in
        ground (arith, whole, load_clients_lem url_is_ok now f ps ds same)
    | inr bad ↦ absurd (ground (arith, e, n, bad))
  ])
]

-- Where createClients returns clients, they are one for each proxy, in the order of the proxies, each ready at
-- once and with the rate limit of 2500 ms.
pub create_clients_lem :
    (url_is_ok : String → Bool) (now : ℕ) (ps : List String) (cs : List ClientProxy)
    → create_clients url_is_ok now ps ≡ made cs
    → cs ≡ map (fresh_client now) ps
unfolding create_clients
create_clients_lem url_is_ok now [] cs e = absurd (ground (arith, e))
create_clients_lem url_is_ok now (p ∷ ps) cs e = elim (Option-cases (format_of (split 58 p))) [
  | inl n ↦ absurd (ground (arith, e, n))
  | inr (f, n) ↦ load_clients_lem url_is_ok now f (p ∷ ps) cs (ground (arith, e, n))
]
