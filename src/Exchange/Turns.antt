-- ===== src/Exchange/Turns.antt =====
-- classes/exchange.go: which client a request is made with, and the times that its ring holds.
use native.Mathlib.Nat.{mod-add-mod}
use lightspeed_trading_clean.Base.{
  ℕ, zero, suc, ◌+◌, ◌%◌, ◌<◌, ◌≡◌, refl, ap, sym, ◌∙◌, false, Option, none, some, List, [], ◌∷◌,
  ◌++◌, map, arith, if◌then◌else◌, nat_beq, nat_beq_iff, Bool-cases, length, get_elem?, set, drop,
  inl, inr, get_elem?-set, get_elem?-below,
}
use lightspeed_trading_clean.Exchange.{
  ManagedClient, ClientLoop, push_time, mark_request, next, next_all, new_client_loop,
}

-- The clients of so many requests from the i-th on, one after the other and round again.
abbrev pub in_turn : {C : Type 0} → List C → ℕ → ℕ → List (Option C)
in_turn clients i zero = []
in_turn clients i (suc k) = get_elem? clients (i % length clients) ∷ in_turn clients (suc i) k

-- The times at which the j-th of n clients has its turn, where the first request is the i-th.
abbrev pub times_of : {T : Type 0} → ℕ → ℕ → ℕ → List T → List T
times_of n j i [] = []
times_of n j i (t ∷ times) =
    if nat_beq (i % n) j then t ∷ times_of n j (suc i) times else times_of n j (suc i) times

-- A ring after new times: the latest times, as many as the ring holds.
abbrev pub latest : {T : Type 0} → List T → List T → List T
latest ring times = drop (length times) (ring ++ times)

abbrev pub map_option : {A B : Type 0} → (A → B) → Option A → Option B
map_option f none = none
map_option f (some a) = some (f a)

assoc : {A : Type 0} (xs ys zs : List A) → (xs ++ ys) ++ zs ≡ xs ++ (ys ++ zs)
assoc [] ys zs = refl
assoc (x ∷ xs) ys zs = ap (◌∷◌ x) (assoc xs ys zs)

drop-length : {A : Type 0} (xs : List A) → drop (length xs) xs ≡ []
drop-length [] = refl
drop-length (x ∷ xs) = drop-length xs

latest-nil : {T : Type 0} (ring : List T) → latest ring [] ≡ ring
latest-nil [] = refl
latest-nil (t ∷ ring) = ap (◌∷◌ t) (latest-nil ring)

latest-push_time :
    {T : Type 0} (now : T) (ring times : List T)
    → latest (push_time now ring) times ≡ latest ring (now ∷ times)
unfolding push_time
latest-push_time now [] times = refl
latest-push_time now (t ∷ ring) times = ap (drop (length times)) (assoc ring (now ∷ []) times)

get_elem?-map :
    {A B : Type 0} (f : A → B) (xs : List A) (i : ℕ)
    → get_elem? (map f xs) i ≡ map_option f (get_elem? xs i)
get_elem?-map f [] i = refl
get_elem?-map f (x ∷ xs) zero = refl
get_elem?-map f (x ∷ xs) (suc i) = get_elem?-map f xs i

length-map : {A B : Type 0} (f : A → B) (xs : List A) → length (map f xs) ≡ length xs
length-map f [] = refl
length-map f (x ∷ xs) = ap suc (length-map f xs)

module _ {C T : Type 0} (clients : List C) where
  -- The loop has these clients, and its last request was the i-th.
  abbrev At : ℕ → ClientLoop C T → Type 0
  At i cl =
      (map (λ (m : ManagedClient C T). m.http_client) cl.clients ≡ clients)
      × (cl.num_clients ≡ length clients)
      × (cl.cur_ind ≡ i % length clients)

  -- The loop after a request that the k-th client makes.
  abbrev after : T → ℕ → ManagedClient C T → ClientLoop C T → ClientLoop C T
  after now k m cl = record cl { clients = set cl.clients k (mark_request now m); cur_ind = k }

  next_ind :
      (i : ℕ) (cl : ClientLoop C T)
      → At i cl
      → (cl.cur_ind + 1) % cl.num_clients ≡ suc i % length clients
  next_ind i cl at =
      let e : i + 1 ≡ suc i = omega arith in
      rw (at.1, at.2) (mod-add-mod i (length clients) 1 ∙ ap (λ (x : ℕ). x % length clients) e)

  next_client :
      (i k : ℕ) (cl : ClientLoop C T)
      → 0 < length clients
      → At i cl
      → (m : ManagedClient C T) × (get_elem? cl.clients (k % length clients) ≡ some m)
  next_client i k cl pos at =
      let same = length-map (λ (m : ManagedClient C T). m.http_client) cl.clients in
      let len : length cl.clients ≡ length clients = sym same ∙ ap length at.0 in
      get_elem?-below cl.clients (k % length clients) (grind (arith, len, pos))

  next-at :
      (now : T) (k : ℕ) (cl : ClientLoop C T) (m : ManagedClient C T)
      → nat_beq cl.num_clients 0 ≡ false
      → (cl.cur_ind + 1) % cl.num_clients ≡ k
      → get_elem? cl.clients k ≡ some m
      → next now cl ≡ some (m.http_client, after now k m cl)
  unfolding next
  next-at now k cl m some_clients ind is_m =
      let here : get_elem? cl.clients ((cl.cur_ind + 1) % cl.num_clients) ≡ some m = rw ind is_m in
      rw (some_clients, here, next) (ap (λ (x : ℕ). some (m.http_client, after now x m cl)) ind)

  next-after :
      (now : T) (i : ℕ) (cl : ClientLoop C T) (m : ManagedClient C T)
      → 0 < length clients
      → At i cl
      → get_elem? cl.clients (suc i % length clients) ≡ some m
      → next now cl ≡ some (m.http_client, after now (suc i % length clients) m cl)
  next-after now i cl m pos at is_m =
      next-at now (suc i % length clients) cl m (ground (arith, at.1, pos)) (next_ind i cl at) is_m

  map-set :
      (ms : List (ManagedClient C T)) (k : ℕ) (m : ManagedClient C T) (now : T)
      → get_elem? ms k ≡ some m
      → map (λ (m' : ManagedClient C T). m'.http_client) (set ms k (mark_request now m))
        ≡ map (λ (m' : ManagedClient C T). m'.http_client) ms
  unfolding mark_request
  map-set [] k m now h = refl
  map-set (x ∷ ms) zero m now h = let e : x ≡ m = cc in rw e refl
  map-set (x ∷ ms) (suc k) m now h = ap (◌∷◌ x.http_client) (map-set ms k m now h)

  after-At :
      (now : T) (i : ℕ) (cl : ClientLoop C T) (m : ManagedClient C T)
      → At i cl
      → get_elem? cl.clients (suc i % length clients) ≡ some m
      → At (suc i) (after now (suc i % length clients) m cl)
  after-At now i cl m at is_m =
      (map-set cl.clients (suc i % length clients) m now is_m ∙ at.0, at.1, refl)

  -- A managed client after requests at some times.
  abbrev pub with_times : List T → ManagedClient C T → ManagedClient C T
  with_times times m = record m { request_times = latest m.request_times times }

  with_times-nil : (o : Option (ManagedClient C T)) → o ≡ map_option (with_times []) o
  with_times-nil none = refl
  with_times-nil (some m) = rw (latest-nil m.request_times) refl

  after-with_times :
      (now : T) (times : List T) (i j : ℕ) (cl : ClientLoop C T) (m : ManagedClient C T)
      → get_elem? cl.clients (i % length clients) ≡ some m
      → map_option
          (with_times (times_of (length clients) j (suc i) times))
          (get_elem? (after now (i % length clients) m cl).clients j)
        ≡ map_option
            (with_times (times_of (length clients) j i (now ∷ times)))
            (get_elem? cl.clients j)
  unfolding mark_request
  after-with_times now times i j cl m is_m = elim (Bool-cases (nat_beq (i % length clients) j)) [
    | inl own ↦
        let is_j : i % length clients ≡ j = (nat_beq_iff _ _).0 own in
        let same : get_elem? cl.clients j ≡ some m = rw is_j at is_m in
        rw (get_elem?-set cl.clients (i % length clients) j m (mark_request now m) is_m, own, same)
          (ap (λ (ts : List T). some (record m { request_times = ts }))
            (latest-push_time now m.request_times (times_of (length clients) j (suc i) times)))
    | inr other ↦
        rw (get_elem?-set cl.clients (i % length clients) j m (mark_request now m) is_m, other) refl
  ]

  client_at :
      (k : ℕ) (cl : ClientLoop C T) (m : ManagedClient C T)
      → map (λ (m' : ManagedClient C T). m'.http_client) cl.clients ≡ clients
      → get_elem? cl.clients k ≡ some m
      → get_elem? clients k ≡ some m.http_client
  client_at k cl m same is_m =
      let f = λ (m' : ManagedClient C T). m'.http_client in
      ap (λ (cs : List C). get_elem? cs k) (sym same)
      ∙ (get_elem?-map f cl.clients k ∙ ap (map_option f) is_m)

  -- What some requests lead to: who makes them, and which times each client's ring has then.
  abbrev pub Serves : ℕ → List T → ClientLoop C T → List C → ClientLoop C T → Type 0
  Serves i times cl served last =
      (map (λ (c : C). some c) served ≡ in_turn clients i (length times))
      × ((j : ℕ)
          → get_elem? last.clients j
            ≡ map_option (with_times (times_of (length clients) j i times))
                (get_elem? cl.clients j))

  next_all-Serves :
      (times : List T) (i : ℕ) (cl : ClientLoop C T)
      → 0 < length clients
      → At i cl
      → (r : List C × ClientLoop C T) × (next_all times cl ≡ some r)
        × Serves (suc i) times cl r.0 r.1
  unfolding next_all
  next_all-Serves [] i cl pos at =
      (([], cl), refl, (refl, λ j. with_times-nil (get_elem? cl.clients j)))
  next_all-Serves (now ∷ times) i cl pos at =
      let (m, is_m) = next_client i (suc i) cl pos at in
      let (r, run, served) =
        next_all-Serves times (suc i) (after now (suc i % length clients) m cl) pos
          (after-At now i cl m at is_m) in
      (
        (m.http_client ∷ r.0, r.1),
        rw (next-after now i cl m pos at is_m, run, next_all) refl,
        (
          rw (client_at (suc i % length clients) cl m at.0 is_m)
              (ap (◌∷◌ (some m.http_client)) served.0),
          λ j. served.1 j ∙ after-with_times now times (suc i) j cl m is_m,
        ),
      )

  map-new :
      (zero_time : T) (cs : List C)
      → map (λ (m : ManagedClient C T). m.http_client) (new_client_loop zero_time cs).clients ≡ cs
  unfolding new_client_loop
  map-new zero_time [] = refl
  map-new zero_time (c ∷ cs) = ap (◌∷◌ c) (map-new zero_time cs)

  -- From the start, with at least one client, no request panics, the k-th request is made with the client
  -- at the place k modulo the number of clients, and afterwards the ring of each client holds the latest
  -- times of its own requests, as many as the ring has places.
  pub next_all-new_client_loop :
      (zero_time : T) (times : List T)
      → 0 < length clients
      → (r : List C × ClientLoop C T) × (next_all times (new_client_loop zero_time clients)
          ≡ some r)
        × Serves 1 times (new_client_loop zero_time clients) r.0 r.1
  unfolding new_client_loop
  next_all-new_client_loop zero_time times pos =
      next_all-Serves times 0 (new_client_loop zero_time clients) pos
        (map-new zero_time clients, refl, grind (arith, pos))
