-- ===== src/Exchange.antt =====
-- classes/exchange.go: the http clients of an exchange, which take turns, each with the times of its requests.
-- A client and a time are parameters.
pub mod Client
mod Positions
mod Turns
mod Tests
use lightspeed_trading_clean.Base.{
  ℕ, ◌+◌, ◌%◌, String, Option, none, some, List, [], ◌∷◌, ◌++◌, map, if◌then◌else◌, nat_beq, length,
  get_elem?, set, replicate,
}

-- `ManagedClient`. The ring is the list of its times from the place that it points at.
pub record ManagedClient (C T : Type 0) : Type 0 where
  pub http_client : C
  pub request_times : List T

-- `ClientLoop`.
pub record ClientLoop (C T : Type 0) : Type 0 where
  pub clients : List (ManagedClient C T)
  pub num_clients : ℕ
  pub cur_ind : ℕ

-- `Exchange`, with the type of its symbol data.
pub record Exchange (C T S : Type 0) : Type 0 where
  pub name : String
  pub symbol_data : S
  pub clients : ClientLoop C T

-- A write at the place that the ring points at, and a step to the next.
unfoldable pub push_time : {T : Type 0} → T → List T → List T
push_time now [] = []
push_time now (t ∷ times) = times ++ now ∷ []

module _ {C T : Type 0} where
  unfoldable pub mark_request : T → ManagedClient C T → ManagedClient C T
  unfolding push_time
  mark_request now cli = record cli { request_times = push_time now cli.request_times }

  -- `next`; `none` is a panic, on `% 0` or on an index out of range.
  unfoldable pub next : T → ClientLoop C T → Option (C × ClientLoop C T)
  unfolding mark_request
  next now cl =
      let ind = (cl.cur_ind + 1) % cl.num_clients in
      if nat_beq cl.num_clients 0 then none else elim (get_elem? cl.clients ind) [
        | none ↦ none
        | some cli ↦ some (
          cli.http_client,
          record cl { clients = set cl.clients ind (mark_request now cli); cur_ind = ind },
        )
      ]

  -- The clients that requests at some times are made with.
  unfoldable pub next_all : List T → ClientLoop C T → Option (List C × ClientLoop C T)
  unfolding next
  next_all [] cl = some ([], cl)
  next_all (now ∷ times) cl = elim (next now cl) [
    | none ↦ none
    | some (cli, cl') ↦ (elim (next_all times cl') [
      | none ↦ none
      | some (clis, last) ↦ some (cli ∷ clis, last)
    ])
  ]

  -- The loop that `NewExchange` makes: rings of 180 zero times.
  unfoldable pub new_client_loop : T → List C → ClientLoop C T
  new_client_loop zero_time clients = record {
    clients =
        map (λ client. record { http_client = client; request_times = replicate 180 zero_time })
          clients;
    num_clients = length clients;
    cur_ind = 0;
  }

-- `NewExchange`.
unfoldable pub new_exchange : {C T S : Type 0} → T → String → List C → S → Exchange C T S
unfolding new_client_loop
new_exchange zero_time name clients symbol_data = record {
  name = name;
  symbol_data = symbol_data;
  clients = new_client_loop zero_time clients;
}

-- `NextCli`, without its exchange.
unfoldable pub next_cli : {C T S : Type 0} → T → Exchange C T S → Option (C × Exchange C T S)
unfolding next
next_cli now exc = elim (next now exc.clients) [
  | none ↦ none
  | some (cli, cl) ↦ some (cli, record exc { clients = cl })
]
