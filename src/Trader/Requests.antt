-- ===== src/Trader/Requests.antt =====
-- trader.go: getName and getInitPositions, the requests that a new monitor makes. What a request answers
-- is a function of the attempt and of the client.
use Prim.Native.String.{◌++◌ as str_append}
use lightspeed_trading_clean.Base.{
  ℕ, zero, suc, ◌%◌, ◌≡◌, refl, ◌⊎◌, inl, inr, String, none, some, List, [], ◌∷◌, ◌==◌, string_eq,
  if◌then◌else◌, arith, length, get_elem?, get_elem?-below, Sum-cases,
}
use lightspeed_trading_clean.Base.Texts.{ends_with, show_number}
use lightspeed_trading_clean.Monitor.{ClientProxy, Reading, read, failed}
use lightspeed_trading_clean.Trader.{TraderPosition}

-- `parseBinErr`.
unfoldable pub parse_bin_err : String → String
parse_bin_err err =
    if ends_with err "(Client.Timeout exceeded while awaiting headers)"
    then "proxy timeout"
    else if ends_with err
        "Proxy Error (The selected relay is offline or busy processing other threads)"
    then "proxy error"
    else if ends_with err "EOF"
    then "proxy failure"
    else err

-- What a request for a trader's name comes back with; `body` is the nickname in its JSON.
pub data NameAnswer : Type 0 where
  request_failed : String → NameAnswer
  bad_status : ℕ → NameAnswer
  unreadable : String → NameAnswer
  no_json : NameAnswer
  body : String → NameAnswer

-- One attempt: the name, or the error that is held.
unfoldable pub attempt : NameAnswer → String ⊎ String
unfolding parse_bin_err
attempt (request_failed err) = inr (parse_bin_err err)
attempt (bad_status n) = inr (str_append "bad status code, status: " (show_number n))
attempt (unreadable err) = inr err
attempt no_json = inr "no json receieved"
attempt (body name) = if name == "" then inr "bad trader uid" else inl name

-- How a call of getName or getInitPositions ends.
pub data Asked (A : Type 0) : Type 0 where
  got : A → Asked A
  refused : String → Asked A
  crashed : Asked A

-- The loop `for i := 1; i <= 5; i++`, with the attempts left; clients[i%len(clients)].
unfoldable pub name_loop :
    (ℕ → ClientProxy → NameAnswer) → List ClientProxy → ℕ → ℕ → String → Asked String
unfolding attempt
name_loop answers clients zero i held = refused (str_append "failed to get name, " held)
name_loop answers clients (suc left) i held = elim (get_elem? clients (i % length clients)) [
  | none ↦ crashed
  | some cli ↦ (elim (attempt (answers i cli)) [
    | inl name ↦ got name
    | inr err ↦ name_loop answers clients left (suc i) err
  ])
]

-- `getName`: without clients, 5000/len(clients) divides by zero.
unfoldable pub get_name : (ℕ → ClientProxy → NameAnswer) → List ClientProxy → Asked String
unfolding name_loop
get_name answers [] = crashed
get_name answers (c ∷ cs) = name_loop answers (c ∷ cs) 5 1 "<nil>"

module _ {F : Type 0} where
  -- The loop of `getInitPositions`.
  unfoldable pub first_reading :
      String → (ClientProxy → Reading F) → List ClientProxy → Asked (List (TraderPosition F))
  first_reading name answers [] = refused (str_append name " : all clients failed to access")
  first_reading name answers (c ∷ cs) = elim (answers c) [
    | read positions ↦ got positions
    | failed err ↦ first_reading name answers cs
  ]

  -- `getInitPositions`.
  unfoldable pub get_init_positions :
      String → (ClientProxy → Reading F) → List ClientProxy → Asked (List (TraderPosition F))
  unfolding first_reading
  get_init_positions name answers [] = refused (str_append name " : no clients were given")
  get_init_positions name answers (c ∷ cs) = first_reading name answers (c ∷ cs)

-- An attempt from the i-th on, of some that are left, gives a name.
abbrev pub Answered : (ℕ → ClientProxy → NameAnswer) → List ClientProxy → ℕ → ℕ → String → Type 0
Answered answers clients zero i name = ⊥
Answered answers clients (suc left) i name =
    ((cli : ClientProxy) × (get_elem? clients (i % length clients) ≡ some cli)
      × (attempt (answers i cli) ≡ inl name))
    ⊎ Answered answers clients left (suc i) name

-- Every attempt from the i-th on, of some that are left, gives an error.
abbrev pub AllFailed : (ℕ → ClientProxy → NameAnswer) → List ClientProxy → ℕ → ℕ → Type 0
AllFailed answers clients zero i = Unit
AllFailed answers clients (suc left) i =
    ((cli : ClientProxy) × (get_elem? clients (i % length clients) ≡ some cli)
      × (err : String) × (attempt (answers i cli) ≡ inr err))
    × AllFailed answers clients left (suc i)

name_loop-Answered :
    (answers : ℕ → ClientProxy → NameAnswer) (c : ClientProxy) (cs : List ClientProxy) (left i : ℕ)
    (held : String)
    → ((name : String) × (name_loop answers (c ∷ cs) left i held ≡ got name)
        × Answered answers (c ∷ cs) left i name)
      ⊎ ((err : String) × (name_loop answers (c ∷ cs) left i held ≡ refused err)
          × AllFailed answers (c ∷ cs) left i)
unfolding name_loop
name_loop-Answered answers c cs zero i held = inr (str_append "failed to get name, " held, refl, tt)
name_loop-Answered answers c cs (suc left) i held =
    let (cli, at) = get_elem?-below (c ∷ cs) (i % length (c ∷ cs)) (omega arith) in
    elim (Sum-cases (attempt (answers i cli))) [
      | inl (name, e) ↦ inl (name, rw (at, e, name_loop) refl, inl (cli, at, e))
      | inr (err, e) ↦ (elim (name_loop-Answered answers c cs left (suc i) err) [
        | inl (name, same, a) ↦ inl (name, rw (at, e, name_loop) same, inr a)
        | inr (err', same, a) ↦ inr (err', rw (at, e, name_loop) same, ((cli, at, err, e), a))
      ])
    ]

-- For any answers and at least one client, getName ends within its five attempts without a panic: with
-- the name that one of them gave, or with an error where all five failed.
pub get_name_lem :
    (answers : ℕ → ClientProxy → NameAnswer) (c : ClientProxy) (cs : List ClientProxy)
    → ((name : String) × (get_name answers (c ∷ cs) ≡ got name)
        × Answered answers (c ∷ cs) 5 1 name)
      ⊎ ((err : String) × (get_name answers (c ∷ cs) ≡ refused err)
          × AllFailed answers (c ∷ cs) 5 1)
unfolding get_name
get_name_lem answers c cs = name_loop-Answered answers c cs 5 1 "<nil>"
