-- ===== src/Websocket/Reconnecting.antt =====
-- How long a reconnect lasts, and when it succeeds.
use ocap2_extension.Prelude.{
  ℕ, zero, suc, String, Bool, true, false, List, [], ◌∷◌, ◌++◌, Option, none, some, ◌≡◌, ◌≤◌, ◌+◌,
  length, All, Bool-cases, inl, inr, arith,
}
use ocap2_extension.Websocket.Connection.{
  Connection, Attempt, Step, writes, caches, closes, steps, Ended, reconnected, next_backoff,
  attempts, replays, reconnect, unless_closed,
}

abbrev pub sum : List ℕ → ℕ
sum [] = 0
sum (s ∷ ss) = s + sum ss

-- The sleeps if every dial fails.
pub budget : ℕ → ℕ → ℕ
budget zero b = 0
budget (suc k) b = b + budget k (next_backoff b)

budget_mono : (k a b : ℕ) → a ≤ b → budget k a ≤ budget k b
unfolding budget next_backoff
budget_mono zero a b h = omega arith
budget_mono (suc k) a b h =
    omega (arith, budget_mono k (next_backoff a) (next_backoff b) (ground arith))

-- The sleeps are at most 30 seconds each, one for each round, and no more than the budget.
pub record InBudget (k b : ℕ) (sleeps : List ℕ) : Type 0 where
  pub rounds : length sleeps ≤ k
  pub each : All (λ s. s ≤ 30) sleeps
  pub total : sum sleeps ≤ budget k b

another_round :
    (k b b' : ℕ) (sleeps : List ℕ)
    → b ≤ 30
    → b' ≤ next_backoff b
    → InBudget k b' sleeps
    → InBudget (suc k) b (b ∷ sleeps)
unfolding budget
another_round k b b' sleeps h j s = record {
  rounds = omega (arith, s.rounds);
  each = (h, s.each);
  total = omega (arith, s.total, budget_mono k b' (next_backoff b) j);
}

last_round : (k b : ℕ) → b ≤ 30 → InBudget (suc k) b (b ∷ [])
unfolding budget
last_round k b h = record { rounds = omega arith; each = (h, tt); total = omega arith }

attempts-InBudget :
    (k n b : ℕ) (world : ℕ → Attempt) (c : Connection)
    → b ≤ 30
    → InBudget k b (attempts k n b world c).1
unfolding attempts budget next_backoff
attempts-InBudget zero n b world c h = record {
  rounds = omega arith;
  each = tt;
  total = omega arith;
}
attempts-InBudget (suc k) n b world c h = elim (Bool-cases c.closed) [
  | inl s ↦ rw (s, attempts) (record { rounds = omega arith; each = tt; total = omega arith })
  | inr s ↦ elim (Bool-cases (world n).dialled) [
    | inr f ↦
        rw (s, attempts, f)
          (another_round k b (next_backoff b) _ h (omega arith)
            (attempts-InBudget k (n + 1) (next_backoff b) world _ (ground arith)))
    | inl t ↦ elim (Bool-cases (replays (world n) (steps (world n).sleeping c))) [
      | inl g ↦ rw (s, attempts, t, g) (last_round k b h)
      | inr g ↦
          rw (s, attempts, t, g)
            (another_round k b b _ h (ground arith) (attempts-InBudget k (n + 1) b world _ h))
    ]
  ]
]

-- A reconnect ends after at most ten rounds. It sleeps at most 30 seconds before each dial and at
-- most 181 seconds in all, whatever the dials and the replays of the start message come to.
pub reconnect-sleeps :
    (first : ℕ) (world : ℕ → Attempt) (c : Connection)
    → let sleeps = (reconnect first world c).1 in
      (length sleeps ≤ 10) × All (λ s. s ≤ 30) sleeps × (sum sleeps ≤ 181)
unfolding reconnect budget next_backoff
reconnect-sleeps first world c = go c.closed
  where
    go :
        (b : Bool)
        → let sleeps = (unless_closed b first world c).1 in
          (length sleeps ≤ 10) × All (λ s. s ≤ 30) sleeps × (sum sleeps ≤ 181)
    go true = (omega arith, tt, omega arith)
    go false =
        let r = attempts-InBudget 10 first 1 world (record c { conn = none }) (omega arith) in
        (r.rounds, r.each, r.total)

-- The start message, if there is one, is the last text on the wire, on a connection that this reconnect
-- dialled.
pub data IsBack (first : ℕ) (start : Option String) : Ended × List ℕ × Connection → Type 0 where
  with_start :
      (id : ℕ) (text : String) (earlier : List (ℕ × String)) (sleeps : List ℕ) (d : Connection)
      → first ≤ id
      → start ≡ some text
      → d.conn ≡ some id
      → d.wire ≡ earlier ++ (id, text) ∷ []
      → IsBack first start (reconnected, sleeps, d)
  without_start :
      (id : ℕ) (sleeps : List ℕ) (d : Connection)
      → first ≤ id
      → start ≡ none
      → d.conn ≡ some id
      → IsBack first start (reconnected, sleeps, d)

-- No step closes the connection, and no mission starts or ends: neither touches the start message.
abbrev pub LeavesOpen : Step → Type 0
LeavesOpen (caches o) = ⊥
LeavesOpen closes = ⊥
LeavesOpen _ = Unit

-- What such steps leave alone.
pub record IsAlike (c d : Connection) : Type 0 where
  pub conn : d.conn ≡ c.conn
  pub closed : d.closed ≡ c.closed
  pub start : d.cached_start_msg ≡ c.cached_start_msg

-- A round whose dial and write succeed, up to which the others leave the connection open.
pub record Good (world : ℕ → Attempt) (n t : ℕ) : Type 0 where
  pub sleeping : (j : ℕ) → n ≤ j → j ≤ t → All LeavesOpen (world j).sleeping
  pub published : (j : ℕ) → n ≤ j → j ≤ t → All LeavesOpen (world j).published
  pub dials : (world t).dialled ≡ true
  pub writes : (world t).replayed ≡ true
