-- ===== src/Queue.antt =====
-- internal/queue/queue.go. Each method holds the mutex for its whole body, so it is one step.
use ocap2_extension.Prelude.{ℕ, Bool, true, false, List, [], ◌∷◌, ◌++◌, length}

pub record Queue {ℓ} (A : Type ℓ) : Type ℓ where
  pub items : List A

module _ {ℓ} {A : Type ℓ} where
  abbrev pub new : Queue A
  new = record { items = [] }

  unfoldable pub push : List A → Queue A → Queue A
  push as' q = record { items = q.items ++ as' }

  first_or : A → List A → A × Queue A
  first_or zero [] = (zero, record { items = [] })
  first_or zero (a ∷ as') = (a, record { items = as' })

  -- The zero value if the queue is empty.
  unfoldable pub pop : A → Queue A → A × Queue A
  unfolding first_or
  pop zero q = first_or zero q.items

  none_in : List A → Bool
  none_in [] = true
  none_in (a ∷ as') = false

  unfoldable pub empty : Queue A → Bool
  unfolding none_in
  empty q = none_in q.items

  abbrev pub len : Queue A → ℕ
  len q = length q.items

  unfoldable pub clear : Queue A → Queue A
  clear q = record { items = [] }

  unfoldable pub get_and_empty : Queue A → List A × Queue A
  get_and_empty q = (q.items, record { items = [] })
