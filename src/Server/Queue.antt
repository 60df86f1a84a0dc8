-- ===== src/Server/Queue.antt =====
-- The queue of connections of `Server::run`. The lock is held for each use of the queue, so that what
-- the acceptor and the workers do is a sequence of steps.
use policy_driven_rate_limit.Prelude.{
  List, [], ap, append_assoc, arith, if_either, if◌then◌else◌, length, length-append, ltb, max,
  refl, sym, ℕ, ◌++◌, ◌∙◌, ◌∷◌, ◌≡◌, ◌≤◌,
}

-- `std::max(1, maxQueuedConnections)`.
abbrev pub capacity_of : ℕ → ℕ
capacity_of max_queued_connections = max 1 max_queued_connections

-- The clients that wait, and what has happened: who came and was queued, who came and was answered
-- that the server is busy, and whom a worker took.
pub record Pending (C : Type 0) : Type 0 where
  pub pending : List C
  pub queued : List C
  pub turned_away : List C
  pub taken : List C

module _ {C : Type 0} where
  abbrev pub nobody : Pending C
  nobody = record { pending = []; queued = []; turned_away = []; taken = [] }

  -- Behind `accept`.
  unfoldable pub admit : ℕ → Pending C → C → Pending C
  admit max_queued_connections q client =
      if ltb (length q.pending) (capacity_of max_queued_connections)
      then (record q { pending = q.pending ++ (client ∷ []); queued = q.queued ++ (client ∷ []) })
      else (record q { turned_away = q.turned_away ++ (client ∷ []) })

  -- A worker takes the front; it waits while there is none.
  unfoldable pub take_front : Pending C → List C → Pending C
  take_front q [] = q
  take_front q (client ∷ rest) = record q { pending = rest; taken = q.taken ++ (client ∷ []) }

  -- The states that a run reaches.
  pub data Reaches (max_queued_connections : ℕ) : Pending C → Type 0 where
    starting : Reaches max_queued_connections nobody
    accepting :
        {q : Pending C} (client : C)
        → Reaches max_queued_connections q
        → Reaches max_queued_connections (admit max_queued_connections q client)
    taking :
        {q : Pending C}
        → Reaches max_queued_connections q
        → Reaches max_queued_connections (take_front q q.pending)

  -- Within the capacity, and who was queued was taken, in the order of arrival, or waits.
  pub record IsFair (max_queued_connections : ℕ) (q : Pending C) : Type 0 where
    pub bounded : length q.pending ≤ max 1 max_queued_connections
    pub in_order : q.taken ++ q.pending ≡ q.queued

  admit-IsFair : (m : ℕ) (q : Pending C) (client : C) → IsFair m q → IsFair m (admit m q client)
  unfolding admit
  admit-IsFair m q client v =
      if_either (IsFair m) (ltb (length q.pending) (capacity_of m)) _ _
        (λ room. record {
          bounded = ground (arith, room, length-append q.pending (client ∷ []));
          in_order =
              sym (append_assoc q.taken q.pending (client ∷ []))
              ∙ ap (λ (cs : List C). cs ++ (client ∷ [])) v.in_order;
        })
        (λ full. record { bounded = v.bounded; in_order = v.in_order })

  take_front-IsFair :
      (m : ℕ) (q : Pending C) (front : List C)
      → q.pending ≡ front
      → IsFair m q
      → IsFair m (take_front q front)
  unfolding take_front
  take_front-IsFair m q [] e v = v
  take_front-IsFair m q (client ∷ rest) e v = record {
    bounded = omega (arith, v.bounded, ap length e);
    in_order =
        append_assoc q.taken (client ∷ []) rest
        ∙ ap (λ (cs : List C). q.taken ++ cs) (sym e)
        ∙ v.in_order;
  }

  -- In every state that accepting clients and taking them by workers leads to, at most the
  -- configured number of clients waits, or one where that number is 0, and those taken and then
  -- those waiting are the clients that were queued, in the order of their arrival.
  pub Reaches-IsFair : (m : ℕ) (q : Pending C) → Reaches m q → IsFair m q
  Reaches-IsFair m q starting = record { bounded = omega arith; in_order = refl }
  Reaches-IsFair m q (accepting client r) = admit-IsFair m _ client (Reaches-IsFair m _ r)
  Reaches-IsFair m q (taking r) = take_front-IsFair m _ _ refl (Reaches-IsFair m _ r)
