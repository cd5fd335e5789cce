-- ===== src/Bridge/Spool/Ordering.antt =====
-- `listInjectable` in src/bridge/spool.ts: the order in which a session's messages are injected.
use aicoo_local_agent.Common.{
  mem-if, mem-cons, mem-select, ℕ, ◌≡◌, ◌≢◌, ◌<◌, ap, ◌∙◌, ◌⊎◌, inl, inr, List, [], ◌∷◌, true,
  false, Memᴰ, arith, Bool-cases, ◌==◌, leb, has_row, has_row-mem, select, order_by, insert_by,
}
use aicoo_local_agent.Bridge.Spool.{
  SpoolMessage, Spool, is_injectable, is_done, is_next, is_blocked_by, first_of_each,
  list_injectable,
}

module _ {ℓ} {A : Type ℓ} where
  mem-insert_by :
      (key : A → ℕ) (a : A) (xs : List A) {b : A}
      → Memᴰ b (insert_by key a xs)
      → (b ≡ a) ⊎ Memᴰ b xs
  unfolding insert_by
  mem-insert_by key a [] m = mem-cons a [] m
  mem-insert_by key a (x ∷ xs) m =
      elim (mem-if (leb (key a) (key x)) (a ∷ x ∷ xs) (x ∷ insert_by key a xs) m) [
        | inl (_, n) ↦ mem-cons a (x ∷ xs) n
        | inr (_, n) ↦ elim (mem-cons x (insert_by key a xs) n) [
          | inl e ↦ inr (Memᴰ.head e)
          | inr k ↦ elim (mem-insert_by key a xs k) [ inl e ↦ inl e | inr j ↦ inr (Memᴰ.tail j) ]
        ]
      ]

  pub mem-order_by : (key : A → ℕ) (xs : List A) {b : A} → Memᴰ b (order_by key xs) → Memᴰ b xs
  unfolding order_by
  mem-order_by key [] m = m
  mem-order_by key (x ∷ xs) m = elim (mem-insert_by key x (order_by key xs) m) [
    | inl e ↦ Memᴰ.head e
    | inr n ↦ Memᴰ.tail (mem-order_by key xs n)
  ]

mem-first_of_each :
    (seen : List ℕ) (ms : List SpoolMessage) {b : SpoolMessage}
    → Memᴰ b (first_of_each seen ms)
    → Memᴰ b ms × (has_row (λ c. c == b.comm_session_id) seen ≡ false)
unfolding first_of_each has_row
mem-first_of_each seen [] m = elim m [ ]
mem-first_of_each seen (x ∷ ms) {b} m =
    elim (mem-if (has_row (λ c. c == x.comm_session_id) seen) (first_of_each seen ms)
      (x ∷ first_of_each (x.comm_session_id ∷ seen) ms) m) [
        | inl (_, n) ↦ let (k, q) = mem-first_of_each seen ms n in (Memᴰ.tail k, q)
        | inr (new, n) ↦ elim (mem-cons x (first_of_each (x.comm_session_id ∷ seen) ms) n) [
          | inl e ↦ (
            Memᴰ.head e,
            ap (λ (r : SpoolMessage). has_row (λ c. c == r.comm_session_id) seen) e ∙ new,
          )
          | inr k ↦
              let (j, q) = mem-first_of_each (x.comm_session_id ∷ seen) ms k in
              (Memᴰ.tail j, ground arith)
        ]
      ]

-- What the query asks of a row.
pub record IsNext (messages : List SpoolMessage) (m : SpoolMessage) : Type 0 where
  pub stored : Memᴰ m messages
  pub injectable : is_injectable m.status ≡ true
  pub earlier_done :
      (a : SpoolMessage)
      → Memᴰ a messages
      → a.comm_session_id ≡ m.comm_session_id
      → a.sequence < m.sequence
      → is_done a.status ≡ true

is_next-IsNext :
    (messages : List SpoolMessage) (m : SpoolMessage)
    → Memᴰ m messages
    → is_next messages m ≡ true
    → IsNext messages m
unfolding is_next is_blocked_by
is_next-IsNext messages m stored h = record {
  stored = stored;
  injectable = ground arith;
  earlier_done = λ a a_in same less. elim (Bool-cases (is_done a.status)) [
    | inl e ↦ e
    | inr e ↦ absurd (clash (has_row-mem (is_blocked_by m) messages a_in (ground arith)))
  ];
}
  where
    clash : has_row (is_blocked_by m) messages ≢ true
    clash k = ground arith

-- Every message that the injector is given is stored and injectable, and every stored message of
-- its session with a smaller sequence number is injected, failed or blocked.
pub list_injectable_in_order :
    (s : Spool) (m : SpoolMessage) → Memᴰ m (list_injectable s) → IsNext s.messages m
unfolding list_injectable
list_injectable_in_order s m h =
    let chosen = select (is_next s.messages) s.messages in
    let by_sequence = order_by (λ (r : SpoolMessage). r.sequence) chosen in
    let (k, _) = mem-first_of_each [] (order_by (λ r. r.comm_session_id) by_sequence) h in
    let (stored, next) = mem-select (is_next s.messages) s.messages (
      mem-order_by (λ r. r.sequence) chosen
        (mem-order_by (λ r. r.comm_session_id) by_sequence k)) in
    is_next-IsNext s.messages m stored next

-- No two rows of the list are of one session.
pub data HasOneEach : List SpoolMessage → Type 0 where
  none_left : HasOneEach []
  one_more :
      {m : SpoolMessage} {ms : List SpoolMessage}
      → ((b : SpoolMessage) → Memᴰ b ms → b.comm_session_id ≢ m.comm_session_id)
      → HasOneEach ms
      → HasOneEach (m ∷ ms)

first_of_each-HasOneEach :
    (seen : List ℕ) (ms : List SpoolMessage) → HasOneEach (first_of_each seen ms)
unfolding first_of_each has_row
first_of_each-HasOneEach seen [] = none_left
first_of_each-HasOneEach seen (x ∷ ms) =
    elim (Bool-cases (has_row (λ c. c == x.comm_session_id) seen)) [
      | inl e ↦ rw e (first_of_each-HasOneEach seen ms)
      | inr e ↦ rw e (
          one_more
            (λ b m same.
              let (_, q) = mem-first_of_each (x.comm_session_id ∷ seen) ms m in ground arith)
            (first_of_each-HasOneEach (x.comm_session_id ∷ seen) ms))
    ]

-- The injector is given at most one message of each communication session.
pub list_injectable-HasOneEach : (s : Spool) → HasOneEach (list_injectable s)
unfolding list_injectable
list_injectable-HasOneEach s = first_of_each-HasOneEach [] _
