-- ===== src/Bridge/Spool/Progress.antt =====
-- `listInjectable` in src/bridge/spool.ts: no session that can go on is passed over.
use aicoo_local_agent.Common.{
  mem-cons, select-mem, has_row_lem, ℕ, ◌≡◌, ◌≢◌, ◌<◌, refl, ap, sym, inl, inr, List, [], ◌∷◌, true,
  false, Memᴰ, arith, Bool-cases, ◌==◌, leb, has_row, select, order_by, insert_by,
}
use aicoo_local_agent.Bridge.Spool.{
  SpoolMessage, Spool, is_done, is_next, is_blocked_by, first_of_each, list_injectable,
}
use aicoo_local_agent.Bridge.Spool.Ordering.{IsNext}

module _ {ℓ} {A : Type ℓ} where
  insert_by-mem :
      (key : A → ℕ) (a : A) (xs : List A) {b : A} → Memᴰ b (a ∷ xs) → Memᴰ b (insert_by key a xs)
  unfolding insert_by
  insert_by-mem key a [] m = m
  insert_by-mem key a (x ∷ xs) m = elim (Bool-cases (leb (key a) (key x))) [
    | inl low ↦ rw low m
    | inr high ↦ rw high (elim (mem-cons a (x ∷ xs) m) [
      | inl e ↦ Memᴰ.tail (insert_by-mem key a xs (Memᴰ.head e))
      | inr n ↦ elim (mem-cons x xs n) [
        | inl e ↦ Memᴰ.head e
        | inr k ↦ Memᴰ.tail (insert_by-mem key a xs (Memᴰ.tail k))
      ]
    ])
  ]

  order_by-mem : (key : A → ℕ) (xs : List A) {b : A} → Memᴰ b xs → Memᴰ b (order_by key xs)
  unfolding order_by
  order_by-mem key [] m = m
  order_by-mem key (x ∷ xs) (Memᴰ.head e) = insert_by-mem key x (order_by key xs) (Memᴰ.head e)
  order_by-mem key (x ∷ xs) (Memᴰ.tail m) =
      insert_by-mem key x (order_by key xs) (Memᴰ.tail (order_by-mem key xs m))

first_of_each-mem :
    (seen : List ℕ) (ms : List SpoolMessage) (m : SpoolMessage)
    → Memᴰ m ms
    → has_row (λ c. c == m.comm_session_id) seen ≡ false
    → (b : SpoolMessage) × Memᴰ b (first_of_each seen ms) × (b.comm_session_id ≡ m.comm_session_id)
unfolding first_of_each has_row
first_of_each-mem seen [] m listed new = elim listed [ ]
first_of_each-mem seen (x ∷ ms) m listed new =
    elim (Bool-cases (has_row (λ c. c == x.comm_session_id) seen)) [
      | inl old ↦ rw old (elim (mem-cons x ms listed) [
        | inl e ↦ absurd (clash old e)
        | inr n ↦ first_of_each-mem seen ms m n new
      ])
      | inr fresh ↦ rw fresh (elim (Bool-cases (x.comm_session_id == m.comm_session_id)) [
        | inl same ↦ (x, Memᴰ.head refl, ground arith)
        | inr other ↦ elim (mem-cons x ms listed) [
          | inl e ↦ (x, Memᴰ.head refl, ap (λ (r : SpoolMessage). r.comm_session_id) (sym e))
          | inr n ↦
              let (b, k, q) = first_of_each-mem (x.comm_session_id ∷ seen) ms m n (rw other new) in
              (b, Memᴰ.tail k, q)
        ]
      ])
    ]
  where
    clash : has_row (λ c. c == x.comm_session_id) seen ≡ true → m ≢ x
    clash old e =
        ground (arith, ap (λ (r : SpoolMessage). has_row (λ c. c == r.comm_session_id) seen) e)

IsNext-is_next :
    (messages : List SpoolMessage) (m : SpoolMessage)
    → IsNext messages m
    → is_next messages m ≡ true
unfolding is_next
IsNext-is_next messages m v = elim (Bool-cases (has_row (is_blocked_by m) messages)) [
  | inl blocked ↦
      let (a, a_in, e) = has_row_lem (is_blocked_by m) messages blocked in
      let same : a.comm_session_id ≡ m.comm_session_id = unfold is_blocked_by in ground arith in
      let less : a.sequence < m.sequence = unfold is_blocked_by in ground arith in
      let finished = v.earlier_done a a_in same less in
      let unfinished : is_done a.status ≡ false = unfold is_blocked_by in ground arith in
      absurd (ground arith)
  | inr free ↦ rw (free, v.injectable) refl
]

-- If a session has a stored message that is injectable and before which every message of the
-- session is injected, failed or blocked, then the injector is given a message of that session.
pub list_injectable_progress :
    (s : Spool) (m : SpoolMessage)
    → IsNext s.messages m
    → (b : SpoolMessage) × Memᴰ b (list_injectable s) × (b.comm_session_id ≡ m.comm_session_id)
unfolding list_injectable has_row
list_injectable_progress s m v =
    let chosen = select (is_next s.messages) s.messages in
    first_of_each-mem [] (order_by (λ r. r.comm_session_id) (order_by (λ r. r.sequence) chosen)) m
      (order_by-mem (λ r. r.comm_session_id) (order_by (λ r. r.sequence) chosen)
        (order_by-mem (λ r. r.sequence) chosen
          (select-mem (is_next s.messages) s.messages v.stored (IsNext-is_next s.messages m v))))
      refl
