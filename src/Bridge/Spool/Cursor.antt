-- ===== src/Bridge/Spool/Cursor.antt =====
-- `saveCursor` and `storeDispatch` in src/bridge/spool.ts, run more than once.
use aicoo_local_agent.Common.Int.{ℤ, ◌≤ℤ◌, leb_ℤ, max_ℤ}
use aicoo_local_agent.Common.{
  ℕ, ◌≡◌, ◌≢◌, refl, ap, sym, ◌∙◌, ◌⊎◌, inl, inr, map, Memᴰ, mem-cons, Every, List, [], ◌∷◌, ◌++◌,
  Bool, true, false, Option, none, some, arith, Bool-cases, ◌==◌, if◌then◌else◌, has_row,
  select_first, update_where,
}
use aicoo_local_agent.Bridge.Spool.{
  parsed_or_zero, CursorRow, Spool, Envelope, cursor_of, put_cursor, save_cursor, store_dispatch,
  dispatch_row, is_dispatch,
}

-- A member of the list that is no less than any member.
abbrev pub IsGreatest : ℤ → List ℤ → Type 0
IsGreatest z numbers = Memᴰ z numbers × Every (λ n. n ≤ℤ z) numbers

same_number : {a b : ℤ} → a ∷ [] ≡ b ∷ [] → a ≡ b
same_number k = cc

max-cases : (a b : ℤ) → ((max_ℤ a b ≡ a) × (b ≤ℤ a)) ⊎ ((max_ℤ a b ≡ b) × (a ≤ℤ b))
unfolding max_ℤ
max-cases a b = elim (Bool-cases (leb_ℤ a b)) [
  | inl less ↦ inr (rw less refl, ground arith)
  | inr more ↦ inl (rw more refl, ground arith)
]

-- The greatest of a list whose first two numbers have been put together.
IsGreatest-max :
    (a b z : ℤ) (rest : List ℤ) → IsGreatest z (max_ℤ a b ∷ rest) → IsGreatest z (a ∷ b ∷ rest)
IsGreatest-max a b z rest (m, (top, others)) = elim (max-cases a b) [
  | inl (e, less) ↦
      let low : a ≤ℤ z = rw e at top in
      (
        elim (mem-cons (max_ℤ a b) rest m) [
          | inl same ↦ Memᴰ.head (same ∙ e)
          | inr k ↦ Memᴰ.tail (Memᴰ.tail k)
        ],
        (low, (omega (arith, low, less), others)),
      )
  | inr (e, less) ↦
      let low : b ≤ℤ z = rw e at top in
      (
        elim (mem-cons (max_ℤ a b) rest m) [
          | inl same ↦ Memᴰ.tail (Memᴰ.head (same ∙ e))
          | inr k ↦ Memᴰ.tail (Memᴰ.tail k)
        ],
        (omega (arith, low, less), (low, others)),
      )
]

-- The number that a table has for a key, if it has one.
unfoldable pub stored_cursor : ℕ → List CursorRow → List ℤ
stored_cursor key [] = []
stored_cursor key (c ∷ cs) = if c.key == key then c.last_seq ∷ [] else stored_cursor key cs

-- `saveCursor` for one text after another.
unfoldable pub save_all : ℕ → List (Option ℤ) → Spool → Spool
unfolding save_cursor
save_all key [] s = s
save_all key (parsed ∷ more) s = save_all key more (save_cursor key parsed s)

stored_cursor-append :
    (key : ℕ) (seq : ℤ) (rows : List CursorRow)
    → has_row (λ c. c.key == key) rows ≡ false
    → (stored_cursor key rows ≡ [])
      × (stored_cursor key (rows ++ record { key = key; last_seq = seq } ∷ []) ≡ seq ∷ [])
unfolding stored_cursor has_row select_first
stored_cursor-append key seq [] h =
    let own : (key == key) ≡ true = ground arith in (refl, rw own refl)
stored_cursor-append key seq (c ∷ cs) h =
    let miss : (c.key == key) ≡ false = ground arith in
    let (e, f) = stored_cursor-append key seq cs (ground arith) in (rw miss e, rw miss f)

stored_cursor-update :
    (key : ℕ) (seq : ℤ) (rows : List CursorRow)
    → has_row (λ c. c.key == key) rows ≡ true
    → (z : ℤ) × (stored_cursor key rows ≡ z ∷ [])
      × (stored_cursor key (
            update_where
              (λ c. c.key == key)
              (λ c. record c { last_seq = max_ℤ c.last_seq seq })
              rows)
          ≡ max_ℤ z seq ∷ [])
unfolding stored_cursor has_row select_first update_where
stored_cursor-update key seq [] h = absurd (ground arith)
stored_cursor-update key seq (c ∷ cs) h = elim (Bool-cases (c.key == key)) [
  | inl hit ↦ (c.last_seq, rw hit refl, rw (hit, hit) refl)
  | inr miss ↦
      let (z, e, f) = stored_cursor-update key seq cs (ground arith) in
      (z, rw miss e, rw (miss, miss) f)
]

cursor_of-stored_cursor :
    (key : ℕ) (rows : List CursorRow) (z : ℤ)
    → stored_cursor key rows ≡ z ∷ []
    → cursor_of key rows ≡ z
unfolding cursor_of stored_cursor select_first
cursor_of-stored_cursor key [] z h = cc
cursor_of-stored_cursor key (c ∷ cs) z h = elim (Bool-cases (c.key == key)) [
  | inl hit ↦ rw (cursor_of, hit) (same_number (rw hit at h))
  | inr miss ↦ rw (cursor_of, miss) (cursor_of-stored_cursor key cs z (rw miss at h))
]

-- One save: the number is put together with the stored one, or stored as it is.
stored_cursor-save_cursor :
    (key : ℕ) (parsed : Option ℤ) (s : Spool)
    → ((stored_cursor key s.cursors ≡ [])
        × (stored_cursor key (save_cursor key parsed s).cursors ≡ parsed_or_zero parsed ∷ []))
      ⊎ ((z : ℤ) × (stored_cursor key s.cursors ≡ z ∷ [])
          × (stored_cursor key (save_cursor key parsed s).cursors
              ≡ max_ℤ z (parsed_or_zero parsed) ∷ []))
unfolding save_cursor put_cursor
stored_cursor-save_cursor key parsed s = elim (Bool-cases (has_row (λ c. c.key == key) s.cursors)) [
  | inl e ↦ inr (rw e (stored_cursor-update key (parsed_or_zero parsed) s.cursors e))
  | inr e ↦ inl (rw e (stored_cursor-append key (parsed_or_zero parsed) s.cursors e))
]

save_all-IsGreatest :
    (key : ℕ) (texts : List (Option ℤ)) (s : Spool) (z : ℤ)
    → stored_cursor key s.cursors ≡ z ∷ []
    → IsGreatest (cursor_of key (save_all key texts s).cursors) (z ∷ map parsed_or_zero texts)
unfolding save_all
save_all-IsGreatest key [] s z h =
    let e = cursor_of-stored_cursor key s.cursors z h in (Memᴰ.head e, (rw e (omega arith), tt))
save_all-IsGreatest key (t ∷ ts) s z h = elim (stored_cursor-save_cursor key t s) [
  | inl (missing, _) ↦ cc
  | inr (y, e, f) ↦
      let same : y ≡ z = same_number (sym e ∙ h) in
      IsGreatest-max z (parsed_or_zero t) _ (map parsed_or_zero ts) (
        save_all-IsGreatest key ts (save_cursor key t s) (max_ℤ z (parsed_or_zero t))
          (f ∙ ap (λ x. max_ℤ x (parsed_or_zero t) ∷ []) same))
]

-- After one save or more under a key, the cursor of the key is the greatest of the number that was
-- stored for it, if there was one, and the numbers saved, where a text that is no finite number counts
-- as 0 and a negative number as itself. So the order of the saves does not matter, and a stored cursor
-- never moves back.
pub cursor_of-save_all :
    (key : ℕ) (parsed : Option ℤ) (more : List (Option ℤ)) (s : Spool)
    → IsGreatest
        (cursor_of key (save_all key (parsed ∷ more) s).cursors)
        (stored_cursor key s.cursors ++ map parsed_or_zero (parsed ∷ more))
unfolding save_all
cursor_of-save_all key parsed more s = elim (stored_cursor-save_cursor key parsed s) [
  | inl (missing, e) ↦
      rw missing (save_all-IsGreatest key more (save_cursor key parsed s) (parsed_or_zero parsed) e)
  | inr (z, e, f) ↦ rw e (
      IsGreatest-max z (parsed_or_zero parsed) _ (map parsed_or_zero more)
        (save_all-IsGreatest key more (save_cursor key parsed s) _ f))
]

has_row-append :
    {A : Type 0} (p : A → Bool) (xs : List A) (a : A) → p a ≡ true → has_row p (xs ++ a ∷ []) ≡ true
unfolding has_row
has_row-append p [] a h = ground arith
has_row-append p (x ∷ xs) a h = ground (arith, has_row-append p xs a h)

second :
    {a b : Bool} {x y : Spool} → ◌≡◌ {A = Option (Bool × Spool)} (some (a, x)) (some (b, y)) → x ≡ y
second h = cc

store_dispatch_result :
    (e : Envelope) (delivery : Option ℕ) (s : Spool) {fresh : Bool} {t : Spool}
    → store_dispatch e delivery s ≡ some (fresh, t)
    → (is_dispatch e delivery ≡ true) × (has_row (λ m. m.message_id == e.id) t.messages ≡ true)
unfolding store_dispatch
store_dispatch_result e delivery s {fresh} {t} h = elim (Bool-cases (is_dispatch e delivery)) [
  | inl whole ↦ elim (Bool-cases (has_row (λ m. m.message_id == e.id) s.messages)) [
    | inl known ↦
        let k : some (false, s) ≡ some (fresh, t) = rw (← h, store_dispatch, whole, known) refl in
        let same : s ≡ t = second k in
        (
          whole,
          ap (λ (u : Spool). has_row (λ m. m.message_id == e.id) u.messages) (sym same) ∙ known,
        )
    | inr new ↦
        let stored : Spool = record s { messages = s.messages ++ dispatch_row e delivery ∷ [] } in
        let k : some (true, stored) ≡ some (fresh, t) = rw (← h, store_dispatch, whole, new) refl in
        let same : stored ≡ t = second k in
        (
          whole,
          ap (λ (u : Spool). has_row (λ m. m.message_id == e.id) u.messages) (sym same)
              ∙ has_row-append (λ m. m.message_id == e.id) s.messages (dispatch_row e delivery)
                  own_key,
        )
  ]
  | inr short ↦
      let k : ◌≡◌ {A = Option (Bool × Spool)} none (some (fresh, t)) =
        rw (← h, store_dispatch, short) refl in
      absurd (none_is_not k)
]
  where
    own_key : ((dispatch_row e delivery).message_id == e.id) ≡ true
    own_key = unfold dispatch_row in ground arith

    none_is_not : ◌≢◌ {A = Option (Bool × Spool)} none (some (fresh, t))
    none_is_not k = cc

-- A dispatched message that was stored is not stored again: the second call says so and leaves the
-- spool as the first call left it.
pub store_dispatch_twice :
    (e : Envelope) (delivery : Option ℕ) (s : Spool) {fresh : Bool} {t : Spool}
    → store_dispatch e delivery s ≡ some (fresh, t)
    → store_dispatch e delivery t ≡ some (false, t)
unfolding store_dispatch
store_dispatch_twice e delivery s {fresh} {t} h =
    let (whole, known) = store_dispatch_result e delivery s h in
    rw (store_dispatch, whole, known) refl
