-- ===== src/IngesterBuffer/Steps.antt =====
-- The clients and the worker at the buffer: what was fed goes downstream in the order of feeding.
use wedding_cake_cpp.Base.{
  ℕ, ◌+◌, ◌%◌, ◌^◌, ◌<◌, ◌≡◌, ◌⊎◌, inl, inr, sym, ap, ap₂, subst, ◌∙◌, List, [], ◌++◌, append_assoc,
  append-nil, some, Bool, true, ◌||◌, ◌&&◌, nat_eq, length, length-append, ok, Bool-cases, arith,
}
use wedding_cake_cpp.Types.{HashItem, GlobalPi}
use wedding_cake_cpp.IngesterBuffer.{
  IngesterBuffer, Consumer, feed_block_of_hashes, request_flush, stop, consume,
  with_at_least_n_hashes, has_items, can_feed, flush_returns,
}
use wedding_cake_cpp.IngesterBuffer.Cases.{accepted, feed_block_of_hashes_cases, consume_cases}
use wedding_cake_cpp.IngesterBuffer.Lookups.{
  IsIndexed, feed_block_of_hashes-IsIndexed, request_flush-IsIndexed, consume-IsIndexed,
}

-- A worker: it stores the entries that it is given behind those stored before.
pub record Downstream (S : Type 0) : Type 0 where
  pub func : Consumer S
  pub stored : S → List HashItem
  pub stores :
      (s s' : S) (items : List HashItem) (is_flushing : Bool) (capacity : ℕ)
      → func s items is_flushing ≡ ok (s', [], capacity)
      → stored s' ≡ stored s ++ items

request_flush_same :
    (b : IngesterBuffer)
    → ((request_flush b).buffer ≡ b.buffer)
      × ((request_flush b).first_global_pi ≡ b.first_global_pi)
unfolding request_flush
request_flush_same b = (ground arith, ground arith)

module _ {S : Type 0} (w : Downstream S) where
  -- One operation of a client, of the worker or of the owner that stops both, with the entries that
  -- it queued.
  pub data Step : S × IngesterBuffer → List HashItem → S × IngesterBuffer → Type 0 where
    feed :
        (s : S) (b b' : IngesterBuffer) (block : List HashItem)
        → feed_block_of_hashes block b ≡ some b'
        → Step (s, b) (accepted b block) (s, b')
    flush : (s : S) (b : IngesterBuffer) → Step (s, b) [] (s, request_flush b)
    work :
        (s s' : S) (b b' : IngesterBuffer)
        → with_at_least_n_hashes w.func s b ≡ some (ok (s', b'))
        → Step (s, b) [] (s', b')
    halt : (s : S) (b : IngesterBuffer) → Step (s, b) [] (s, stop b)

  pub data Run (x : S × IngesterBuffer) : List HashItem → S × IngesterBuffer → Type 0 where
    here : Run x [] x
    next :
        {items more : List HashItem} {y z : S × IngesterBuffer}
        → Run x items y
        → Step y more z
        → Run x (items ++ more) z

  -- All entries that have been accepted, in their order.
  abbrev pub entries : S × IngesterBuffer → List HashItem
  entries (s, b) = w.stored s ++ b.buffer

  work_cases :
      (s s' : S) (b b' : IngesterBuffer)
      → with_at_least_n_hashes w.func s b ≡ some (ok (s', b'))
      → ((s' ≡ s) × (b' ≡ b)) ⊎ (consume w.func s b ≡ ok (s', b'))
  unfolding with_at_least_n_hashes
  work_cases s s' b b' e = elim (Bool-cases (has_items b)) [
    | inl on ↦ elim (Bool-cases (b.stopping && nat_eq (length b.buffer) 0)) [
      | inl idle ↦ inl (ground (arith, e), ground (arith, e))
      | inr busy ↦ inr (ground (arith, e))
    ]
    | inr off ↦ absurd (ground (arith, e))
  ]

  Step-entries :
      {x y : S × IngesterBuffer} {more : List HashItem}
      → Step x more y
      → entries y ≡ entries x ++ more
  unfolding stop
  Step-entries (feed s b b' block e) =
      ap (λ (t : IngesterBuffer). w.stored s ++ t.buffer) (feed_block_of_hashes_cases block b b' e)
      ∙ sym (append_assoc (w.stored s) b.buffer (accepted b block))
  Step-entries (flush s b) =
      ap (λ (t : List HashItem). w.stored s ++ t) (request_flush_same b).0 ∙ sym (append-nil _)
  Step-entries (work s s' b b' e) = elim (work_cases s s' b b' e) [
    | inl (es, eb) ↦
        ap₂ (λ (t : S) (u : IngesterBuffer). w.stored t ++ u.buffer) es eb ∙ sym (append-nil _)
    | inr c ↦
        let (capacity, f, _, after) = consume_cases w.func s s' b b' c in
        ap (λ (t : IngesterBuffer). w.stored s' ++ t.buffer) after
        ∙ append-nil (w.stored s')
        ∙ w.stores s s' b.buffer b.please_flush capacity f
        ∙ sym (append-nil _)
  ]
  Step-entries (halt s b) = sym (append-nil _)

  -- Whatever the clients, the worker and the owner do in whatever order, the entries stored
  -- downstream followed by those in the buffer are the ones that were there at the start followed
  -- by the accepted blocks in the order of feeding: none is lost, repeated or moved. The worker is
  -- any that stores the entries it is given behind those stored before.
  pub Run-entries :
      {x y : S × IngesterBuffer} {items : List HashItem}
      → Run x items y
      → entries y ≡ entries x ++ items
  Run-entries here = sym (append-nil _)
  Run-entries (next {items = items} {more = more} {y = y} r t) =
      Step-entries t
      ∙ ap (λ (e : List HashItem). e ++ more) (Run-entries r)
      ∙ append_assoc _ items more

  -- The buffer starts, on uint64_t, behind what is stored, when the first stored entry has the index
  -- `base`; and its map is that of its entries.
  pub record IsNumbered (base : ℕ) (x : S × IngesterBuffer) : Type 0 where
    pub behind : x.1.first_global_pi.value ≡ (base + length (w.stored x.0)) % 2 ^ 64
    pub indexed : IsIndexed x.1

  Step-IsNumbered :
      {x y : S × IngesterBuffer} {more : List HashItem} (base : ℕ)
      → Step x more y
      → IsNumbered base x
      → IsNumbered base y
  Step-IsNumbered base (feed s b b' block e) n = record {
    behind =
        ap (λ (t : IngesterBuffer). t.first_global_pi.value)
          (feed_block_of_hashes_cases block b b' e)
        ∙ n.behind;
    indexed = feed_block_of_hashes-IsIndexed block b b' n.indexed e;
  }
  Step-IsNumbered base (flush s b) n = record {
    behind = ap (λ (t : GlobalPi). t.value) (request_flush_same b).1 ∙ n.behind;
    indexed = request_flush-IsIndexed b n.indexed;
  }
  Step-IsNumbered base (work s s' b b' e) n = elim (work_cases s s' b b' e) [
    | inl (es, eb) ↦
        subst (IsNumbered base) (ap₂ (λ (t : S) (u : IngesterBuffer). (t, u)) (sym es) (sym eb)) n
    | inr c ↦
        let (capacity, f, _, after) = consume_cases w.func s s' b b' c in
        let grown = w.stores s s' b.buffer b.please_flush capacity f in
        let size = length-append (w.stored s) b.buffer in
        record {
          behind =
              ap (λ (t : IngesterBuffer). t.first_global_pi.value) after
              ∙ omega (arith, n.behind, ap (length {A = HashItem}) grown, size);
          indexed = consume-IsIndexed w.func s s' b b' c;
        }
  ]
  Step-IsNumbered base (halt s b) n =
      unfold stop in record { behind = n.behind; indexed = n.indexed }

  -- Every run keeps the numbering: the first index of the buffer, on uint64_t, is the one behind
  -- all stored entries, and the map of the buffer tells the last place of each hash that is queued
  -- and nothing else.
  pub Run-IsNumbered :
      {x y : S × IngesterBuffer} {items : List HashItem} (base : ℕ)
      → Run x items y
      → IsNumbered base x
      → IsNumbered base y
  Run-IsNumbered base here n = n
  Run-IsNumbered base (next r t) n = Step-IsNumbered base t (Run-IsNumbered base r n)

-- In every state of the buffer a client can feed or the worker can start, a client that flushes
-- can return or the worker can start, a flush that was asked for lets the worker start unless
-- the buffer is empty, and after stop nobody waits.
pub no_mutual_wait :
    (b : IngesterBuffer)
    → ((can_feed b || has_items b) ≡ true)
      × ((flush_returns b || has_items b) ≡ true)
      × ((nat_eq (length b.buffer) 0 || has_items (request_flush b)) ≡ true)
      × ((can_feed (stop b) && (has_items (stop b) && flush_returns (stop b))) ≡ true)
unfolding stop request_flush
no_mutual_wait b = (ground arith, ground arith, ground arith, ground arith)

-- After a successful round of the worker the buffer is empty, there is room downstream, and both
-- the clients that wait to feed and those that wait for a flush can go on.
pub consume-wakes :
    {S : Type 0} (func : Consumer S) (s s' : S) (b b' : IngesterBuffer)
    → consume func s b ≡ ok (s', b')
    → ((can_feed b' && flush_returns b') ≡ true)
      × (b'.buffer ≡ [])
      × (0 < b'.downstream_remaining_capacity)
consume-wakes func s s' b b' e =
    let (capacity, _, room, after) = consume_cases func s s' b b' e in
    (ground (arith, after), ground (arith, after), ground (arith, after))
