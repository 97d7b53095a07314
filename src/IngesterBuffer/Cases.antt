-- ===== src/IngesterBuffer/Cases.antt =====
-- What a successful operation of the buffer has done.
use wedding_cake_cpp.Base.{
  ℕ, ◌+◌, ◌%◌, ◌^◌, ◌<◌, ◌≡◌, refl, ap, ◌∙◌, List, [], ◌∷◌, ◌++◌, append-nil, some, true, false,
  if◌then◌else◌, nat_eq, ltb, ltb→lt, length, nat_Eq, list_Eq, ok, guard, assertion_failed,
  >>=-eq-ok, guard-eq-ok, arith,
}
use wedding_cake_cpp.Types.{HashItem}
use wedding_cake_cpp.IngesterBuffer.{
  IngesterBuffer, Consumer, index_block, feed_block_of_hashes, consume,
}

-- What is queued of a block: nothing once the buffer is stopping.
abbrev pub accepted : IngesterBuffer → List HashItem → List HashItem
accepted b block = if b.stopping then [] else block

abbrev pub fed : IngesterBuffer → List HashItem → IngesterBuffer
fed b block = record b {
  reverse_lookup_map = index_block block (length b.buffer) b.reverse_lookup_map;
  buffer = b.buffer ++ block;
}

pub feed_block_of_hashes_cases :
    (block : List HashItem) (b b' : IngesterBuffer)
    → feed_block_of_hashes block b ≡ some b'
    → b' ≡ fed b (accepted b block)
unfolding feed_block_of_hashes index_block
feed_block_of_hashes_cases [] b b' e = ground (arith, e, append-nil b.buffer)
feed_block_of_hashes_cases (item ∷ block) b b' e = ground (arith, e, append-nil b.buffer)

pub consume_cases :
    {S : Type 0} (func : Consumer S) (s s' : S) (b b' : IngesterBuffer)
    → consume func s b ≡ ok (s', b')
    → (capacity : ℕ) × (func s b.buffer b.please_flush ≡ ok (s', [], capacity))
      × (0 < capacity)
      × (b' ≡ record b {
        buffer = [];
        downstream_remaining_capacity = capacity;
        first_global_pi = record { value = (b.first_global_pi.value + length b.buffer) % 2 ^ 64 };
        reverse_lookup_map = [];
        please_flush = false;
      })
unfolding consume
consume_cases {S = S} func s s' b b' e =
    let ((s₁, rest, capacity), e₁, e₂) = >>=-eq-ok (func s b.buffer b.please_flush) _ e in
    let (u, g, e₃) = >>=-eq-ok (guard (nat_eq (length rest) 0) assertion_failed) _ e₂ in
    let (v, k, e₄) = >>=-eq-ok (guard (ltb 0 capacity) assertion_failed) _ e₃ in
    let same : s₁ ≡ s' = ground (arith, e₄) in
    let room = ltb→lt 0 capacity (guard-eq-ok (ltb 0 capacity) assertion_failed v k) in
    let empty = emptied rest (guard-eq-ok (nat_eq (length rest) 0) assertion_failed u g) in
    (
      capacity,
      rw empty at (e₁ ∙ ap (λ (t : S). ok (t, rest, capacity)) same),
      room,
      ground (arith, e₄, empty),
    )
  where
    emptied : (rest : List HashItem) → nat_eq (length rest) 0 ≡ true → rest ≡ []
    emptied [] h = refl
    emptied (x ∷ rest) h = absurd (ground (arith, h))
