-- ===== src/OutputBuffer/Steps.antt =====
-- include/evolving_disk_state_old/pipeline_buffer.hpp: providers and consumers at once.
use wedding_cake_cpp.Base.{
  ℕ, ◌+◌, ◌-◌, ◌<◌, ◌≤◌, ◌≡◌, refl, ap, sym, ◌∙◌, List, [], ◌∷◌, ◌++◌, append_assoc, append-nil,
  Bool, true, some, ltb, leb, ltb→lt, length, length-append, Bool-cases, inl, inr, arith,
}
use wedding_cake_cpp.OutputBuffer.{
  OutputBuffer, push_back_as_provider, show_full_batch, wipe_if_full, new_output_buffer,
}

-- The buffer, how many consumers are between the two halves of their calls with should_wipe, what
-- was pushed so far, and what the lambdas of those consumers were shown.
pub record Pipeline (A : Type 0) : Type 0 where
  pub buffer : OutputBuffer A
  pub wiping : ℕ
  pub pushed : List A
  pub handled : List A

module _ {A : Type 0} where
  abbrev pub started : ℕ → Pipeline A
  started capacity = record {
    buffer = new_output_buffer capacity;
    wiping = 0;
    pushed = [];
    handled = [];
  }

  -- A lambda that declines changes nothing.
  pub data Step : Pipeline A → Pipeline A → Type 0 where
    push :
        (s : Pipeline A) (item : A) (b : OutputBuffer A)
        → push_back_as_provider item s.buffer ≡ some b
        → Step s (record s { buffer = b; pushed = s.pushed ++ (item ∷ []) })
    accept :
        (s : Pipeline A) (consumer_lambda : List A → Bool)
        → show_full_batch consumer_lambda s.buffer ≡ some true
        → Step s (record s { wiping = s.wiping + 1; handled = s.handled ++ s.buffer.contents })
    wipe :
        (s : Pipeline A)
        → 0 < s.wiping
        → Step s (record s { buffer = (wipe_if_full s.buffer).1; wiping = s.wiping - 1 })

  -- Runs in which a consumer comes only when no other is about to wipe.
  pub data Run : Pipeline A → Pipeline A → Type 0 where
    done : (s : Pipeline A) → Run s s
    more : (s t u : Pipeline A) → Run s t → Step t u → u.wiping ≤ 1 → Run s u

  -- Between the halves of a call the buffer stays full with what was shown, and otherwise it holds
  -- what was pushed and not shown.
  pub record IsConsistent (s : Pipeline A) : Type 0 where
    pub one_consumer : s.wiping ≤ 1
    pub bounded : length s.buffer.contents ≤ s.buffer.capacity
    pub idle : s.wiping ≡ 0 → s.pushed ≡ s.handled ++ s.buffer.contents
    pub busy :
        s.wiping ≡ 1 → (s.pushed ≡ s.handled) × (length s.buffer.contents ≡ s.buffer.capacity)

  push_inv :
      (item : A) (b b' : OutputBuffer A)
      → push_back_as_provider item b ≡ some b'
      → (length b.contents < b.capacity) × (b' ≡ record b { contents = b.contents ++ (item ∷ []) })
  unfolding push_back_as_provider
  push_inv item b b' e = elim (Bool-cases (ltb (length b.contents) b.capacity)) [
    | inl h ↦ (ltb→lt (length b.contents) b.capacity h, ground (arith, e, h))
    | inr h ↦ absurd (ground (arith, e, h))
  ]

  show_full :
      (f : List A → Bool) (b : OutputBuffer A)
      → show_full_batch f b ≡ some true
      → b.capacity ≤ length b.contents
  unfolding show_full_batch
  show_full f b e = elim (Bool-cases (leb b.capacity (length b.contents))) [
    | inl h ↦ ground (arith, h)
    | inr h ↦ absurd (ground (arith, e, h))
  ]

  wipe_full :
      (b : OutputBuffer A)
      → b.capacity ≤ length b.contents
      → (wipe_if_full b).1 ≡ record b { contents = [] }
  unfolding wipe_if_full
  wipe_full b h =
      let full : leb b.capacity (length b.contents) ≡ true = ground arith in rw full refl

  Step-IsConsistent : (s t : Pipeline A) → IsConsistent s → Step s t → t.wiping ≤ 1 → IsConsistent t
  Step-IsConsistent s _ h (push _ item b e) one =
      let (room, same) = push_inv item s.buffer b e in
      rw same (record {
        one_consumer = one;
        bounded = omega (arith, length-append s.buffer.contents (item ∷ []));
        idle = λ z.
            ap (λ (t : List A). t ++ (item ∷ [])) (h.idle z)
            ∙ append_assoc s.handled s.buffer.contents (item ∷ []);
        busy = λ z. absurd (omega (arith, (h.busy z).1));
      })
  Step-IsConsistent s _ h (accept _ f e) one =
      let full = show_full f s.buffer e in
      record {
        one_consumer = one;
        bounded = h.bounded;
        idle = λ z. absurd (omega (arith, z));
        busy = λ z. (h.idle (omega arith), omega (arith, h.bounded));
      }
  Step-IsConsistent s _ h (wipe _ pos) one =
      let (all, full) = h.busy (omega (arith, h.one_consumer)) in
      let cleared = wipe_full s.buffer (omega arith) in
      rw cleared (record {
        one_consumer = one;
        bounded = omega arith;
        idle = λ z. all ∙ sym (append-nil s.handled);
        busy = λ z. absurd (omega (arith, z, h.one_consumer));
      })

  Run-IsConsistent : (s t : Pipeline A) → IsConsistent s → Run s t → IsConsistent t
  Run-IsConsistent s _ h (done _) = h
  Run-IsConsistent s _ h (more _ t u r step one) =
      Step-IsConsistent t u (Run-IsConsistent s t h r) step one

  started-IsConsistent : (capacity : ℕ) → IsConsistent (started capacity)
  started-IsConsistent capacity = record {
    one_consumer = omega arith;
    bounded = omega arith;
    idle = λ z. refl;
    busy = λ z. absurd (omega (arith, z));
  }

  -- In runs of providers and consumers where at most one consumer is between the two halves of its
  -- call, what was pushed is what accepting lambdas were shown followed by the contents while no
  -- consumer is about to wipe, and exactly what they were shown while one is; the contents never
  -- exceed the capacity.
  pub Run-handled :
      (capacity : ℕ) (t : Pipeline A)
      → Run (started capacity) t
      → (t.wiping ≡ 0 → t.pushed ≡ t.handled ++ t.buffer.contents)
        × (t.wiping ≡ 1 → t.pushed ≡ t.handled)
        × (length t.buffer.contents ≤ t.buffer.capacity)
  Run-handled capacity t r =
      let h = Run-IsConsistent (started capacity) t (started-IsConsistent capacity) r in
      (h.idle, λ z. (h.busy z).0, h.bounded)
