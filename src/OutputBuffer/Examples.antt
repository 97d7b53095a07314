-- ===== src/OutputBuffer/Examples.antt =====
-- include/evolving_disk_state_old/pipeline_buffer.hpp: runs of a buffer of two elements.
use wedding_cake_cpp.Base.{ℕ, ◌++◌, ◌≡◌, ◌≤◌, refl, List, [], ◌∷◌, Bool, true, arith, length}
use wedding_cake_cpp.OutputBuffer.{
  OutputBuffer, push_back_as_provider, show_full_batch, wipe_if_full, try_process_full_batch,
}
use wedding_cake_cpp.OutputBuffer.Steps.{
  Pipeline, started, Step, push, accept, wipe, Run, done, more, Run-handled,
}

abbrev buffer_of : List ℕ → OutputBuffer ℕ
buffer_of contents = record { capacity = 2; contents = contents }

abbrev always : List ℕ → Bool
always contents = true

abbrev nothing_pushed : Pipeline ℕ
nothing_pushed = started 2

abbrev one_pushed : Pipeline ℕ
one_pushed = record { buffer = buffer_of (5 ∷ []); wiping = 0; pushed = 5 ∷ []; handled = [] }

push_one : Step nothing_pushed one_pushed
unfolding push_back_as_provider
push_one = push nothing_pushed 5 (buffer_of (5 ∷ [])) refl

one_run : Run nothing_pushed one_pushed
one_run = more nothing_pushed nothing_pushed one_pushed (done nothing_pushed) push_one (omega arith)

abbrev two_pushed : Pipeline ℕ
two_pushed = record {
  buffer = buffer_of (5 ∷ 6 ∷ []);
  wiping = 0;
  pushed = 5 ∷ 6 ∷ [];
  handled = [];
}

push_two : Step one_pushed two_pushed
unfolding push_back_as_provider
push_two = push one_pushed 6 (buffer_of (5 ∷ 6 ∷ [])) refl

abbrev shown : Pipeline ℕ
shown = record two_pushed { wiping = 1; handled = 5 ∷ 6 ∷ [] }

accept_two : Step two_pushed shown
unfolding show_full_batch
accept_two = accept two_pushed always refl

-- Between the halves of a call of a consumer.
shown_run : Run nothing_pushed shown
shown_run =
    more nothing_pushed two_pushed shown
      (more nothing_pushed one_pushed two_pushed one_run push_two (omega arith)) accept_two
      (omega arith)

Run-handled_example :
    (shown.wiping ≡ 0 → shown.pushed ≡ shown.handled ++ shown.buffer.contents)
    × (shown.wiping ≡ 1 → shown.pushed ≡ shown.handled)
    × (length shown.buffer.contents ≤ 2)
Run-handled_example = Run-handled 2 shown shown_run

-- A batch that nothing interrupts.
abbrev two : List ℕ
two = 5 ∷ 6 ∷ []

abbrev empty_contents : List ℕ
empty_contents = []

batch_processed : try_process_full_batch always (buffer_of two) ≡ (true, buffer_of empty_contents)
unfolding try_process_full_batch show_full_batch wipe_if_full
batch_processed = refl

-- Two consumers are shown the same full batch. The first wipes it, the provider fills the buffer
-- again, and the second wipes what no lambda has seen.
abbrev again_full : Pipeline ℕ
again_full = record {
  buffer = buffer_of (7 ∷ 8 ∷ []);
  wiping = 1;
  pushed = 5 ∷ 6 ∷ 7 ∷ 8 ∷ [];
  handled = 5 ∷ 6 ∷ 5 ∷ 6 ∷ [];
}

abbrev lost : Pipeline ℕ
lost = record again_full { buffer = buffer_of empty_contents; wiping = 0 }

unseen_wiped : Step again_full lost
unfolding wipe_if_full
unseen_wiped = wipe again_full (omega arith)
