-- ===== src/Examples/Com.antt =====
-- Inputs for com: a stream of four numbers with a timeout in between.
use icinga_go_library.Prelude.{
  ℕ, ◌+◌, ◌≡◌, ◌==◌, refl, pos, pos_part, List, [], ◌∷◌, ◌++◌, some, none, concat, max, All,
}
use icinga_go_library.Com.Bulker.{
  SplitPolicy, Event, item, close, timeout, cancel, never_split, run,
}
use icinga_go_library.Com.Bulker.Chunks.{received}
use icinga_go_library.Com.Bulker.Sizes.{FitsChunk}
use icinga_go_library.Com.Bulk.{
  bulk, bulk_lem, one_bulk, one_bulk-eq-run, OneEvent, deliver, drop_item,
}
use icinga_go_library.Com.Counter
use icinga_go_library.Com.Counter.{
  Counter, Op, adds, swaps, ends, zero_counter, u64, added, total, total_exact,
}
use icinga_go_library.Com.Cond
use icinga_go_library.Com.Cond.{
  Cond, new_cond, is_closed, Request, broadcasts, waits, closes, signals, wait, wait_lem,
}
use icinga_go_library.Com.CopyFirst.{
  Forwarder, forwarding, Move, receive_next, send_next, read, copy_first, forward, IsForwarding,
  copy_first-IsForwarding,
}

abbrev stream : List (Event ℕ)
stream = item 1 ∷ item 2 ∷ timeout ∷ item 3 ∷ item 4 ∷ []

-- a policy that demands a split before the number 2
abbrev split_at_two : SplitPolicy ℕ ℕ
split_at_two = record { fresh = 0; call = λ s v. (s + 1, v == 2) }

abbrev interleaving : List Op
interleaving = adds 5 ∷ swaps ∷ adds 7 ∷ ends ∷ adds 1 ∷ swaps ∷ ends ∷ []

abbrev counted_up : Counter
counted_up = record { value = 0; total = 13; held = none }

abbrev requests : List Request
requests = waits ∷ broadcasts ∷ waits ∷ closes ∷ broadcasts ∷ []

abbrev moves : List Move
moves = receive_next ∷ send_next ∷ read ∷ send_next ∷ receive_next ∷ read ∷ []

abbrev first_state : Forwarder ℕ
first_state = record {
  input = 2 ∷ 3 ∷ [];
  hand = none;
  fwd = 1 ∷ [];
  taken = [];
  status = forwarding;
}

chunks_of_two : bulk never_split (pos 2) (stream ++ close ∷ []) ≡ (1 ∷ 2 ∷ []) ∷ (3 ∷ 4 ∷ []) ∷ []
unfolding bulk run never_split
chunks_of_two = refl

bulk_lem_example :
    (concat (bulk never_split (pos 2) (stream ++ close ∷ [])) ≡ received stream)
    × All (FitsChunk (max 1 (pos_part (pos 2)))) (bulk never_split (pos 2) (stream ++ close ∷ []))
bulk_lem_example = bulk_lem never_split (pos 2) stream (tt, (tt, (tt, (tt, (tt, tt)))))

-- The context ends while the third item is being sent.
abbrev dropping : List (OneEvent ℕ)
dropping = deliver 1 ∷ deliver 2 ∷ drop_item 3 ∷ []

one_bulk-eq-run_example :
    one_bulk dropping ≡ (run split_at_two 1 (item 1 ∷ timeout ∷ item 2 ∷ cancel ∷ [])).sent
one_bulk-eq-run_example =
    one_bulk-eq-run split_at_two (item 1 ∷ timeout ∷ item 2 ∷ cancel ∷ []) dropping refl

total_exact_example : total counted_up ≡ some (u64 (added interleaving))
total_exact_example =
    total_exact interleaving {c = counted_up} (unfold Counter.run zero_counter in refl) refl

wait_lem_example : is_closed (Cond.run new_cond requests) 0 ≡ signals requests
wait_lem_example = wait_lem requests new_cond {channel = 0} (unfold wait new_cond in refl)

copy_first-IsForwarding_example : IsForwarding (1 ∷ 2 ∷ 3 ∷ []) (forward first_state moves)
copy_first-IsForwarding_example =
    copy_first-IsForwarding 1 (2 ∷ 3 ∷ []) first_state moves (unfold copy_first in refl)
