-- ===== src/Tests/Queues.antt =====
-- The queue of a socket and the builder of deltas.
use data_spinner.Base.{
  ℕ, ◌+◌, ◌≡◌, refl, arith, Bool, true, false, none, List, [], ◌∷◌, ◌++◌, length, inl, inr,
}
use data_spinner.Buffer.{SingleRecordBuffer, capacity, send_len, send_bytes}
use data_spinner.Delta.{MdDelta}
use data_spinner.Queue.{
  TcpSocketQueue, Socket, SendResult, sent, add_to_cache, cache_round, send_front, send_cache,
  send_buffer,
}
use data_spinner.Queue.Throttle.{IsQueue, RoundKeeps, add_to_cache-IsQueue, cache_round-IsQueue}
use data_spinner.Queue.Stream.{
  IsSendable, stream, RoundStream, IsWhole, IsFirstCut, send_front-stream,
}
use data_spinner.Queue.Cache.{Settled, Ends, send_cache-Settled}
use data_spinner.Queue.Send.{Fate, IsOffered, send_buffer-Fate}
use data_spinner.Queue.Resend.{round_length, send_front_resends, send_cache_stuck}
use data_spinner.Builder.{Publisher, MdDeltaBuilder, add_intdata, end_delta}
use data_spinner.Builder.Entries.{an_int, IsBuilder, ◌and_then◌}
use data_spinner.Builder.Adds.{IsPublisher, Gives, given, add_intdata-Gives, Ended, end_delta-Ended}
use data_spinner.Builder.Values.{
  Value, int_value, dbl_value, accepted, add_values, add_values-accepted,
}
use data_spinner.Tests.Data.{sevens, a_delta, length-replicate}

-- A record of 20 bytes, before its first send and after one that took 6 of them.
abbrev fresh : SingleRecordBuffer
fresh = record { buff = sevens; len = 20; read_pos = 0; start_pos = 0 }

abbrev started : SingleRecordBuffer
started = record { buff = sevens; len = 20; read_pos = 0; start_pos = 6 }

fresh-IsSendable : IsSendable fresh
fresh-IsSendable = record {
  whole = length-replicate {A = ℕ} capacity 7;
  fits = omega arith;
  before_end = omega arith;
}

started-IsSendable : IsSendable started
started-IsSendable = record {
  whole = length-replicate {A = ℕ} capacity 7;
  fits = omega arith;
  before_end = omega arith;
}

abbrev pub a_queue : List SingleRecordBuffer → TcpSocketQueue
a_queue bs = record {
  buffers = bs;
  session_index = 0;
  throttle_on = false;
  stat_log_time = 0;
  stat_send_num = 0;
  stat_curr_len = 0;
  stat_avg_len = 0;
  stat_max_len = 0;
  stat_total_len = 0;
}

abbrev pub a_socket : Socket
a_socket = record { calls = 0; wire = [] }

-- A socket that takes all of every record, and one that takes six bytes of each.
abbrev pub takes_all : ℕ → ℕ → SendResult
takes_all i n = sent n

abbrev takes_six : ℕ → ℕ → SendResult
takes_six i n = sent 6

pub takes_all-IsWhole : (i n : ℕ) → IsWhole n (takes_all i n)
unfolding IsWhole
takes_all-IsWhole i n = refl

abbrev one_cached : TcpSocketQueue
one_cached = a_queue (started ∷ [])

one_cached-IsQueue : IsQueue one_cached
one_cached-IsQueue = record { bounded = omega arith; throttled_long = inl refl }

add_to_cache-IsQueue_example :
    ((add_to_cache fresh 0 one_cached).0 ≡ true) × IsQueue (add_to_cache fresh 0 one_cached).1
add_to_cache-IsQueue_example = add_to_cache-IsQueue fresh 0 one_cached one_cached-IsQueue

cache_round-IsQueue_example :
    RoundKeeps IsQueue (cache_round takes_six (started ∷ []) one_cached a_socket)
cache_round-IsQueue_example =
    cache_round-IsQueue takes_six (started ∷ []) one_cached a_socket refl one_cached-IsQueue

six-IsFirstCut : IsFirstCut fresh (sent 6)
unfolding IsFirstCut send_len
six-IsFirstCut = (omega arith, inr refl)

send_front-stream_example :
    RoundStream
      (stream (a_queue (fresh ∷ [])) a_socket)
      (send_front takes_six fresh [] (a_queue (fresh ∷ [])) a_socket)
send_front-stream_example =
    send_front-stream takes_six fresh [] (a_queue (fresh ∷ [])) a_socket fresh-IsSendable refl
      six-IsFirstCut

send_cache-Settled_example :
    Ends (λ r. Settled one_cached a_socket r.1 r.2) (send_cache takes_all 2 one_cached a_socket)
send_cache-Settled_example =
    send_cache-Settled takes_all takes_all-IsWhole 2 one_cached a_socket (started-IsSendable, tt)
      (omega arith)

send_buffer-Fate_example :
    Ends
      (Fate one_cached a_socket (send_bytes fresh))
      (send_buffer takes_all 2 10 100 fresh one_cached a_socket)
send_buffer-Fate_example =
    send_buffer-Fate takes_all takes_all-IsWhole 2 10 100 fresh one_cached a_socket fresh-IsSendable
      refl (started-IsSendable, tt) (omega arith)

six-IsOffered : IsOffered (send_len fresh) (sent 6)
unfolding IsOffered send_len
six-IsOffered = omega arith

send_front_resends_example :
    round_length (send_front takes_six started [] one_cached a_socket)
    ≡ length (stream one_cached a_socket) + 6
unfolding send_len
send_front_resends_example =
    send_front_resends takes_six started [] one_cached a_socket 6 started-IsSendable refl refl
      (omega arith)

send_cache_stuck_example : send_cache takes_six 1000 one_cached a_socket ≡ none
unfolding send_len
send_cache_stuck_example =
    send_cache_stuck takes_six 1000 started [] one_cached a_socket 6 (λ i m. refl) refl refl
      (omega arith)

-- A publisher that takes the first delta and refuses the others.
abbrev one_only : Publisher (List MdDelta)
one_only = record {
  publish =
      λ d ds. elim ds as (λ _. Bool × List MdDelta) [ [] ↦ (true, d ∷ []) | e ∷ es ↦ (false, ds) ];
}

one_only-takes :
    (d : MdDelta) (ds : List MdDelta)
    → (one_only.publish d ds).0 ≡ true
    → (one_only.publish d ds).1 ≡ ds ++ (d ∷ [])
one_only-takes d [] e = refl
one_only-takes d (x ∷ ds) e = absurd (ground (arith, e))

one_only-refuses :
    (d : MdDelta) (ds : List MdDelta)
    → (one_only.publish d ds).0 ≡ false
    → (one_only.publish d ds).1 ≡ ds
one_only-refuses d [] e = absurd (ground (arith, e))
one_only-refuses d (x ∷ ds) e = refl

abbrev one_only_laws : IsPublisher one_only
one_only_laws = record { published = λ ds. ds; takes = one_only-takes; refuses = one_only-refuses }

-- A builder whose integers are full.
abbrev full_builder : MdDeltaBuilder
full_builder = record { symbol = 77 ∷ []; delta = a_delta; int_idx = 6; dbl_idx = 2; str_idx = 0 }

full_builder-IsBuilder : IsBuilder full_builder
full_builder-IsBuilder = record {
  int_idx_size = refl;
  int_val_size = refl;
  dbl_idx_size = refl;
  dbl_val_size = refl;
  ints_fit = omega arith;
  dbls_fit = omega arith;
}

add_intdata-Gives_example :
    Gives one_only one_only_laws full_builder []
      (an_int 4 5)
      (add_intdata one_only 9 4 5 full_builder [])
add_intdata-Gives_example =
    add_intdata-Gives one_only one_only_laws 9 4 5 full_builder [] full_builder-IsBuilder

end_delta-Ended_example :
    Ended one_only one_only_laws 9 full_builder [] (end_delta one_only 9 full_builder [])
end_delta-Ended_example =
    end_delta-Ended one_only one_only_laws 9 full_builder [] full_builder-IsBuilder

abbrev some_values : List Value
some_values = int_value 4 5 ∷ dbl_value 1 2 ∷ int_value 5 6 ∷ []

add_values-accepted_example :
    IsBuilder (add_values one_only 9 some_values full_builder []).1
    × (given one_only one_only_laws
          (add_values one_only 9 some_values full_builder []).1
          (add_values one_only 9 some_values full_builder []).2
        ≡ given one_only one_only_laws full_builder []
          and_then accepted (add_values one_only 9 some_values full_builder []).0)
add_values-accepted_example =
    add_values-accepted one_only one_only_laws 9 some_values full_builder [] full_builder-IsBuilder
