-- ===== src/Sender/Tests.antt =====
-- Runs of the theorems on the sender, where a span is its own size.
use jaeger_client_cpp.Base.{ℕ, ◌≡◌, refl, true, false, List, [], ◌∷◌, All, arith}
use jaeger_client_cpp.Sender.{Call, append_call, flush_call, calls, new_sender}
use jaeger_client_cpp.Sender.Counting.{IsPacket, StaysInt}
use jaeger_client_cpp.Sender.Packets.{calls-IsPacket}
use jaeger_client_cpp.Sender.Order.{IsSent, all_spans, small_spans, calls-small_spans}

abbrev own_size : ℕ → ℕ
own_size n = n

abbrev some_calls : List (Call ℕ)
some_calls = append_call true 20 ∷ append_call true 30 ∷ append_call false 25 ∷ flush_call true ∷ []

some_calls-StaysInt : StaysInt own_size 100 10 100 some_calls
some_calls-StaysInt = (omega arith, (omega arith, (omega arith, tt)))

calls-IsPacket_example :
    All (IsPacket own_size 100 10) (calls own_size 100 10 some_calls new_sender).emitted
calls-IsPacket_example = calls-IsPacket own_size 100 10 some_calls some_calls-StaysInt

abbrev taken_calls : List (Call ℕ)
taken_calls = append_call true 20 ∷ append_call true 70 ∷ append_call true 50 ∷ flush_call true ∷ []

taken_calls-IsSent : All (IsSent own_size 100 10) taken_calls
taken_calls-IsSent = (refl, (refl, (refl, (refl, tt))))

calls-small_spans_example :
    all_spans own_size 100 10 (calls own_size 100 10 taken_calls new_sender)
    ≡ small_spans own_size 100 10 taken_calls
calls-small_spans_example = calls-small_spans own_size 100 10 taken_calls taken_calls-IsSent
