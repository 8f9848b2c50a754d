-- ===== src/TraceId/Tests.antt =====
-- Runs of the theorems on trace IDs.
use jaeger_client_cpp.Base.{arith}
use jaeger_client_cpp.TraceId.{TraceId, IsWord}

abbrev two_words : TraceId
two_words = record { high = 10; low = 2748 }

two_words-IsWord : IsWord two_words
two_words-IsWord = (omega arith, omega arith)
