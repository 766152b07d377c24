-- ===== src/Api/Metrics/Tests.antt =====
-- An instance of the theorem about it.
use Prim.Native.String.{String, ◌++◌ as ◌+++◌}
use axon_search.Base.{ℕ, zero, suc, ◌≡◌}
use axon_search.Api.Metrics.{Registry, empty, record_request}
use axon_search.Api.Metrics.Prometheus.{Format, count_lines, timed_lines}
use axon_search.Api.Metrics.Scrape.{record_request_comm}

-- Numbers as strokes.
strokes : ℕ → String
strokes zero = ""
strokes (suc n) = ◌+++◌ "|" (strokes n)

abbrev format : Format
format = record { int = strokes; seconds = λ decimals n. strokes n }

abbrev search : Registry → Registry
search = record_request "GET" "/search" 2 7

abbrev index : Registry → Registry
index = record_request "POST" "/index" 3 9

record_request_comm_example :
    (count_lines format (search (index (search empty)))
      ≡ count_lines format (index (search (search empty))))
    × (timed_lines format (search (index (search empty)))
        ≡ timed_lines format (index (search (search empty))))
record_request_comm_example =
    record_request_comm format "GET" "/search" 2 7 "POST" "/index" 3 9 (search empty)
