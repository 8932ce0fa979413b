-- ===== src/Examples/Chain.antt =====
-- A ledger whose lines are its events, and whose digests are the names of its payloads.
use omni_benchmark.Prelude.{◌≡◌, refl, String, true, some, [], ◌∷◌, ◌++◌}
use omni_benchmark.Ledger.{
  LedgerFile, null, words, LedgerEvent, Format, accepted, append_event, parse_ledger, next_event,
}
use omni_benchmark.Ledger.Append.{append_event-parse_ledger}

abbrev format : Format String (LedgerEvent String)
format = record {
  content_bytes = λ c. c.payload;
  canonical = λ e. e;
  joined = λ e f. e;
  loads = λ e. some e;
  sha256 = λ s. s;
}

abbrev baseline : LedgerEvent String
baseline = next_event format "baseline" null

abbrev first_file : LedgerFile (LedgerEvent String)
first_file = record { lines = baseline ∷ []; is_terminated = true }

parsed : parse_ledger format (baseline ∷ []) ≡ accepted (baseline ∷ [])
unfolding parse_ledger next_event
parsed = refl

chained :
    append_event format "candidate" (λ events. true) first_file
    ≡ accepted (record {
      lines = baseline ∷ next_event format "candidate" (words "baseline") ∷ [];
      is_terminated = true;
    })
unfolding append_event next_event
chained = refl

append_event-parse_ledger_example :
    (result : LedgerFile (LedgerEvent String)) × (event : LedgerEvent String) × (append_event format
        "candidate"
        (λ events. true)
        first_file
      ≡ accepted result)
    × (parse_ledger format result.lines ≡ accepted ((baseline ∷ []) ++ (event ∷ [])))
    × (result.is_terminated ≡ true)
    × (event.content.payload ≡ "candidate")
append_event-parse_ledger_example =
    append_event-parse_ledger format (λ e. refl) "candidate" (λ events. true) first_file
      (baseline ∷ []) refl parsed refl
