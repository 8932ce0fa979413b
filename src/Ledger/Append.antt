-- ===== src/Ledger/Append.antt =====
-- What is appended to a ledger can be parsed.
use text.Mathlib.Text.{◌==◌ as str_eq}
use text.Mathlib.TextPositions.{eq_refl}
use mathlib.Core.Path.{subst}
use omni_benchmark.Prelude.{
  ◌≡◌, refl, ap, String, Bool, true, false, not, Option, none, some, List, [], ◌∷◌, ◌++◌, arith,
  if◌then◌else◌,
}
use omni_benchmark.Ledger.{
  LedgerFile, Field, missing, null, words, other, got, LedgerError, chain_invalid, hash_differs,
  LedgerEvent, Format, Ledger, accepted, invalid, follows, event_digest, check_event, and_then,
  loaded, parse_from, parse_ledger, last_digest, next_event, append_event,
}

-- Whether a field holds what the next event must follow.
abbrev Expects : Field → Option String → Type 0
Expects field none = field ≡ null
Expects field (some s) = field ≡ words s

follows-Expects :
    (field : Field) (expected : Option String)
    → Expects field expected
    → follows field expected ≡ true
follows-Expects field none h = rw h refl
follows-Expects field (some s) h = rw h (eq_refl s)

module _ {A B : Type 0} where
  and_then-accepted :
      (m : Ledger A) (f : A → Ledger B) (b : B)
      → and_then m f ≡ accepted b
      → (a : A) × (m ≡ accepted a) × (f a ≡ accepted b)
  and_then-accepted (accepted a) f b e = (a, refl, e)
  and_then-accepted (invalid error) f b e = ground (arith, e)

accepted_or : {A : Type 0} → A → Ledger A → A
accepted_or default (accepted a) = a
accepted_or default (invalid error) = default

accepted-injective : {A : Type 0} (x y : A) → accepted x ≡ accepted y → x ≡ y
unfolding accepted_or
accepted-injective x y e = ap (accepted_or x) e

passed :
    {A : Type 0} (test : Bool) (error : LedgerError) (m : Ledger A) (a : A)
    → (if test then invalid error else m) ≡ accepted a
    → m ≡ accepted a
passed true error m a e = ground (arith, e)
passed false error m a e = e

check_event-recorded :
    {P L : Type 0} (format : Format P L) (expected : Option String) (event : LedgerEvent P)
    (field : Field) (recorded : String)
    → check_event format expected event (got field) ≡ accepted recorded
    → field ≡ words recorded
unfolding check_event
check_event-recorded format expected event missing recorded e = ground (arith, e)
check_event-recorded format expected event null recorded e = ground (arith, e)
check_event-recorded format expected event (other s) recorded e = ground (arith, e)
check_event-recorded format expected event (words s) recorded e =
    let differs = not (str_eq (event_digest format event.content) s) in
    let first =
      passed (not (follows event.content.previous_event_sha256 expected)) chain_invalid
        (if differs then invalid hash_differs else accepted s) recorded e in
    ap words
      (accepted-injective s recorded (passed differs hash_differs (accepted s) recorded first))

module _ {P L : Type 0} (format : Format P L)
    (loads-canonical : (e : LedgerEvent P) → format.loads (format.canonical e) ≡ some e) where
  parse-next :
      (payload : P) (field : Field) (expected : Option String)
      → Expects field expected
      → parse_from format expected (format.canonical (next_event format payload field) ∷ [])
        ≡ accepted (next_event format payload field ∷ [])
  unfolding parse_from check_event next_event
  parse-next payload field expected h =
      rw
        (
          loads-canonical (next_event format payload field),
          follows-Expects field expected h,
          eq_refl
              (event_digest format (record { payload = payload; previous_event_sha256 = field })),
          parse_from,
          check_event,
        )
        refl

  parse-step :
      (expected : Option String) (line : L) (recorded : String) (lines : List L)
      (event : LedgerEvent P) (events : List (LedgerEvent P))
      → loaded (format.loads line) ≡ accepted event
      → check_event format expected event (got event.event_sha256) ≡ accepted recorded
      → parse_from format (some recorded) lines ≡ accepted events
      → parse_from format expected (line ∷ lines) ≡ accepted (event ∷ events)
  unfolding parse_from
  parse-step expected line recorded lines event events h e f = rw (h, e, f, parse_from) refl

  parse-append :
      (payload : P) (field : Field) (expected : Option String) (lines : List L)
      (events : List (LedgerEvent P))
      → Expects field expected
      → parse_from format expected lines ≡ accepted events
      → parse_from format expected (
          lines
          ++ (format.canonical (next_event format payload (last_digest format field events)) ∷ []))
        ≡ accepted (events ++ (next_event format payload (last_digest format field events) ∷ []))
  unfolding parse_from last_digest
  parse-append payload field expected [] [] h e = parse-next payload field expected h
  parse-append payload field expected [] (event ∷ events) h e = ground (arith, e)
  parse-append payload field expected (line ∷ lines) events h e =
      let one = and_then-accepted (loaded (format.loads line)) _ events e in
      let two =
        and_then-accepted (check_event format expected one.0 (got one.0.event_sha256)) _ events
          one.2 in
      let three = and_then-accepted (parse_from format (some two.0) lines) _ events two.2 in
      let digest = check_event-recorded format expected one.0 one.0.event_sha256 two.0 two.1 in
      let later =
        parse-append payload one.0.event_sha256 (some two.0) lines three.0 digest three.1 in
      subst
        (λ es.
          parse_from format expected (
            (line ∷ lines)
            ++ (format.canonical (next_event format payload (last_digest format field es)) ∷ []))
          ≡ accepted (es ++ (next_event format payload (last_digest format field es) ∷ [])))
        (accepted-injective (one.0 ∷ three.0) events three.2)
        (parse-step expected line two.0 _ one.0 _ one.1 two.1 later)

  -- If `json.loads` reads back the canonical line of every event, then appending to a ledger that can be
  -- parsed and ends with a newline, where the check does not raise, gives one that can be parsed, to
  -- the events before and the new one, which has the payload; it ends with a newline again.
  pub append_event-parse_ledger :
      (payload : P) (check : List (LedgerEvent P) → Bool) (file : LedgerFile L)
      (events : List (LedgerEvent P))
      → file.is_terminated ≡ true
      → parse_ledger format file.lines ≡ accepted events
      → check events ≡ true
      → (result : LedgerFile L) × (event : LedgerEvent P) × (append_event format payload check file
          ≡ accepted result)
        × (parse_ledger format result.lines ≡ accepted (events ++ (event ∷ [])))
        × (result.is_terminated ≡ true)
        × (event.content.payload ≡ payload)
  unfolding append_event parse_ledger next_event
  append_event-parse_ledger payload check file events n e h =
      let event = next_event format payload (last_digest format null events) in
      (
        record { lines = file.lines ++ (format.canonical event ∷ []); is_terminated = true },
        event,
        rw (n, e, h, append_event) refl,
        parse-append payload null none file.lines events refl e,
        refl,
        refl,
      )
