-- ===== src/Ledger.antt =====
-- src/omni_benchmark/autoresearch_lifecycle.py: `_parse_ledger`, and what `_append_event` does to the
-- file: its lines, and whether the last of them ends with a newline. Bytes are given by the record
-- `Format`: `canonical` is the line of an event, `joined` one line of the bytes of two,
-- `content_bytes` the bytes of an event without its digest, `loads` is `json.loads` for an object.
-- `P` is the type of the fields that a payload has beside the two of the chain, `L` that of a line.
pub mod Append
use text.Mathlib.Text.{◌==◌ as str_eq}
use omni_benchmark.Prelude.{
  String, Bool, true, false, not, Option, none, some, List, [], ◌∷◌, ◌++◌, if◌then◌else◌,
}

-- A field of a JSON object, which may be missing.
pub data Field : Type 0 where
  missing null : Field
  words other : String → Field

-- `event.get(key)`, where only a string or nothing is compared.
abbrev pub got : Field → Option String
got (words s) = some s
got _ = none

pub data LedgerError : Type 0 where
  invalid_json hash_missing chain_invalid hash_differs check_failed : LedgerError

-- The bytes of a ledger: its lines, and whether nothing stands after the last newline.
pub record LedgerFile (L : Type 0) : Type 0 where
  pub lines : List L
  pub is_terminated : Bool

module _ (P : Type 0) where
  pub record Content : Type 0 where
    pub payload : P
    pub previous_event_sha256 : Field

  pub record LedgerEvent : Type 0 where
    pub content : Content
    pub event_sha256 : Field

  pub record Format (L : Type 0) : Type 0 where
    pub content_bytes : Content → String
    pub canonical : LedgerEvent → L
    pub joined : L → L → L
    pub loads : L → Option LedgerEvent
    pub sha256 : String → String

pub data Ledger (A : Type 0) : Type 0 where
  accepted : A → Ledger A
  invalid : LedgerError → Ledger A

-- `content.get("previous_event_sha256") == expected_previous`
abbrev pub follows : Field → Option String → Bool
follows missing none = true
follows null none = true
follows (words s) (some t) = str_eq s t
follows _ _ = false

abbrev pub and_then : {A B : Type 0} → Ledger A → (A → Ledger B) → Ledger B
and_then (accepted a) f = f a
and_then (invalid error) f = invalid error

abbrev pub loaded : {P : Type 0} → Option (LedgerEvent P) → Ledger (LedgerEvent P)
loaded none = invalid invalid_json
loaded (some event) = accepted event

module _ {P L : Type 0} (format : Format P L) where
  -- `_event_digest`
  unfoldable pub event_digest : Content P → String
  event_digest content = format.sha256 (format.content_bytes content)

  -- The tests of `_parse_ledger` on an event, with the digest recorded in it.
  unfoldable pub check_event : Option String → LedgerEvent P → Option String → Ledger String
  unfolding event_digest
  check_event expected event none = invalid hash_missing
  check_event expected event (some recorded) =
      if not (follows event.content.previous_event_sha256 expected)
      then invalid chain_invalid
      else if not (str_eq (event_digest event.content) recorded)
      then invalid hash_differs
      else accepted recorded

  -- The loop of `_parse_ledger`.
  unfoldable pub parse_from : Option String → List L → Ledger (List (LedgerEvent P))
  unfolding check_event
  parse_from expected [] = accepted []
  parse_from expected (line ∷ lines) = and_then (loaded (format.loads line)) (λ event.
      and_then (check_event expected event (got event.event_sha256)) (λ recorded.
        and_then (parse_from (some recorded) lines) (λ events. accepted (event ∷ events))))

  unfoldable pub parse_ledger : List L → Ledger (List (LedgerEvent P))
  unfolding parse_from
  parse_ledger lines = parse_from none lines

  -- `events[-1]["event_sha256"] if events else None`
  unfoldable pub last_digest : Field → List (LedgerEvent P) → Field
  last_digest previous [] = previous
  last_digest previous (event ∷ events) = last_digest event.event_sha256 events

  unfoldable pub next_event : P → Field → LedgerEvent P
  unfolding event_digest
  next_event payload previous =
      let content : Content P = record { payload = payload; previous_event_sha256 = previous } in
      record { content = content; event_sha256 = words (event_digest content) }

  -- Bytes after a last line that has no newline belong to that line.
  abbrev continued : List L → L → List L
  continued [] line = line ∷ []
  continued (x ∷ []) line = format.joined x line ∷ []
  continued (x ∷ y ∷ lines) line = x ∷ continued (y ∷ lines) line

  -- `handle.write` of a line with its newline, at the end of the file
  abbrev pub written : LedgerFile L → L → LedgerFile L
  written file line = record {
    lines = if file.is_terminated then file.lines ++ (line ∷ []) else continued file.lines line;
    is_terminated = true;
  }

  -- The file after `_append_event`, without the anchors of the ledger; `check` is whether it does not
  -- raise.
  unfoldable pub append_event :
      P → (List (LedgerEvent P) → Bool) → LedgerFile L → Ledger (LedgerFile L)
  unfolding parse_ledger last_digest next_event
  append_event payload check file = and_then (parse_ledger file.lines) (λ events.
      if check events
      then accepted (written file (format.canonical (next_event payload (last_digest null events))))
      else invalid check_failed)
