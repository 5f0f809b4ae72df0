-- ===== src/Store/Custody.antt =====
-- magicvault-core/src/store.rs: the store's one-time methods. Each applies its transition to the
-- table and then journals it: the audit events are the last component of the result. A value of the
-- store's clock is `now`, the id of a reservation `fresh`.
use Prim.Native.Nat.{◌/◌}
use magic_vault.Base.{
  ℕ, Text, text_eq, nat_eq, ◌==◌, Option, none, some, List, [], ◌∷◌, ◌++◌, if◌then◌else◌, ascii,
  length, Result, err,
}
use magic_vault.Base.Time.{ℤ, pos, negsuc}
use magic_vault.OneTime.Entry.{
  OneTimeBinding, OneTimeClaim, OneTimeError, OneTimeReceipt, OneTimeReservation, JournalLine,
  audit_event, feature_unavailable,
}
use magic_vault.OneTime.Table.{OneTimeTable, Transitioned, register, reserve}
use magic_vault.OneTime.Settle.{consume, release, cancel}
use magic_vault.OneTime.Scope.{sweep, state}
use magic_vault.Store.Features.{
  SecretSourceKind, SecretStoreError, feature_disabled, refused_feature, as_str,
}
use magic_vault.Store.Vault.{SecretStore, SecretAuditEvent, new_at}

-- `to_string` of the error that a disabled feature gives.
abbrev pub shown_feature_error : SecretStoreError → Text
shown_feature_error (feature_disabled source reason) =
    as_str source ++ (ascii " secret storage is unavailable: " ++ reason)
shown_feature_error _ = []

-- `one_time_feature`, as the error that it returns.
unfoldable pub one_time_feature : SecretStore → Option OneTimeError
one_time_feature s = elim (refused_feature s.capabilities SecretSourceKind.ephemeral) [
  | none ↦ none
  | some e ↦ some (feature_unavailable (shown_feature_error e))
]

-- `i64::div_euclid` by 1000.
unfoldable pub seconds : ℤ → ℤ
seconds (pos n) = pos (n / 1000)
seconds (negsuc n) = negsuc (n / 1000)

-- `str::split_once(':')`, with the whole text where there is no colon.
unfoldable pub split_colon : Text → Text × Option Text
split_colon [] = ([], none)
split_colon (c ∷ s) =
    let (tool, action) = split_colon s in if c == b':' then ([], some s) else (c ∷ tool, action)

abbrev pub detail_of : Text → Option Text → Text
detail_of scope_id none = scope_id
detail_of scope_id (some detail) = scope_id ++ (ascii ": " ++ detail)

abbrev pub with_claim : Option OneTimeClaim → SecretAuditEvent → SecretAuditEvent
with_claim none event = event
with_claim (some claim) event =
    let (tool, action) = split_colon claim.operation in
    record event { tool = some tool; action = action; domain = claim.destination }

-- The audit event of one journal line.
unfoldable pub event_of_line : Option Text → JournalLine → SecretAuditEvent
unfolding audit_event new_at seconds split_colon
event_of_line detail l =
    let r = l.receipt in
    with_claim l.claim (record (new_at (audit_event r.transition) (seconds r.at_ms)) {
      secret_id = some r.input_id;
      detail = some (detail_of r.scope_id detail);
      challenge_id = r.challenge_id;
    })

unfoldable pub journal_one_time : List JournalLine → Option Text → List SecretAuditEvent
unfolding event_of_line
journal_one_time [] detail = []
journal_one_time (l ∷ lines) detail = event_of_line detail l ∷ journal_one_time lines detail

-- What a method returns: the store, the outcome and the events that it appends.
pub record Journaled (A : Type 0) : Type 0 where
  pub store : SecretStore
  pub outcome : A
  pub events : List SecretAuditEvent

abbrev pub unchanged : {A : Type 0} → SecretStore → A → Journaled A
unchanged s outcome = record { store = s; outcome = outcome; events = [] }

-- A transition that was applied, with the lines that come before its own.
abbrev pub applied :
    {A : Type 0}
    → SecretStore
    → List JournalLine
    → OneTimeTable × Transitioned A
    → Option Text
    → Journaled (Result A OneTimeError)
applied s swept (table, transitioned) detail = record {
  store = record s { one_time = table };
  outcome = transitioned.outcome;
  events = journal_one_time (swept ++ transitioned.journal) detail;
}

unfoldable pub register_one_time :
    SecretStore
    → Text
    → Text
    → Text
    → ℤ
    → OneTimeBinding
    → ℤ
    → Journaled (Result OneTimeReceipt OneTimeError)
unfolding one_time_feature
register_one_time s scope_id input_id value deadline_ms binding now = elim (one_time_feature s) [
  | some e ↦ unchanged s (err e)
  | none ↦
      let (table, journal) = sweep s.one_time now in
      applied s journal (register table scope_id input_id value deadline_ms binding now) none
]

unfoldable pub reserve_one_time :
    SecretStore
    → Text
    → Text
    → OneTimeClaim
    → Text
    → ℤ
    → Journaled (Result OneTimeReservation OneTimeError)
unfolding one_time_feature
reserve_one_time s scope_id input_id claim fresh now = elim (one_time_feature s) [
  | some e ↦ unchanged s (err e)
  | none ↦
      let (table, journal) = sweep s.one_time now in
      applied s journal (reserve table scope_id input_id claim fresh now) none
]

unfoldable pub consume_one_time :
    SecretStore → Text → ℤ → Journaled (Result OneTimeReceipt OneTimeError)
unfolding one_time_feature
consume_one_time s reservation_id now = elim (one_time_feature s) [
  | some e ↦ unchanged s (err e)
  | none ↦ applied s [] (consume s.one_time reservation_id now) none
]

-- `failure` is the reason of the `PreDispatchFailure`.
unfoldable pub release_one_time :
    SecretStore → Text → Text → ℤ → Journaled (Result OneTimeReceipt OneTimeError)
unfolding one_time_feature
release_one_time s reservation_id failure now = elim (one_time_feature s) [
  | some e ↦ unchanged s (err e)
  | none ↦ applied s [] (release s.one_time reservation_id now) (some failure)
]

unfoldable pub cancel_one_time :
    SecretStore → Text → Text → ℤ → Journaled (Result OneTimeReceipt OneTimeError)
unfolding one_time_feature
cancel_one_time s scope_id input_id now = elim (one_time_feature s) [
  | some e ↦ unchanged s (err e)
  | none ↦ applied s [] (cancel s.one_time scope_id input_id now) none
]

unfoldable pub one_time_state : SecretStore → Text → Text → ℤ → Journaled (Option OneTimeReceipt)
unfolding journal_one_time
one_time_state s scope_id input_id now =
    let (table, receipt, journal) = state s.one_time scope_id input_id now in
    record {
      store = record s { one_time = table };
      outcome = receipt;
      events = journal_one_time journal none;
    }

unfoldable pub sweep_expired_one_time : SecretStore → ℤ → Journaled ℕ
unfolding journal_one_time
sweep_expired_one_time s now =
    let (table, journal) = sweep s.one_time now in
    record {
      store = record s { one_time = table };
      outcome = length journal;
      events = journal_one_time journal none;
    }
